-- ===== src/Ps2/Keyboard/Examples.antt =====
-- The theorems on the keyboard handler at concrete keys and queues.
use ose.Prelude.{
  ◌≡◌, refl, arith, List, [], ◌∷◌, ◌++◌, ◌+◌, ℕ, zero, suc, true, false, some, length,
}
use ose.Ps2.Devices.{Poll}
use ose.Ps2.Devices.Exchanges.{Exchange, polls_of}
use ose.Ps2.Controller.Talk.{Follows}
use ose.Ps2.Queue.{CommandQueue}
use ose.Ps2.Keyboard.{World, idle}
use ose.Ps2.Keyboard.Events.{
  KeyEvent, press, release, ext_press, print_screen_press, pause, run, encode_all, typed_all,
  run-encode_all,
}
use ose.Ps2.Keyboard.Sends.{waiting, Takes}
use ose.Ps2.Keyboard.Resends.{resends-stuck}

abbrev pub empty_queue : CommandQueue
empty_queue = record { buffer = λ i. 0; head = 0; tail = 0; size = 32 }

-- Two commands wait.
abbrev two_wait : CommandQueue
two_wait = record { buffer = λ i. i + 0xED; head = 0; tail = 2; size = 32 }

abbrev pub world : List Poll → CommandQueue → World
world polls q = record {
  decoder = idle;
  fail_count = 0;
  queues = λ c. q;
  bus = record { polls = polls; sent = [] };
  typed = [];
}

abbrev pub free : Poll
free = record {
  millis = 0;
  millis_fractions = 0;
  input_buffer_full = false;
  output_buffer_full = false;
  byte = 0;
}

abbrev pub busy : Poll
busy = record free { input_buffer_full = true }

-- The controller is busy at first, and then takes the byte.
abbrev pub taken : Exchange
taken = record { start = free; waits = busy ∷ []; last = free }

-- The polls for `n` bytes, for channel 0 and for channel 1.
abbrev polls0 : ℕ → List Poll
polls0 zero = []
polls0 (suc n) = polls_of taken (polls0 n)

abbrev pub polls1 : ℕ → List Poll
polls1 zero = []
polls1 (suc n) = busy ∷ free ∷ polls_of taken (polls1 n)

polls0-Takes : (bs : List ℕ) → Takes 0 (polls0 (length bs)) bs []
unfolding Takes Follows
polls0-Takes [] = refl
polls0-Takes (b ∷ bs) = (
  taken,
  polls0 (suc (length bs)),
  polls0 (length bs),
  refl,
  refl,
  (((refl, refl), tt), (refl, refl)),
  polls0-Takes bs,
)

pub polls1-Takes : (bs : List ℕ) → Takes 1 (polls1 (length bs)) bs []
unfolding Takes Follows
polls1-Takes [] = refl
polls1-Takes (b ∷ bs) = (
  taken,
  polls_of taken (polls1 (length bs)),
  polls1 (length bs),
  (busy ∷ [], free, polls_of taken (polls1 (length bs)), refl, ((refl, tt), refl), refl),
  refl,
  (((refl, refl), tt), (refl, refl)),
  polls1-Takes bs,
)

-- "hi", a release, the enter key of the keypad, Print Screen and Pause.
abbrev keys : List KeyEvent
keys = press 0x33 ∷ press 0x43 ∷ release 0x33 ∷ ext_press 0x5A ∷ print_screen_press ∷ pause ∷ []

run-encode_all_example :
    run 0x21 (encode_all keys) (world [] empty_queue)
    ≡ some (record (world [] empty_queue) { typed = typed_all keys ++ [] })
run-encode_all_example = run-encode_all 0x21 keys (world [] empty_queue) (omega arith) refl

resends-stuck_example :
    (w' : World) × (run 0x21
        (0xFE ∷ 0xFE ∷ 0xFE ∷ [])
        (record (world (polls0 2) two_wait) { fail_count = 2 })
      ≡ some w')
    × (waiting 0 w' ≡ 0xEE ∷ [])
    × (w'.fail_count ≡ 5)
    × (w'.bus ≡ record { polls = []; sent = (0x60, 0xEE) ∷ (0x60, 0xEE) ∷ [] })
resends-stuck_example =
    resends-stuck 0x21 2 (record (world (polls0 2) two_wait) { fail_count = 2 }) [] (omega arith)
      refl refl (omega arith) (polls0-Takes (0xEE ∷ 0xEE ∷ []))
