-- ===== src/Ps2/Devices/Reset.antt =====
-- The reset of a device with its retries.
use ose.Prelude.{
  ℕ, zero, suc, ◌≤◌, ◌<◌, ◌≡◌, ◌≢◌, refl, arith, true, false, ◌==◌, some, List, [], ◌∷◌, ◌++◌, All,
  length,
}
use ose.Ps2.Devices.{
  Poll, send_command, command_loop, DeviceState, device_ok, bad_acknowledgement, reset_round,
  reset_loop, reset_device,
}
use ose.Ps2.Devices.Exchanges.{
  Exchange, polls_of, IsTaken, IsAnswered, device_send_lem, device_read_lem, answered,
}

-- A round in which the device does not acknowledge: RESET is taken and another byte is answered.
pub record BadRound : Type 0 where
  pub reset : Exchange
  pub reply : Exchange
  pub answer : ℕ

abbrev pub IsBad : BadRound → Type 0
IsBad r = IsTaken r.reset × IsAnswered r.answer r.reply × (r.answer < 256) × (r.answer ≢ 0xFA)

pub polls_of_rounds : List BadRound → List Poll → List Poll
polls_of_rounds [] rest = rest
polls_of_rounds (r ∷ rs) rest = polls_of r.reset (polls_of r.reply (polls_of_rounds rs rest))

-- RESET once for each round and once more.
unfoldable pub resets : List BadRound → List (ℕ × ℕ) → List (ℕ × ℕ)
resets [] sent = (0x60, 0xFF) ∷ sent
resets (r ∷ rs) sent = resets rs ((0x60, 0xFF) ∷ sent)

reset_round-bad :
    (r : BadRound) (rest : List Poll) (sent : List (ℕ × ℕ))
    → IsBad r
    → reset_round 0 (record { polls = polls_of r.reset (polls_of r.reply rest); sent = sent })
      ≡ some (bad_acknowledgement, record { polls = rest; sent = (0x60, 0xFF) ∷ sent })
unfolding reset_round
reset_round-bad r rest sent b =
    let other : (r.answer == 0xFA) ≡ false = let ne = b.3 in ground arith in
    rw
      (
        device_send_lem r.reset (polls_of r.reply rest) 0xFF sent b.0,
        device_read_lem r.reply rest r.answer ((0x60, 0xFF) ∷ sent) b.1,
        answered r.answer b.2,
        other,
      )
      refl

reset_round-ok :
    (reset ack bat : Exchange) (rest : List Poll) (sent : List (ℕ × ℕ))
    → IsTaken reset
    → IsAnswered 0xFA ack
    → IsAnswered 0xAA bat
    → reset_round 0
        (record { polls = polls_of reset (polls_of ack (polls_of bat rest)); sent = sent })
      ≡ some (device_ok, record { polls = rest; sent = (0x60, 0xFF) ∷ sent })
unfolding reset_round
reset_round-ok reset ack bat rest sent t a b =
    rw
      (
        device_send_lem reset (polls_of ack (polls_of bat rest)) 0xFF sent t,
        device_read_lem ack (polls_of bat rest) 0xFA ((0x60, 0xFF) ∷ sent) a,
        device_read_lem bat rest 0xAA ((0x60, 0xFF) ∷ sent) b,
      )
      refl

module _ (reset ack bat : Exchange) (t : IsTaken reset) (a : IsAnswered 0xFA ack)
    (b : IsAnswered 0xAA bat) (rest : List Poll) where
  reset_loop-ok :
      (n : ℕ) (rs : List BadRound) (status : DeviceState) (sent : List (ℕ × ℕ))
      → All IsBad rs
      → length rs < n
      → reset_loop n 0 status (record {
        polls = polls_of_rounds rs (polls_of reset (polls_of ack (polls_of bat rest)));
        sent = sent;
      })
        ≡ some (device_ok, record { polls = rest; sent = resets rs sent })
  unfolding reset_loop resets polls_of_rounds
  reset_loop-ok zero rs status sent h l = elim l [ ]
  reset_loop-ok (suc n) [] status sent h l =
      rw (reset_round-ok reset ack bat rest sent t a b, reset_loop) refl
  reset_loop-ok (suc n) (r ∷ rs) status sent h l =
      let next = polls_of_rounds rs (polls_of reset (polls_of ack (polls_of bat rest))) in
      rw (reset_round-bad r next sent h.0, reset_loop)
        (reset_loop-ok n rs bad_acknowledgement ((0x60, 0xFF) ∷ sent) h.1 (omega arith))

command_loop_waits :
    (ws : List Poll) (p : Poll) (ps : List Poll) (cmd : ℕ) (sent : List (ℕ × ℕ))
    → All (λ w. w.input_buffer_full ≡ true) ws
    → p.input_buffer_full ≡ false
    → command_loop (ws ++ p ∷ ps) cmd sent ≡ some (record { polls = ps; sent = (0x64, cmd) ∷ sent })
unfolding command_loop
command_loop_waits [] p ps cmd sent h l = rw (l, command_loop) refl
command_loop_waits (w ∷ ws) p ps cmd sent h l =
    rw (h.0, command_loop) (command_loop_waits ws p ps cmd sent h.1 l)

-- When the controller takes the command that enables channel 0 after any number of busy polls, at
-- most two rounds follow in which the device answers RESET with another byte than ACK, and then one
-- in which it answers ACK and BAT, each in time, the reset returns with success, and has sent RESET
-- once in each of these rounds and nothing else after the command.
pub reset_device-ok :
    (ws : List Poll) (p : Poll) (rs : List BadRound) (reset ack bat : Exchange) (rest : List Poll)
    (sent : List (ℕ × ℕ))
    → All (λ w. w.input_buffer_full ≡ true) ws
    → p.input_buffer_full ≡ false
    → All IsBad rs
    → length rs ≤ 2
    → IsTaken reset
    → IsAnswered 0xFA ack
    → IsAnswered 0xAA bat
    → reset_device 0 (record {
      polls = ws ++ p ∷ polls_of_rounds rs (polls_of reset (polls_of ack (polls_of bat rest)));
      sent = sent;
    })
      ≡ some (device_ok, record { polls = rest; sent = resets rs ((0x64, 0xAE) ∷ sent) })
unfolding reset_device send_command
reset_device-ok ws p rs reset ack bat rest sent w l h few t a b =
    rw
      (command_loop_waits ws p
        (polls_of_rounds rs (polls_of reset (polls_of ack (polls_of bat rest)))) 0xAE sent w l)
      (reset_loop-ok reset ack bat t a b rest 3 rs device_ok ((0x64, 0xAE) ∷ sent) h (omega arith))
