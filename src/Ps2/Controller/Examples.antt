-- ===== src/Ps2/Controller/Examples.antt =====
-- The theorems on the controller at one that answers at once.
use ose.Prelude.{
  ℕ, ◌<◌, ◌≡◌, refl, arith, true, false, some, List, [], ◌∷◌, if◌then◌else◌, ◌==◌, ◌||◌,
}
use ose.Prelude.Bits.{bit}
use ose.Interrupts.Pic.{Chip}
use ose.Interrupts.Pic.Masks.{masked}
use ose.Ps2.Devices.{Poll}
use ose.Ps2.Controller.{
  Controller, absent, uninitialized, disable_irq, enable_second, enable_irq, init_ps2_controller,
  start_devices,
}
use ose.Ps2.Controller.Talk.{Step, sends, answers, sent_by, Follows}
use ose.Ps2.Controller.Script.{script, init_ps2_controller-script}
use ose.Ps2.Controller.Failure.{self_test, start_devices-unusable}

abbrev ready : ℕ → Poll
ready b = record {
  millis = 0;
  millis_fractions = 0;
  input_buffer_full = false;
  output_buffer_full = true;
  byte = b;
}

-- A poll for each step.
unfoldable polls_for : List Step → List Poll
polls_for [] = []
polls_for (sends port byte ∷ ss) = ready 0 ∷ polls_for ss
polls_for (answers byte ∷ ss) = ready byte ∷ polls_for ss

polls_for-Follows : (ss : List Step) → Follows (polls_for ss) ss []
unfolding polls_for Follows
polls_for-Follows [] = refl
polls_for-Follows (sends port byte ∷ ss) =
    ([], ready 0, polls_for ss, refl, (tt, refl), polls_for-Follows ss)
polls_for-Follows (answers byte ∷ ss) =
    ([], ready byte, polls_for ss, refl, (tt, refl), refl, polls_for-Follows ss)

abbrev chip : Chip
chip = record { pending = 0; vector_base = 0x20; cascade = 4; mode = 1; mask = 0 }

abbrev waiting : List Step → Controller
waiting ss = record {
  channel0 = uninitialized;
  channel1 = uninitialized;
  pic = record { master = chip; slave = chip };
  bus = record { polls = polls_for ss; sent = [] };
}

-- A controller with two channels that work.
abbrev two_channels : List Step
two_channels =
    script 0x77 (disable_irq 0x77) 0x44 0x64 (enable_second 0x64) 0 0 0x44 (enable_irq 0x44)

init_ps2_controller-script_example :
    (c' : Controller) × (init_ps2_controller true (waiting two_channels) ≡ some c')
    × (c'.bus ≡ record { polls = []; sent = sent_by two_channels [] })
    × (c'.channel0 ≡ 0)
    × (c'.channel1 ≡ (if bit 0x44 5 then absent else 0))
    × (masked c'.pic 1 ≡ true)
    × (masked c'.pic 12 ≡ true)
    × ((i : ℕ)
        → i < 8
        → (bit (disable_irq 0x77) i
            ≡ (if i == 0 || i == 1 || i == 4 || i == 6 then false else bit 0x77 i))
          × (bit (enable_second 0x64) i ≡ (if i == 1 || i == 5 then false else bit 0x64 i))
          × (bit (enable_irq 0x44) i ≡ (if i == 0 || i == 1 then true else bit 0x44 i)))
init_ps2_controller-script_example =
    init_ps2_controller-script 0x77 0x44 0x64 0 0 0x44 (polls_for two_channels) []
      (waiting two_channels) refl (polls_for-Follows two_channels) (refl, refl)

-- The self test answers 0xFC.
abbrev failing : Controller
failing = waiting (self_test 0x77 0xFC)

start_devices-unusable_example :
    (start_devices true 0x20000 0x20000 failing
      ≡ some (
        0x20000,
        0x20000,
        record failing { bus = record { polls = []; sent = sent_by (self_test 0x77 0xFC) [] } },
      ))
    × (start_devices false 0x20000 0x20000 failing
        ≡ some (0x20000, 0x20000, record failing { channel0 = absent; channel1 = absent }))
start_devices-unusable_example =
    start_devices-unusable 0x20000 0x20000 0x77 0xFC [] failing refl refl
      (polls_for-Follows (self_test 0x77 0xFC)) (λ e. absurd (omega (arith, e)))
