-- ===== src/Ps2/Devices/Examples.antt =====
-- The theorems on the devices at a keyboard that answers at once.
use ose.Prelude.{ℕ, ◌≡◌, refl, arith, true, false, some, [], ◌∷◌, ◌++◌}
use ose.Ps2.Devices.{Poll, detect_loop, reset_device, device_ok}
use ose.Ps2.Devices.Exchanges.{Exchange, polls_of, detect_loop-id}
use ose.Ps2.Devices.Reset.{polls_of_rounds, resets, reset_device-ok}

-- A poll at the time 0 that finds the input buffer free and a byte in the output buffer.
abbrev prompt : ℕ → Poll
prompt b = record {
  millis = 0;
  millis_fractions = 0;
  input_buffer_full = false;
  output_buffer_full = true;
  byte = b;
}

abbrev busy : Poll
busy = record (prompt 0) { input_buffer_full = true }

abbrev at_once : ℕ → Exchange
at_once b = record { start = prompt b; waits = []; last = prompt b }

detect_loop-id_example :
    detect_loop 3 0 (record {
      polls = polls_of (at_once 0) (
          polls_of (at_once 0xFA) (
            polls_of
              (at_once 0)
              (polls_of (at_once 0xFA) (polls_of (at_once 0xAB) (polls_of (at_once 0x83) [])))));
      sent = [];
    })
    ≡ some (some 0x83AB, record { polls = []; sent = (0x60, 0xF2) ∷ (0x60, 0xF5) ∷ [] })
detect_loop-id_example =
    detect_loop-id 2 (at_once 0) (at_once 0xFA) (at_once 0) (at_once 0xFA) (at_once 0xAB)
      (at_once 0x83) 0xAB 0x83 [] [] (tt, (refl, refl)) (tt, (refl, refl), refl) (tt, (refl, refl))
      (tt, (refl, refl), refl) (tt, (refl, refl), refl) (tt, (refl, refl), refl) (omega arith)
      (omega arith)

-- RSD once, then success.
reset_device-ok_example :
    reset_device 0 (record {
      polls =
          (busy ∷ [])
          ++ prompt 0
            ∷ polls_of_rounds
                (record { reset = at_once 0; reply = at_once 0xFE; answer = 0xFE } ∷ [])
                (polls_of (at_once 0) (polls_of (at_once 0xFA) (polls_of (at_once 0xAA) [])));
      sent = [];
    })
    ≡ some (
      device_ok,
      record {
        polls = [];
        sent =
            resets
              (record { reset = at_once 0; reply = at_once 0xFE; answer = 0xFE } ∷ [])
              ((0x64, 0xAE) ∷ []);
      },
    )
reset_device-ok_example =
    reset_device-ok (busy ∷ []) (prompt 0)
      (record { reset = at_once 0; reply = at_once 0xFE; answer = 0xFE } ∷ []) (at_once 0)
      (at_once 0xFA) (at_once 0xAA) [] [] (refl, tt) refl
      (((tt, (refl, refl)), (tt, (refl, refl), refl), omega arith, omega arith), tt) (omega arith)
      (tt, (refl, refl)) (tt, (refl, refl), refl) (tt, (refl, refl), refl)
