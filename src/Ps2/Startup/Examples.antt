-- ===== src/Ps2/Startup/Examples.antt =====
-- The theorem on the start of a keyboard on channel 1, whose line is on the slave.
use ose.Prelude.{ℕ, ◌<◌, ◌≡◌, ◌≢◌, refl, arith, true, some, List, [], ◌∷◌}
use ose.Prelude.Outcome.{ok}
use ose.Interrupts.{interrupt_gate, universal_interrupt_handler}
use ose.Interrupts.Dispatch.{IsReady, IsRegistered, interrupt}
use ose.Interrupts.Handlers.{entered}
use ose.Interrupts.Examples.{with_tables, with_tables-IsReady, ready}
use ose.Interrupts.Pic.Masks.{IsOperational, delivered}
use ose.Ps2.Devices.{Poll}
use ose.Ps2.Keyboard.{init_commands}
use ose.Ps2.Keyboard.Sends.{waiting}
use ose.Ps2.Keyboard.Examples.{world, empty_queue, free, busy, polls1, polls1-Takes}
use ose.Ps2.Controller.Talk.{Follows, command}
use ose.Ps2.Startup.{Machine, start_keyboard}
use ose.Ps2.Startup.Delivery.{start_keyboard-delivered}

-- The polls behind the command: 0xD4, and the byte for the device.
abbrev behind : List Poll
behind = polls1 1

abbrev machine : Machine
machine = record {
  tables = with_tables;
  pic = ready;
  world = world (busy ∷ free ∷ behind) empty_queue;
}

command-Follows : Follows (busy ∷ free ∷ behind) (command 0xA8 ∷ []) behind
unfolding Follows
command-Follows = (busy ∷ [], free, behind, refl, ((refl, tt), refl), refl)

start_keyboard-delivered_example :
    (m' : Machine) × (start_keyboard 1 0x12340 machine ≡ some m')
    × IsReady 0x10000 m'.tables
    × IsRegistered interrupt_gate 0 m'.tables 0x2C
    × (interrupt m'.tables 0x2C ≡ some (some (entered 0x10000 0x2C)))
    × (universal_interrupt_handler 0x2C m'.tables ≡ ok 0x12340)
    × ((i : ℕ)
        → i < 256
        → i ≢ 0x2C
        → (interrupt m'.tables i ≡ interrupt with_tables i)
          × (universal_interrupt_handler i m'.tables ≡ universal_interrupt_handler i with_tables))
    × IsOperational m'.pic
    × (delivered m'.pic 12 ≡ true)
    × (m'.world.bus ≡ record { polls = []; sent = (0x60, 0xED) ∷ (0x64, 0xD4) ∷ (0x64, 0xA8) ∷ [] })
    × (waiting 1 m'.world ≡ init_commands)
start_keyboard-delivered_example =
    start_keyboard-delivered 1 0x10000 0x12340 machine behind [] with_tables-IsReady (refl, refl)
      (omega arith) (omega arith) (omega arith) refl command-Follows (polls1-Takes (0xED ∷ []))
