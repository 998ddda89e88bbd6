-- ===== src/Ps2/Startup.antt =====
-- The whole of `init_ps2_keyboard` of src/drivers/ps2/ps2_keyboard.c: the command to the controller,
-- the interrupt gate, the queue of commands, the mask of the interrupt controllers, and the first
-- command to the device.
use ose.Prelude.{ℕ, ◌==◌, if◌then◌else◌, Option, some}
use ose.Interrupts.{Interrupts, interrupt_gate, set_interrupt_handler}
use ose.Interrupts.Pic.{Pic, enable_io_devices, device_code, keyboard, mouse}
use ose.Ps2.Keyboard.{World, keyboard_vector, init_ps2_keyboard}
use ose.Ps2.Devices.{send_command, ◌>>=◌}
pub mod Delivery
mod Examples

pub record Machine : Type 0 where
  pub tables : Interrupts
  pub pic : Pic
  pub world : World

abbrev pub mouse_vector : ℕ
mouse_vector = 0x2C

-- `handler` is the address of `keyboard_handler`; ENABLE_CHANNEL0 is 0xAE and ENABLE_CHANNEL1 0xA8.
-- The queue and the mask are independent, so the commands are queued together with the send, which
-- comes last.
unfoldable pub start_keyboard : (channel handler : ℕ) → Machine → Option Machine
start_keyboard channel handler m = do
  bus ← send_command (if channel == 0 then 0xAE else 0xA8) m.world.bus
  let vector = if channel == 0 then keyboard_vector else mouse_vector
  let device = if channel == 0 then device_code keyboard else device_code mouse
  world ← init_ps2_keyboard channel (record m.world { bus = bus })
  some (record {
    tables = set_interrupt_handler vector interrupt_gate 0 handler m.tables;
    pic = enable_io_devices device m.pic;
    world = world;
  })
