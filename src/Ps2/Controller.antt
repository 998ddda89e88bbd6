-- ===== src/Ps2/Controller.antt =====
-- `init_ps2_controller` of src/drivers/ps2/ps2_controller.c, on the polls of Ps2/Devices.
use ose.Prelude.{
  ℕ, ◌+◌, ◌%◌, Bool, true, false, not, ◌&&◌, ◌||◌, ◌==◌, Option, none, some, List, [], ◌∷◌,
  if◌then◌else◌, Mem,
}
use ose.Prelude.Bits.{bit, from_bits}
use ose.Acpi.{Acpi}
use ose.Interrupts.Pic.{Pic, disable_io_devices, device_code, keyboard, mouse}
use ose.Ps2.Devices.{Poll, Bus, data_port, send_command, ◌>>=◌, reset_devices, detect_devices}
pub mod Talk
pub mod Script
pub mod Failure
mod Examples

-- ABSENT and UNINITIALIZED.
abbrev pub absent : ℕ
absent = 0x8

abbrev pub uninitialized : ℕ
uninitialized = 0xF

-- `ps2_status`, and what the initialisation talks to.
pub record Controller : Type 0 where
  pub channel0 : ℕ
  pub channel1 : ℕ
  pub pic : Pic
  pub bus : Bus

-- The revision of the root pointer is its byte 15, iapc_boot_arch is at byte 109 of the table.
unfoldable pub ps2_controller_present : Mem → Acpi → Bool
ps2_controller_present m s =
    if (m (s.rsdp + 15) == 0) || (s.fadt == 0) then true else bit (m (s.fadt + 109)) 1

-- `ps2_send_data` and `ps2_read_data`, which wait without a limit.
unfoldable pub data_loop : List Poll → (byte : ℕ) → List (ℕ × ℕ) → Option Bus
data_loop [] byte sent = none
data_loop (p ∷ ps) byte sent = elim p.input_buffer_full [
  | true ↦ data_loop ps byte sent
  | false ↦ some (record { polls = ps; sent = (data_port, byte) ∷ sent })
]

unfoldable pub send_data : (byte : ℕ) → Bus → Option Bus
send_data byte bus = data_loop bus.polls byte bus.sent

unfoldable pub answer_loop : List Poll → List (ℕ × ℕ) → Option (ℕ × Bus)
answer_loop [] sent = none
answer_loop (p ∷ ps) sent = elim p.output_buffer_full [
  | false ↦ answer_loop ps sent
  | true ↦ some (p.byte, record { polls = ps; sent = sent })
]

unfoldable pub read_data : Bus → Option (ℕ × Bus)
read_data bus = answer_loop bus.polls bus.sent

-- `PS2CommandByte`: an assignment to a field of one bit.
unfoldable pub assign : (i : ℕ) → Bool → (byte : ℕ) → ℕ
assign i b byte = from_bits (λ j. if j == i then b else bit byte j)

abbrev pub channel0_input_buffer_full_interrupt : ℕ
channel0_input_buffer_full_interrupt = 0

abbrev pub channel1_input_buffer_full_interrupt : ℕ
channel1_input_buffer_full_interrupt = 1

abbrev pub disable_channel0_clock : ℕ
disable_channel0_clock = 4

abbrev pub disable_channel1_clock : ℕ
disable_channel1_clock = 5

abbrev pub enable_channel0_translation : ℕ
enable_channel0_translation = 6

-- READ_COMMAND_BYTE and WRITE_COMMAND_BYTE.
unfoldable pub read_command_byte : Bus → Option (ℕ × Bus)
read_command_byte bus = do b ← send_command 0x20 bus; read_data b

unfoldable pub write_command_byte : (byte : ℕ) → Bus → Option Bus
write_command_byte byte bus = do b ← send_command 0x60 bus; send_data byte b

-- A read of the command byte, the assignments `change`, and a write.
unfoldable pub update_command_byte : (change : ℕ → ℕ) → Bus → Option Bus
update_command_byte change bus = do
  (cmd, b) ← read_command_byte bus
  write_command_byte (change cmd) b

unfoldable pub disable_irq : ℕ → ℕ
disable_irq cmd = assign enable_channel0_translation false (
    assign disable_channel0_clock false (
      assign channel1_input_buffer_full_interrupt false
        (assign channel0_input_buffer_full_interrupt false cmd)))

unfoldable pub enable_second : ℕ → ℕ
enable_second cmd =
    assign disable_channel1_clock false (assign channel1_input_buffer_full_interrupt false cmd)

unfoldable pub enable_irq : ℕ → ℕ
enable_irq cmd =
    assign channel1_input_buffer_full_interrupt true
      (assign channel0_input_buffer_full_interrupt true cmd)

-- The branches on `second_channel_present`.
unfoldable pub set_second : (second : Bool) → (channel1 : ℕ) → Bus → Option (ℕ × Bus)
set_second true channel1 bus = do
  b1 ← send_command 0xA7 bus
  b2 ← update_command_byte enable_second b1
  some (channel1, b2)
set_second false channel1 bus = some (absent, bus)

-- A test command; its answer goes into a field of 4 bits.
unfoldable pub test_channel : (cmd : ℕ) → Bus → Option (ℕ × Bus)
test_channel cmd bus = do
  b1 ← send_command cmd bus
  (answer, b2) ← read_data b1
  some (answer % 16, b2)

unfoldable pub test_second : (second : Bool) → (channel1 : ℕ) → Bus → Option (ℕ × Bus)
test_second true channel1 bus = test_channel 0xA9 bus
test_second false channel1 bus = some (channel1, bus)

-- After the self test has succeeded.
unfoldable pub init_channels : Controller → Option Controller
init_channels c = do
  b1 ← send_command 0xA8 c.bus
  (cmd, b2) ← read_command_byte b1
  let second = not (bit cmd disable_channel1_clock)
  (channel1, b3) ← set_second second c.channel1 b2
  (channel0, b4) ← test_channel 0xAB b3
  (channel1', b5) ← test_second second channel1 b4
  let pic = disable_io_devices (device_code mouse) (disable_io_devices (device_code keyboard) c.pic)
  b6 ← update_command_byte enable_irq b5
  some (record { channel0 = channel0; channel1 = channel1'; pic = pic; bus = b6 })

-- `present` is what `ps2_controller_present` returns. The read of the data register that empties it
-- has no effect here.
unfoldable pub init_ps2_controller : (present : Bool) → Controller → Option Controller
init_ps2_controller false c = some (record c { channel0 = absent; channel1 = absent })
init_ps2_controller true c = do
  b1 ← send_command 0xAD c.bus
  b2 ← send_command 0xA7 b1
  b3 ← update_command_byte disable_irq b2
  b4 ← send_command 0xAA b3
  (test, b5) ← read_data b4
  if not (test == 0x55) then some (record c { bus = b5 }) else init_channels (record c { bus = b5 })

-- The calls of `kernel_entry` for the devices, with the entries of `devices` that they leave.
unfoldable pub start_devices :
    (present : Bool) → (device0 device1 : ℕ) → Controller → Option (ℕ × ℕ × Controller)
start_devices present device0 device1 c = do
  c1 ← init_ps2_controller present c
  b2 ← reset_devices c1.channel0 c1.channel1 c1.bus
  (id0, id1, b3) ← detect_devices c1.channel0 c1.channel1 device0 device1 b2
  some (id0, id1, record c1 { bus = b3 })
