-- ===== src/Interrupts/Pic.antt =====
-- The interrupt controllers of src/interrupts.c: init_pic, enable_io_devices and
-- disable_io_devices, on the two 8259 chips as their data sheet describes them.
use ose.Prelude.{
  ℕ, zero, suc, ◌+◌, ◌-◌, ◌*◌, ◌/◌, ◌%◌, ◌^◌, ◌≡◌, Bool, true, false, not, ◌&&◌, ◌||◌, ◌==◌,
  if◌then◌else◌, leb, u8, List, [], ◌∷◌,
}
use ose.Prelude.Bits.{bit, and_not, or}
pub mod Masks

-- A chip: the initialisation words that it waits for, the words that it got, and its mask.
pub record Chip : Type 0 where
  pub pending : ℕ
  pub vector_base : ℕ
  pub cascade : ℕ
  pub mode : ℕ
  pub mask : ℕ

pub record Pic : Type 0 where
  pub master : Chip
  pub slave : Chip

abbrev pub master_command_port : ℕ
master_command_port = 0x20

abbrev pub master_data_port : ℕ
master_data_port = 0x21

abbrev pub slave_command_port : ℕ
slave_command_port = 0xA0

abbrev pub slave_data_port : ℕ
slave_data_port = 0xA1

-- A byte with bit 4 for the command port starts the initialisation, with three words to come.
abbrev pub command : ℕ → Chip → Chip
command byte chip = if bit byte 4 then record chip { pending = 3; mask = 0 } else chip

-- A byte for the data port is the next word of the initialisation, or the mask.
pub data_byte : ℕ → Chip → Chip
data_byte byte chip =
    if chip.pending == 3
    then record chip { pending = 2; vector_base = byte }
    else if chip.pending == 2
    then record chip { pending = 1; cascade = byte }
    else if chip.pending == 1
    then record chip { pending = 0; mode = byte }
    else record chip { mask = byte }

unfoldable pub outb : (port byte : ℕ) → Pic → Pic
outb port byte pic =
    if port == master_command_port
    then record pic { master = command byte pic.master }
    else if port == master_data_port
    then record pic { master = data_byte byte pic.master }
    else if port == slave_command_port
    then record pic { slave = command byte pic.slave }
    else if port == slave_data_port
    then record pic { slave = data_byte byte pic.slave }
    else pic

abbrev pub slave_irq_line : ℕ
slave_irq_line = 2

abbrev pub master_vector_range_start : ℕ
master_vector_range_start = 0x20

abbrev pub slave_vector_range_start : ℕ
slave_vector_range_start = 0x28

-- The initialisation words; `automatic_eoi` is 0 or 1.
abbrev pub icw1 : ℕ
icw1 = 1 + 0 * 2 + 0 * 8 + 1 * 16

abbrev pub icw2 : ℕ → ℕ
icw2 range_start = range_start / 8 * 8

abbrev pub icw3_master : ℕ
icw3_master = 2 ^ slave_irq_line

abbrev pub icw3_slave : ℕ
icw3_slave = slave_irq_line

abbrev pub icw4 : ℕ → ℕ
icw4 automatic_eoi = 1 + automatic_eoi * 2 + 0 * 4 + 0 * 16

unfoldable pub outputs : List (ℕ × ℕ) → Pic → Pic
outputs [] pic = pic
outputs ((port, byte) ∷ os) pic = outputs os (outb port byte pic)

unfoldable pub init_pic : (automatic_eoi : ℕ) → Pic → Pic
init_pic automatic_eoi pic =
    outputs
      ((master_command_port, icw1)
        ∷ (slave_command_port, icw1)
        ∷ (master_data_port, icw2 master_vector_range_start)
        ∷ (slave_data_port, icw2 slave_vector_range_start)
        ∷ (master_data_port, icw3_master)
        ∷ (slave_data_port, icw3_slave)
        ∷ (master_data_port, icw4 automatic_eoi)
        ∷ (slave_data_port, icw4 automatic_eoi)
        ∷ (master_data_port, 0xFF)
        ∷ (slave_data_port, 0xFF)
        ∷ [])
      pic

-- `IODevice` and its values.
pub data IoDevice : Type 0 where
  system_timer : IoDevice
  keyboard : IoDevice
  mouse : IoDevice
  ata_channel_1 : IoDevice
  floppy : IoDevice
  all_devices : IoDevice

abbrev pub device_code : IoDevice → ℕ
device_code system_timer = 0x1
device_code keyboard = 0x2
device_code mouse = 0x110
device_code ata_channel_1 = 0x140
device_code floppy = 0x40
device_code all_devices = 0xFFFF

-- Reading a data port gives the mask.
unfoldable pub enable_io_devices : ℕ → Pic → Pic
enable_io_devices devices pic =
    let pic1 =
      if bit devices 8
      then outb slave_data_port (and_not pic.slave.mask (u8 devices)) pic
      else pic in
    if not (bit devices 8) || (devices == 0xFFFF)
    then outb master_data_port (and_not pic1.master.mask (u8 devices)) pic1
    else pic1

unfoldable pub disable_io_devices : ℕ → Pic → Pic
disable_io_devices devices pic =
    let pic1 =
      if bit devices 8 then outb slave_data_port (or pic.slave.mask (u8 devices)) pic else pic in
    if not (bit devices 8) || (devices == 0xFFFF)
    then outb master_data_port (or pic1.master.mask (u8 devices)) pic1
    else pic1
