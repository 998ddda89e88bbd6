-- ===== src/Interrupts/Examples.antt =====
-- The theorems on interrupts at tables from 1 MB on, and at the devices of the kernel.
use ose.Prelude.{
  ℕ, ◌<◌, ◌≡◌, ◌≢◌, refl, arith, false, not, ◌&&◌, ◌||◌, ltb, if◌then◌else◌, some, none, [], ◌∷◌,
}
use ose.Prelude.Outcome.{ok, panic}
use ose.Memory.Immortal.{initial}
use ose.Interrupts.{Interrupts, init_interrupts, universal_interrupt_handler}
use ose.Interrupts.Dispatch.{IsReady, interrupt}
use ose.Interrupts.Handlers.{entered}
use ose.Interrupts.Initial.{prepared, prepared-IsReady, init_interrupts-IsReady}
use ose.Interrupts.Pic.{Chip, Pic, init_pic, enable_io_devices, disable_io_devices, mouse, keyboard}
use ose.Interrupts.Pic.Masks.{
  IsOperational, masked, selects, delivered, enable_all, has_all_devices, io_devices-masked,
  slave-undelivered,
}

abbrev unset : Interrupts
unset = record { ram = λ a. 0; immortal = initial; trampolines = 0; idt = 0; handler_table = 0 }

abbrev pub with_tables : Interrupts
with_tables = record {
  ram = prepared 0x10000 0x100000 0x100800 0x101000 (λ a. 0);
  immortal = initial;
  trampolines = 0x100000;
  idt = 0x100800;
  handler_table = 0x101000;
}

pub with_tables-IsReady : IsReady 0x10000 with_tables
with_tables-IsReady =
    prepared-IsReady 0x10000 0x100000 0x100800 0x101000 (λ a. 0) initial
      (omega arith, omega arith, omega arith) (omega arith)

init_interrupts-IsReady_example :
    (s' : Interrupts) × (init_interrupts 0x10000 0x12340 unset ≡ ok s')
    × IsReady 0x10000 s'
    × ((i : ℕ)
        → i < 256
        → interrupt s' i ≡ (if ltb i 32 then some (some (entered 0x10000 i)) else none))
    × (universal_interrupt_handler 14 s' ≡ ok 0x12340)
    × ((i : ℕ) → i < 256 → i ≢ 14 → universal_interrupt_handler i s' ≡ panic)
init_interrupts-IsReady_example =
    init_interrupts-IsReady 0x10000 0x12340 unset (omega arith, omega arith) (omega arith)
      (omega arith) (omega arith) (omega arith)

abbrev pub reset : Chip
reset = record { pending = 0; vector_base = 8; cascade = 0; mode = 0; mask = 0 }

abbrev pub ready : Pic
ready = record { master = record reset { mask = 0xFB }; slave = record reset { mask = 0xFF } }

io_devices-masked_example :
    (IsOperational (enable_io_devices 0x110 ready)
      × (masked (enable_io_devices 0x110 ready) 12 ≡ (masked ready 12 && not (selects 0x110 12))))
    × (IsOperational (disable_io_devices 0x110 ready)
        × (masked (disable_io_devices 0x110 ready) 12 ≡ (masked ready 12 || selects 0x110 12)))
io_devices-masked_example = io_devices-masked 0x110 12 ready (refl, refl) (omega arith)

slave-undelivered_example :
    delivered
      (enable_all (mouse ∷ keyboard ∷ []) (init_pic 1 (record { master = reset; slave = reset })))
      12
    ≡ false
unfolding has_all_devices
slave-undelivered_example =
    slave-undelivered 1 (mouse ∷ keyboard ∷ []) (record { master = reset; slave = reset }) 12 refl
      (omega arith) (omega arith)
