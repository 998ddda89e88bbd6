-- ===== src/Interrupts/Pic/Masks.antt =====
-- Which interrupt lines the controllers let through.
use ose.Prelude.{
  ℕ, zero, suc, ◌+◌, ◌-◌, ◌*◌, ◌≤◌, ◌<◌, ◌≡◌, inl, inr, refl, sym, ◌∙◌, ap, arith, Bool, true,
  false, not, ◌&&◌, ◌||◌, ◌==◌, if◌then◌else◌, ltb, lt→ltb, u8, List, [], ◌∷◌, Bool-cases,
}
use mathlib.Core.Bool.{true≢false}
use native.Mathlib.Decide.{dec_lt}
use ose.Prelude.Bits.{bit, and_not, or, bit-and_not, bit-or}
use ose.Interrupts.Pic.{
  Pic, outb, data_byte, outputs, init_pic, IoDevice, device_code, all_devices, system_timer,
  keyboard, mouse, ata_channel_1, floppy, enable_io_devices, disable_io_devices, slave_data_port,
  master_data_port,
}

-- Initialised, so that the data ports are the masks.
abbrev pub IsOperational : Pic → Type 0
IsOperational pic = (pic.master.pending ≡ 0) × (pic.slave.pending ≡ 0)

abbrev pub masked : Pic → ℕ → Bool
masked pic line = if ltb line 8 then bit pic.master.mask line else bit pic.slave.mask (line - 8)

-- The lines that a value of `IODevice` stands for.
abbrev pub selects : (devices line : ℕ) → Bool
selects devices line =
    if ltb line 8
    then (not (bit devices 8) || (devices == 0xFFFF)) && bit devices line
    else bit devices 8 && bit devices (line - 8)

-- From any state of the chips, `init_pic` leaves both operational with every line masked, the
-- master with vectors from 0x20 and the slave behind its line 2, the slave with vectors from 0x28
-- and the identity 2, both in the 8086 mode with the given end of interrupt.
pub init_pic_lem :
    (automatic_eoi : ℕ) (pic : Pic)
    → init_pic automatic_eoi pic ≡ record {
      master = record {
        pending = 0;
        vector_base = 0x20;
        cascade = 4;
        mode = 1 + automatic_eoi * 2;
        mask = 0xFF;
      };
      slave = record {
        pending = 0;
        vector_base = 0x28;
        cascade = 2;
        mode = 1 + automatic_eoi * 2;
        mask = 0xFF;
      };
    }
unfolding init_pic outputs outb data_byte
init_pic_lem automatic_eoi pic = ground arith

bit-u8 : (n i : ℕ) → i < 8 → bit (u8 n) i ≡ bit n i
bit-u8 n zero h = ap (λ x. x == 1) (omega arith)
bit-u8 n (suc zero) h = ap (λ x. x == 1) (omega arith)
bit-u8 n (suc (suc zero)) h = ap (λ x. x == 1) (omega arith)
bit-u8 n (suc (suc (suc zero))) h = ap (λ x. x == 1) (omega arith)
bit-u8 n (suc (suc (suc (suc zero)))) h = ap (λ x. x == 1) (omega arith)
bit-u8 n (suc (suc (suc (suc (suc zero))))) h = ap (λ x. x == 1) (omega arith)
bit-u8 n (suc (suc (suc (suc (suc (suc zero)))))) h = ap (λ x. x == 1) (omega arith)
bit-u8 n (suc (suc (suc (suc (suc (suc (suc zero))))))) h = ap (λ x. x == 1) (omega arith)
bit-u8 n (suc (suc (suc (suc (suc (suc (suc (suc i)))))))) h = absurd (omega arith)

-- A mask for an operational chip.
set_slave :
    (b : ℕ) (pic : Pic)
    → IsOperational pic
    → outb slave_data_port b pic ≡ record pic { slave = record pic.slave { mask = b } }
unfolding outb data_byte
set_slave b pic v = rw v.1 refl

set_master :
    (b : ℕ) (pic : Pic)
    → IsOperational pic
    → outb master_data_port b pic ≡ record pic { master = record pic.master { mask = b } }
unfolding outb data_byte
set_master b pic v = rw v.0 refl

-- Both masks changed where `devices` says so.
abbrev changed : (ℕ → ℕ → ℕ) → ℕ → Pic → Pic
changed op devices pic =
    let pic1 =
      if bit devices 8 then outb slave_data_port (op pic.slave.mask (u8 devices)) pic else pic in
    if not (bit devices 8) || (devices == 0xFFFF)
    then outb master_data_port (op pic1.master.mask (u8 devices)) pic1
    else pic1

module _ (op : ℕ → ℕ → ℕ) (f : Bool → Bool → Bool) where
  -- Both functions take the mask of a chip to one with each bit put together with a bit of
  -- `devices`, if the chip is chosen.
  changed_lem :
      ((a b i : ℕ) → i < 8 → bit (op a b) i ≡ f (bit a i) (bit b i))
      → ((b : Bool) → f b false ≡ b)
      → (devices line : ℕ) (pic : Pic) → IsOperational pic
      → line < 16
      → IsOperational (changed op devices pic)
        × (masked (changed op devices pic) line ≡ f (masked pic line) (selects devices line))
  unfolding outb data_byte
  changed_lem bits unit devices line pic v h =
      let hit : (m i : ℕ) → i < 8 → bit (op m (u8 devices)) i ≡ f (bit m i) (bit devices i) =
        λ m i hi. bits m (u8 devices) i hi ∙ ap (f (bit m i)) (bit-u8 devices i hi) in
      let low = lt→ltb line 8 in
      let high : 8 ≤ line → ltb line 8 ≡ false = λ k. ground arith in
      elim (Bool-cases (bit devices 8)) [
        | inl s ↦ elim (Bool-cases (devices == 0xFFFF)) [
          | inl a ↦ elim (dec_lt line 8) [
            | yes p ↦ rw (s, a, v.0, v.1, low p) ((refl, refl), hit pic.master.mask line p)
            | no p ↦
                rw (s, a, v.0, v.1, high (omega arith))
                  ((refl, refl), hit pic.slave.mask (line - 8) (omega arith))
          ]
          | inr a ↦ elim (dec_lt line 8) [
            | yes p ↦ rw (s, a, v.1, low p) ((v.0, refl), sym (unit (bit pic.master.mask line)))
            | no p ↦
                rw (s, a, v.1, high (omega arith))
                  ((v.0, refl), hit pic.slave.mask (line - 8) (omega arith))
          ]
        ]
        | inr s ↦ elim (dec_lt line 8) [
          | yes p ↦ rw (s, v.0, low p) ((refl, v.1), hit pic.master.mask line p)
          | no p ↦
              rw (s, v.0, high (omega arith))
                ((refl, v.1), sym (unit (bit pic.slave.mask (line - 8))))
        ]
      ]

-- On operational chips, `enable_io_devices` lets the lines of the devices through and leaves the
-- other lines as they were, and `disable_io_devices` masks exactly them.
pub io_devices-masked :
    (devices line : ℕ) (pic : Pic)
    → IsOperational pic
    → line < 16
    → (IsOperational (enable_io_devices devices pic)
        × (masked (enable_io_devices devices pic) line
            ≡ (masked pic line && not (selects devices line))))
      × (IsOperational (disable_io_devices devices pic)
          × (masked (disable_io_devices devices pic) line
              ≡ (masked pic line || selects devices line)))
unfolding enable_io_devices disable_io_devices
io_devices-masked devices line pic v h = (
  changed_lem and_not (λ a b. a && not b) bit-and_not (λ b. ground arith) devices line pic v h,
  changed_lem or (λ a b. a || b) bit-or (λ b. ground arith) devices line pic v h,
)

-- A line gets to the processor: the lines of the slave through line 2 of the master.
abbrev pub delivered : Pic → ℕ → Bool
delivered pic line = not (masked pic line) && (ltb line 8 || not (masked pic 2))

unfoldable pub enable_all : List IoDevice → Pic → Pic
enable_all [] pic = pic
enable_all (d ∷ ds) pic = enable_all ds (enable_io_devices (device_code d) pic)

unfoldable pub has_all_devices : List IoDevice → Bool
has_all_devices [] = false
has_all_devices (all_devices ∷ ds) = true
has_all_devices (d ∷ ds) = has_all_devices ds

-- Of the devices, only ALL_DEVICES selects line 2.
named_selects :
    (d : IoDevice) (ds : List IoDevice)
    → has_all_devices (d ∷ ds) ≡ false
    → (selects (device_code d) 2 ≡ false) × (has_all_devices ds ≡ false)
unfolding has_all_devices
named_selects system_timer ds h = (refl, h)
named_selects keyboard ds h = (refl, h)
named_selects mouse ds h = (refl, h)
named_selects ata_channel_1 ds h = (refl, h)
named_selects floppy ds h = (refl, h)
named_selects all_devices ds h = absurd (true≢false h)

cascade_masked :
    (ds : List IoDevice) (pic : Pic)
    → IsOperational pic
    → masked pic 2 ≡ true
    → has_all_devices ds ≡ false
    → masked (enable_all ds pic) 2 ≡ true
unfolding enable_all
cascade_masked [] pic v m h = m
cascade_masked (d ∷ ds) pic v m h =
    let (no2, rest) = named_selects d ds h in
    let (v', m') = (io_devices-masked (device_code d) 2 pic v (omega arith)).0 in
    cascade_masked ds (enable_io_devices (device_code d) pic) v' (m' ∙ rw (m, no2) refl) rest

-- After `init_pic`, whichever devices are enabled one after another, ALL_DEVICES not among them, no
-- interrupt of the slave, which the mouse and the first ATA channel are on, gets to the processor:
-- line 2 of the master stays masked.
pub slave-undelivered :
    (automatic_eoi : ℕ) (ds : List IoDevice) (pic : Pic) (line : ℕ)
    → has_all_devices ds ≡ false
    → 8 ≤ line
    → line < 16
    → delivered (enable_all ds (init_pic automatic_eoi pic)) line ≡ false
slave-undelivered automatic_eoi ds pic line h lo hi =
    let high : ltb line 8 ≡ false = ground arith in
    let start = init_pic automatic_eoi pic in
    let v : IsOperational start = rw (init_pic_lem automatic_eoi pic) (refl, refl) in
    let m : masked start 2 ≡ true = rw (init_pic_lem automatic_eoi pic) refl in
    let blocked : masked (enable_all ds start) 2 ≡ true = cascade_masked ds start v m h in
    rw (high, blocked) (ground arith)
