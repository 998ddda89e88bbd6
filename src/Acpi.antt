-- ===== src/Acpi.antt =====
-- The tables of src/acpi.c, found in a memory of bytes.
use ose.Prelude.{
  ℕ, zero, suc, ◌+◌, ◌-◌, ◌*◌, ◌/◌, Bool, true, false, ◌&&◌, Option, none, some, Mem, ltb, ◌==◌,
  if◌then◌else◌, u8, u32, sub32,
}
use ose.Prelude.Int.{ℤ, pos, negsuc}
use ose.Memory.Bytes.{memcmp}
use ose.Memory.Words.{load32}
pub mod Search
pub mod Checksum
pub mod Tables
mod Examples

abbrev pub ebda_end : ℕ
ebda_end = 0xA0000

abbrev pub bios_rom_start : ℕ
bios_rom_start = 0x0E0000

abbrev pub bios_rom_end : ℕ
bios_rom_end = 0x0FFFFF

-- `sizeof(RSDP_t)`, and the fields of the packed structures that the code reads.
abbrev pub rsdp_size : ℕ
rsdp_size = 20

abbrev pub rsdt_of : Mem → ℕ → ℕ
rsdt_of m rsdp = load32 m (rsdp + 16)

abbrev pub length_of : Mem → ℕ → ℕ
length_of m table = load32 m (table + 4)

-- `sizeof(DescriptionTableHeader)`.
abbrev pub header_size : ℕ
header_size = 36

abbrev pub entry_of : Mem → (rsdt i : ℕ) → ℕ
entry_of m rsdt i = load32 m (rsdt + header_size + 4 * i)

-- Where the program has its two string literals.
pub record Literals : Type 0 where
  pub rsd_ptr : ℕ
  pub facp : ℕ

-- RSDP, RSDT and FADT; 0 is NULL.
pub record Acpi : Type 0 where
  pub rsdp : ℕ
  pub rsdt : ℕ
  pub fadt : ℕ

abbrev pub is_zero : ℤ → Bool
is_zero (pos zero) = true
is_zero (pos (suc n)) = false
is_zero (negsuc n) = false

-- The loops that add up bytes: `k` bytes left, the next at `p`.
unfoldable pub checksum_loop : (k : ℕ) → Mem → (p checksum : ℕ) → ℕ
checksum_loop zero m p checksum = checksum
checksum_loop (suc k) m p checksum = checksum_loop k m (p + 1) (u8 (checksum + m p))

unfoldable pub validate_rsdp : Literals → Mem → ℕ → Bool
validate_rsdp l m ptr = is_zero (memcmp m ptr l.rsd_ptr 8) && (checksum_loop rsdp_size m ptr 0 == 0)

-- A loop of `find_RSDP` over the addresses from `p` on below `end`; the outer `none` means that the
-- fuel ran out, the inner one that the loop ended.
unfoldable pub scan : (fuel : ℕ) → (valid : ℕ → Bool) → (p end : ℕ) → Option (Option ℕ)
scan zero valid p end = none
scan (suc fuel) valid p end = elim (ltb p end) [
  | false ↦ some none
  | true ↦ elim (valid p) [ true ↦ some (some p) | false ↦ scan fuel valid (p + 0x10) end ]
]

-- `(p + 15) & ~0xf`.
abbrev pub align16 : ℕ → ℕ
align16 p = u32 (p + 15) / 16 * 16

-- Enough for each of the two loops.
abbrev pub scan_fuel : ℕ
scan_fuel = 0xA001

abbrev or_else : Option (Option ℕ) → Option ℕ → Option ℕ
or_else none next = none
or_else (some (some p)) next = some p
or_else (some none) next = next

unfoldable pub find_rsdp : Literals → Mem → (ebda_start : ℕ) → Option ℕ
find_rsdp l m ebda_start =
    or_else (scan scan_fuel (validate_rsdp l m) (align16 ebda_start) ebda_end)
      (or_else (scan scan_fuel (validate_rsdp l m) (align16 bios_rom_start) bios_rom_end) (some 0))

unfoldable pub validate_checksum : Mem → ℕ → Bool
validate_checksum m table = checksum_loop (length_of m table) m table 0 == 0

-- The loop of `init_acpi` over the entries from `i` on, with `k` entries left.
unfoldable pub fadt_loop : (k : ℕ) → Literals → Mem → (rsdt i fadt : ℕ) → ℕ
fadt_loop zero l m rsdt i fadt = fadt
fadt_loop (suc k) l m rsdt i fadt =
    let e = entry_of m rsdt i in
    fadt_loop k l m rsdt (i + 1)
      (if (fadt == 0) && is_zero (memcmp m e l.facp 4) && validate_checksum m e then e else fadt)

-- `none` means that the fuel ran out. The pointer that `find_rsdp` gives is followed, NULL or not.
unfoldable pub init_acpi : Literals → Mem → (ebda_start : ℕ) → Acpi → Option Acpi
init_acpi l m ebda_start s = elim (find_rsdp l m ebda_start) [
  | none ↦ none
  | some rsdp ↦
      let rsdt = if validate_checksum m (rsdt_of m rsdp) then rsdt_of m rsdp else s.rsdt in
      some (record {
        rsdp = rsdp;
        rsdt = rsdt;
        fadt =
            if rsdt == 0
            then s.fadt
            else fadt_loop (sub32 (length_of m rsdt) header_size / 4) l m rsdt 0 s.fadt;
      })
]
