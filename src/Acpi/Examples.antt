-- ===== src/Acpi/Examples.antt =====
-- The theorems on the ACPI tables at a memory with a root pointer in the ROM.
use ose.Prelude.{
  ℕ, ◌/◌, ◌<◌, ◌≡◌, ◌≢◌, ◌%◌, refl, arith, true, some, Mem, ◌==◌, if◌then◌else◌, u8, sub32,
}
use native.Mathlib.Nat.{mod-lt}
use ose.Prelude.Int.{◌-ℤ◌}
use ose.Memory.Bytes.{memcmp, memcmp_loop}
use ose.Acpi.{
  checksum_loop, Literals, Acpi, find_rsdp, init_acpi, validate_rsdp, validate_checksum, rsdt_of,
  length_of,
}
use ose.Acpi.Tables.{IsFound, init_acpi_lem}

abbrev literals : Literals
literals = record { rsd_ptr = 0x2000; facp = 0x2010 }

-- "RSD PTR ".
abbrev letter : ℕ → ℕ
letter i =
    if i == 0
    then 0x52
    else if i == 1
    then 0x53
    else if i == 2
    then 0x44
    else if i == 4
    then 0x50
    else if i == 5
    then 0x54
    else if i == 6
    then 0x52
    else if (i == 3)
    then 0x20
    else if i == 7
    then 0x20
    else 0

-- The string at 0x2000 and a root pointer at 0xE0010, with its checksum.
abbrev rom : Mem
rom a = u8 (
    if a / 8 == 0x2000 / 8
    then letter (a % 8)
    else if a / 8 == 0xE0010 / 8
    then letter (a % 8)
    else if a == 0xE0018
    then 0xE1
    else 0)

rom-bytes : (x : ℕ) → rom x < 256
rom-bytes x = mod-lt _ (omega arith)

init_acpi_lem_example :
    (s : Acpi) × (init_acpi literals rom 0x9FC00 (record { rsdp = 0; rsdt = 0; fadt = 0 }) ≡ some s)
    × (find_rsdp literals rom 0x9FC00 ≡ some s.rsdp)
    × (s.rsdt ≡ (if validate_checksum rom (rsdt_of rom s.rsdp) then rsdt_of rom s.rsdp else 0))
    × ((s.rsdt ≡ 0 → s.fadt ≡ 0)
        × (s.rsdt ≢ 0 → IsFound literals rom s.rsdt 0 (sub32 (length_of rom s.rsdt) 36 / 4) s.fadt))
init_acpi_lem_example = init_acpi_lem literals rom 0x9FC00 rom-bytes (omega arith)

-- The root pointer is valid.
rom-valid : validate_rsdp literals rom 0xE0010 ≡ true
unfolding validate_rsdp memcmp memcmp_loop checksum_loop ◌-ℤ◌
rom-valid = refl
