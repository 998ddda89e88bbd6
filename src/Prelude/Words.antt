-- ===== src/Prelude/Words.antt =====
-- Machine words as native numbers, and memory as a function from addresses.
use Prim.Native.Nat.{ℕ, ◌+◌, ◌-◌, ◌%◌}
use ose.Prelude.Tests.{◌==◌, if◌then◌else◌}

abbrev pub u8 : ℕ → ℕ
u8 n = n % 256

abbrev pub u16 : ℕ → ℕ
u16 n = n % 65536

abbrev pub u32 : ℕ → ℕ
u32 n = n % 4294967296

-- `a - b` in `uint32_t`, for operands below 2 ^ 32.
abbrev pub sub32 : ℕ → ℕ → ℕ
sub32 a b = (a + 4294967296 - b) % 4294967296

-- What each address holds: a byte or a 32-bit word, as the user of the memory says.
abbrev pub Mem : Type 0
Mem = ℕ → ℕ

-- A store to one address.
abbrev pub write : Mem → ℕ → ℕ → Mem
write m a v x = if x == a then v else m x
