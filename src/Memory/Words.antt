-- ===== src/Memory/Words.antt =====
-- 32-bit words in a memory of bytes, lowest byte first, as the i386 loads and stores them.
use ose.Prelude.{ℕ, ◌+◌, ◌*◌, ◌/◌, ◌%◌, ◌≤◌, ◌<◌, ◌≡◌, ◌⊎◌, ◌≢◌, arith, Mem, ◌==◌, if◌then◌else◌}
use native.Mathlib.Decide.{dec_lt}
use ose.Prelude.{inl, inr}
use ose.Memory.Bytes.{memzero}
use ose.Memory.Bytes.Copy.{memset_lem}

unfoldable pub load32 : Mem → ℕ → ℕ
load32 m a =
    m a % 256 + m (a + 1) % 256 * 256 + m (a + 2) % 256 * 65536 + m (a + 3) % 256 * 16777216

pub store32 : Mem → ℕ → ℕ → Mem
store32 m a v x =
    if x == a
    then v % 256
    else if x == a + 1
    then v / 256 % 256
    else if x == a + 2
    then v / 65536 % 256
    else if x == a + 3
    then v / 16777216 % 256
    else m x

pub load32-lt : (m : Mem) (a : ℕ) → load32 m a < 4294967296
unfolding load32
load32-lt m a = omega arith

pub load32-store32_self : (m : Mem) (a v : ℕ) → v < 4294967296 → load32 (store32 m a v) a ≡ v
unfolding load32 store32
load32-store32_self m a v h = ground arith

-- A store leaves a word that it does not overlap.
pub load32-store32_apart :
    (m : Mem) (a b v : ℕ) → (a + 4 ≤ b) ⊎ (b + 4 ≤ a) → load32 (store32 m a v) b ≡ load32 m b
unfolding load32 store32
load32-store32_apart m a b v h = ground arith

pub load32-store32_ne :
    (m : Mem) (a b v : ℕ) → a % 4 ≡ 0 → b % 4 ≡ 0 → a ≢ b → load32 (store32 m a v) b ≡ load32 m b
load32-store32_ne m a b v ha hb ne =
    load32-store32_apart m a b v
      (elim (dec_lt a b) [ yes p ↦ inl (omega arith) | no p ↦ inr (omega arith) ])

-- Words of a zeroed block are zero, and words outside it stay.
pub load32-memzero_in : (m : Mem) (d n a : ℕ) → d ≤ a → a + 4 ≤ d + n → load32 (memzero d n m) a ≡ 0
unfolding load32 memzero
load32-memzero_in m d n a h k = ground (
  arith,
  memset_lem d 0 n m a,
  memset_lem d 0 n m (a + 1),
  memset_lem d 0 n m (a + 2),
  memset_lem d 0 n m (a + 3),
)

pub load32-memzero_out :
    (m : Mem) (d n a : ℕ) → (a + 4 ≤ d) ⊎ (d + n ≤ a) → load32 (memzero d n m) a ≡ load32 m a
unfolding load32 memzero
load32-memzero_out m d n a h = ground (
  arith,
  memset_lem d 0 n m a,
  memset_lem d 0 n m (a + 1),
  memset_lem d 0 n m (a + 2),
  memset_lem d 0 n m (a + 3),
)

-- A word depends on its four bytes, and a store changes no others.
pub load32-agree :
    (m m' : Mem) (a : ℕ)
    → m' a ≡ m a
    → m' (a + 1) ≡ m (a + 1)
    → m' (a + 2) ≡ m (a + 2)
    → m' (a + 3) ≡ m (a + 3)
    → load32 m' a ≡ load32 m a
unfolding load32
load32-agree m m' a p q r s = ground arith

pub store32_outside : (m : Mem) (a v x : ℕ) → (x < a) ⊎ (a + 4 ≤ x) → store32 m a v x ≡ m x
unfolding store32
store32_outside m a v x h = ground arith
