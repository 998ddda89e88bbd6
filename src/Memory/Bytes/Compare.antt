-- ===== src/Memory/Bytes/Compare.antt =====
-- `memcmp` decides equality of two blocks, and orders them by signed bytes.
use ose.Prelude.{ℕ, zero, suc, ◌+◌, ◌-◌, ◌<◌, ◌≡◌, ◌≢◌, ◌↔◌, refl, arith, Mem}
use ose.Prelude.Int.{pos, ◌-ℤ◌}
use ose.Memory.Bytes.{memcmp_loop, memcmp, signed8}

-- The two blocks of `n` bytes hold the same bytes.
abbrev pub SameBytes : Mem → ℕ → ℕ → ℕ → Type 0
SameBytes m a b zero = Unit
SameBytes m a b (suc n) = (m a ≡ m b) × SameBytes m (a + 1) (b + 1) n

-- The bytes under the pointers after the loop agree exactly if the blocks do.
last-SameBytes :
    (m : Mem) (n p1 p2 : ℕ)
    → (m ((memcmp_loop (suc n) m p1 p2).0 - 1) ≡ m ((memcmp_loop (suc n) m p1 p2).1 - 1))
      ↔ SameBytes m p1 p2 (suc n)
unfolding memcmp_loop
last-SameBytes m zero p1 p2 = (ground arith, ground arith)
last-SameBytes m (suc n) p1 p2 = (
  ground (arith, last-SameBytes m n (p1 + 1) (p2 + 1)),
  ground (arith, last-SameBytes m n (p1 + 1) (p2 + 1)),
)

signed8_zero : (a b : ℕ) → a < 256 → b < 256 → (signed8 a -ℤ signed8 b ≡ pos 0) ↔ (a ≡ b)
unfolding ◌-ℤ◌
signed8_zero a b ha hb = (ground arith, ground arith)

-- On a memory of bytes, `memcmp` returns 0 exactly if the two blocks hold the same bytes.
pub memcmp-SameBytes :
    (m : Mem) (p1 p2 n : ℕ)
    → ((x : ℕ) → m x < 256)
    → (memcmp m p1 p2 n ≡ pos 0) ↔ SameBytes m p1 p2 n
unfolding memcmp
memcmp-SameBytes m p1 p2 zero byte = (λ h. tt, λ h. refl)
memcmp-SameBytes m p1 p2 (suc n) byte = ground (
  arith,
  signed8_zero (m ((memcmp_loop (suc n) m p1 p2).0 - 1)) (m ((memcmp_loop (suc n) m p1 p2).1 - 1)),
  byte ((memcmp_loop (suc n) m p1 p2).0 - 1),
  byte ((memcmp_loop (suc n) m p1 p2).1 - 1),
  last-SameBytes m n p1 p2,
)

memcmp_loop_first :
    (m : Mem) (k n p1 p2 : ℕ)
    → k < n
    → SameBytes m p1 p2 k
    → m (p1 + k) ≢ m (p2 + k)
    → memcmp_loop n m p1 p2 ≡ (p1 + k + 1, p2 + k + 1)
unfolding memcmp_loop
memcmp_loop_first m k zero p1 p2 h s d = absurd (omega arith)
memcmp_loop_first m zero (suc n) p1 p2 h s d = ground arith
memcmp_loop_first m (suc k) (suc n) p1 p2 h s d =
    ground (arith, memcmp_loop_first m k n (p1 + 1) (p2 + 1))

-- Where the blocks first differ at offset `k`, `memcmp` returns the difference of those two bytes
-- as signed 8-bit numbers.
pub memcmp_first :
    (m : Mem) (k n p1 p2 : ℕ)
    → k < n
    → SameBytes m p1 p2 k
    → m (p1 + k) ≢ m (p2 + k)
    → memcmp m p1 p2 n ≡ signed8 (m (p1 + k)) -ℤ signed8 (m (p2 + k))
unfolding memcmp
memcmp_first m k n p1 p2 h s d = ground (arith, memcmp_loop_first m k n p1 p2 h s d)
