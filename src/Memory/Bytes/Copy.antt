-- ===== src/Memory/Bytes/Copy.antt =====
-- What `memmove`, `memset` and `strlen` do to every address.
use ose.Prelude.{ℕ, zero, suc, ◌+◌, ◌-◌, ◌≤◌, ◌<◌, ◌&&◌, ◌≡◌, ◌≢◌, ◌⊎◌, arith}
use ose.Prelude.{Mem, write, u8, ltb, leb, if◌then◌else◌, Bool, some}
use ose.Memory.Bytes.{
  copy_backward, copy_forward, memmove, memset_loop, memset, strlen_loop, strlen,
}

-- `x` is one of the `count` addresses from `dest` on.
abbrev pub within : ℕ → ℕ → ℕ → Bool
within dest count x = leb dest x && ltb x (dest + count)

copy_backward_lem :
    (d s k : ℕ) (m : Mem) (x : ℕ)
    → s ≤ d
    → copy_backward d s k m x ≡ (if within d k x then m (s + (x - d)) else m x)
unfolding copy_backward
copy_backward_lem d s zero m x h = ground arith
copy_backward_lem d s (suc k) m x h =
    ground (arith, copy_backward_lem d s k (write m (d + k) (m (s + k))) x h)

copy_forward_lem :
    (d s i k : ℕ) (m : Mem) (x : ℕ)
    → (d ≤ s) ⊎ (s + i + k ≤ d)
    → copy_forward d s i k m x ≡ (if within (d + i) k x then m (s + (x - d)) else m x)
unfolding copy_forward
copy_forward_lem d s i zero m x h = ground arith
copy_forward_lem d s i (suc k) m x h =
    ground (arith, copy_forward_lem d s (i + 1) k (write m (d + i) (m (s + i))) x)

-- Whichever way the blocks overlap, if both lie below 2 ^ 32 and hold at most 2 ^ 31 bytes, the
-- destination holds the bytes that the source held before, and no other address changes.
pub memmove_lem :
    (dest src count : ℕ) (m : Mem) (x : ℕ)
    → dest + count ≤ 4294967296
    → src + count ≤ 4294967296
    → count ≤ 2147483648
    → memmove dest src count m x ≡ (if within dest count x then m (src + (x - dest)) else m x)
unfolding memmove
memmove_lem dest src count m x hd hs hc =
    ground (arith, copy_backward_lem dest src count m x, copy_forward_lem dest src 0 count m x)

memset_loop_lem :
    (d ch i k : ℕ) (m : Mem) (x : ℕ)
    → memset_loop d ch i k m x ≡ (if within (d + i) k x then u8 ch else m x)
unfolding memset_loop
memset_loop_lem d ch i zero m x = ground arith
memset_loop_lem d ch i (suc k) m x =
    ground (arith, memset_loop_lem d ch (i + 1) k (write m (d + i) (u8 ch)) x)

-- `memset` stores the low byte of `ch` at the `count` addresses from `dest` on, and nowhere else.
pub memset_lem :
    (dest ch count : ℕ) (m : Mem) (x : ℕ)
    → memset dest ch count m x ≡ (if within dest count x then u8 ch else m x)
unfolding memset
memset_lem dest ch count m x = ground (arith, memset_loop_lem dest ch 0 count m x)

strlen_loop_lem :
    (fuel : ℕ) (m : Mem) (n r str : ℕ)
    → n < fuel
    → m (str + n) ≡ 0
    → ((i : ℕ) → i < n → m (str + i) ≢ 0)
    → strlen_loop fuel m r str ≡ some (r + n)
unfolding strlen_loop
strlen_loop_lem zero m n r str lt e ne = absurd (omega arith)
strlen_loop_lem (suc fuel) m zero r str lt e ne = ground arith
strlen_loop_lem (suc fuel) m (suc n) r str lt e ne = ground (
  arith,
  ne 0 (omega arith),
  strlen_loop_lem fuel m n (r + 1) (str + 1) (omega arith) (ground arith)
      (λ i h. ground (arith, ne (suc i))),
)

-- With more fuel than the length, `strlen` returns the distance to the first zero byte.
pub strlen_lem :
    (fuel : ℕ) (m : Mem) (str n : ℕ)
    → n < fuel
    → m (str + n) ≡ 0
    → ((i : ℕ) → i < n → m (str + i) ≢ 0)
    → strlen fuel m str ≡ some n
unfolding strlen
strlen_lem fuel m str n lt e ne = ground (arith, strlen_loop_lem fuel m n 0 str lt e ne)
