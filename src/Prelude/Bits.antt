-- ===== src/Prelude/Bits.antt =====
-- The bits of a byte.
use ose.Prelude.{
  ℕ, zero, suc, ◌+◌, ◌/◌, ◌%◌, ◌^◌, ◌<◌, ◌≡◌, arith, Bool, not, ◌&&◌, ◌||◌, ◌==◌, if◌then◌else◌,
}

-- Bit `i` of a number.
abbrev pub bit : ℕ → ℕ → Bool
bit n i = n / 2 ^ i % 2 == 1

abbrev worth : Bool → ℕ → ℕ
worth b n = if b then n else 0

-- The byte with the bits that `f` gives.
unfoldable pub from_bits : (ℕ → Bool) → ℕ
from_bits f =
    worth (f 0) 1
    + worth (f 1) 2
    + worth (f 2) 4
    + worth (f 3) 8
    + worth (f 4) 16
    + worth (f 5) 32
    + worth (f 6) 64
    + worth (f 7) 128

-- `a & ~b` and `a | b` on bytes.
pub and_not : ℕ → ℕ → ℕ
and_not a b = from_bits (λ i. bit a i && not (bit b i))

pub or : ℕ → ℕ → ℕ
or a b = from_bits (λ i. bit a i || bit b i)

pub bit-from_bits : (f : ℕ → Bool) (i : ℕ) → i < 8 → bit (from_bits f) i ≡ f i
unfolding from_bits
bit-from_bits f zero h = ground arith
bit-from_bits f (suc zero) h = ground arith
bit-from_bits f (suc (suc zero)) h = ground arith
bit-from_bits f (suc (suc (suc zero))) h = ground arith
bit-from_bits f (suc (suc (suc (suc zero)))) h = ground arith
bit-from_bits f (suc (suc (suc (suc (suc zero))))) h = ground arith
bit-from_bits f (suc (suc (suc (suc (suc (suc zero)))))) h = ground arith
bit-from_bits f (suc (suc (suc (suc (suc (suc (suc zero))))))) h = ground arith
bit-from_bits f (suc (suc (suc (suc (suc (suc (suc (suc i)))))))) h = absurd (omega arith)

pub bit-and_not : (a b i : ℕ) → i < 8 → bit (and_not a b) i ≡ (bit a i && not (bit b i))
unfolding and_not
bit-and_not a b i h = bit-from_bits (λ i. bit a i && not (bit b i)) i h

pub bit-or : (a b i : ℕ) → i < 8 → bit (or a b) i ≡ (bit a i || bit b i)
unfolding or
bit-or a b i h = bit-from_bits (λ i. bit a i || bit b i) i h
