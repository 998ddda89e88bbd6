-- ===== src/Timer/Reload.antt =====
-- The reload value for a frequency.
use ose.Prelude.{
  ℕ, zero, suc, ◌+◌, ◌*◌, ◌/◌, ◌%◌, ◌≤◌, ◌<◌, ◌≡◌, inl, inr, refl, sym, arith, Bool, true, false,
  ltb, leb, ltb→lt, leb→le, u16, Bool-cases, ◌&&◌,
}
use native.Mathlib.Decide.{dec_lt, ℕ_discrete}
use native.Mathlib.Nat.{div-add-mod', mod-lt, mod-eq_of_lt}
use ose.Timer.{rounded, reload_for, adjusted, noted_frequency}

suc_mul : (n b : ℕ) → (n + 1) * b ≡ n * b + b
suc_mul n b = grind arith

plus_zero_mul : (n b : ℕ) → (n + 0) * b ≡ n * b
plus_zero_mul n b = grind arith

-- Rounding to the nearest quotient.
rounded_lem :
    (a b : ℕ) → 0 < b → (2 * (rounded a b * b) ≤ 2 * a + b) × (2 * a ≤ 2 * (rounded a b * b) + b)
rounded_lem a b h =
    let d = div-add-mod' a b in
    let m = mod-lt a h in
    elim (Bool-cases (ltb (b / 2) (a % b))) [
      | inl e ↦
          let up = ltb→lt (b / 2) (a % b) e in
          rw (e, suc_mul (a / b) b) (omega (arith, d, m, up), omega (arith, d, m, up))
      | inr e ↦
          let down : a % b ≤ b / 2 = ground arith in
          rw (e, plus_zero_mul (a / b) b) (omega (arith, d, m, down), omega (arith, d, m, down))
    ]

third : (q : ℕ) → (rounded q 3 * 3 ≤ q + 1) × (q ≤ rounded q 3 * 3 + 1)
third q = (ground arith, ground arith)

times_le : (x y f : ℕ) → x ≤ y → x * f ≤ y * f
times_le x y f h = grind arith

regroup : (r f : ℕ) → (r * 3) * f ≡ 3 * r * f
regroup r f = grind arith

-- The first quotient has 16 bits.
quotient_bounds :
    (q f : ℕ)
    → 2 * (q * f) ≤ 2 * 3579545 + f
    → 2 * 3579545 ≤ 2 * (q * f) + f
    → 55 ≤ f
    → f < 65536
    → (54 ≤ q) × (q < 65536)
quotient_bounds q f a b lo hi = (
  elim (dec_lt q 54) [
    | no n ↦ omega arith
    | yes y ↦ absurd (omega (arith, times_le q 53 f (omega arith)))
  ],
  elim (dec_lt q 65536) [
    | yes y ↦ y
    | no n ↦ absurd (omega (arith, times_le 65536 q f (omega arith)))
  ],
)

above : (r q : ℕ) → (r * 3 ≤ q + 1) × (q ≤ r * 3 + 1) → 54 ≤ q → 1 < r
above r q t h = omega (arith, t.0, t.1)

below : (r q : ℕ) → (r * 3 ≤ q + 1) × (q ≤ r * 3 + 1) → q < 65536 → r < 65536
below r q t h = omega (arith, t.0, t.1)

-- The two roundings together.
two_roundings :
    (q r f : ℕ)
    → 2 * (q * f) ≤ 2 * 3579545 + f
    → 2 * 3579545 ≤ 2 * (q * f) + f
    → (r * 3 ≤ q + 1) × (q ≤ r * 3 + 1)
    → (2 * (3 * r * f) ≤ 2 * 3579545 + 3 * f) × (2 * 3579545 ≤ 2 * (3 * r * f) + 3 * f)
two_roundings q r f a b t =
    let up = times_le (r * 3) (q + 1) f t.0 in
    let down = times_le q (r * 3 + 1) f t.1 in
    rw (sym (regroup r f)) (omega (arith, up, suc_mul q f), omega (arith, down, suc_mul (r * 3) f))

-- For a frequency from 55 on below 65536, three times the reload value times the frequency is the
-- frequency of the crystal, up to one and a half times the frequency; the reload value is above 1 and
-- has 16 bits.
pub reload_for-rounded :
    (f : ℕ)
    → 55 ≤ f
    → f < 65536
    → (2 * (3 * reload_for f * f) ≤ 2 * 3579545 + 3 * f)
      × (2 * 3579545 ≤ 2 * (3 * reload_for f * f) + 3 * f)
      × (1 < reload_for f)
      × (reload_for f < 65536)
unfolding reload_for
reload_for-rounded f lo hi =
    let q = rounded 3579545 f in
    let (a, b) = rounded_lem 3579545 f (omega arith) in
    let (large, small) = quotient_bounds q f a b lo hi in
    let t = third q in
    let r = rounded q 3 in
    let (c, d) = two_roundings q r f a b t in
    let not_high : leb 65536 f ≡ false = ground arith in
    let not_low : ltb f 18 ≡ false = ground arith in
    let whole : u16 q ≡ q = mod-eq_of_lt small in
    let whole' : u16 r ≡ r = mod-eq_of_lt (below r q t small) in
    rw (not_high, not_low, whole, whole') (c, d, above r q t large, below r q t small)

-- A test for each of the `k` numbers from `n` on.
unfoldable all_from : (k n : ℕ) → (ℕ → Bool) → Bool
all_from zero n test = true
all_from (suc k) n test = test n && all_from k (n + 1) test

and_left : (a b : Bool) → (a && b) ≡ true → (a ≡ true) × (b ≡ true)
and_left a b h = ground arith

all_from_lem :
    (k n : ℕ) (test : ℕ → Bool)
    → all_from k n test ≡ true
    → (x : ℕ) → n ≤ x
    → x < n + k
    → test x ≡ true
unfolding all_from
all_from_lem zero n test h x lo hi = absurd (omega arith)
all_from_lem (suc k) n test h x lo hi =
    let (here, later) = and_left (test n) (all_from k (n + 1) test) h in
    elim (ℕ_discrete x n) [
      | yes e ↦ rw e here
      | no ne ↦ all_from_lem k (n + 1) test later x (omega arith) (omega arith)
    ]

-- For a frequency from 18 up to 54 the quotient is cut off to 16 bits before the division by three:
-- the frequency that the code notes is at least twice the one asked for.
pub low_frequency-wrong :
    (f : ℕ) → 18 ≤ f → f < 55 → 2 * f ≤ noted_frequency (adjusted (reload_for f))
unfolding all_from reload_for noted_frequency
low_frequency-wrong f lo hi = leb→le (2 * f) (noted_frequency (adjusted (reload_for f))) (
    all_from_lem 37 18 (λ f. leb (2 * f) (noted_frequency (adjusted (reload_for f)))) refl f lo
      (omega arith))
