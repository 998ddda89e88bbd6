-- ===== src/Console/Printf/Integer/Digits.antt =====
-- The digit buffer of `bound_string_format_integer`: what it stands for, and that it fits.
use ose.Prelude.{ℕ, zero, suc, ◌+◌, ◌-◌, ◌*◌, ◌/◌, ◌%◌, ◌^◌, ◌≤◌, ◌<◌, ◌≡◌, refl, arith, ltb, ◌==◌}
use ose.Prelude.{
  if◌then◌else◌, Bool, true, false, List, [], ◌∷◌, length, Bool-cases, All, ◌&&◌, leb, inl, inr, ap,
  ◌≢◌,
}
use native.Mathlib.Nat.{div-add-mod', mod-lt, pow-suc}
use ose.Console.Printf.Integer.{digit_char, digit_loop, reversed_digits}

-- The digit that a character stands for.
abbrev pub digit_value : ℕ → ℕ
digit_value c = if ltb c b'A' then c - b'0' else if ltb c b'a' then c - b'A' + 10 else c - b'a' + 10

-- The number that a buffer stands for, lowest digit first.
abbrev pub value : ℕ → List ℕ → ℕ
value base [] = 0
value base (c ∷ cs) = digit_value c + value base cs * base

pub digit_value-digit_char : (upper : Bool) (d : ℕ) → d < 16 → digit_value (digit_char upper d) ≡ d
digit_value-digit_char true d h = ground arith
digit_value-digit_char false d h = ground arith

halves : (n base k : ℕ) → 2 ≤ base → n < 2 * k → n / base < k
halves n base k hb h = grind (arith, div-add-mod' n base, mod-lt n {m = base})

value-digit_loop :
    (fuel : ℕ) (upper : Bool) (n base : ℕ)
    → 2 ≤ base
    → base ≤ 16
    → n < 2 ^ fuel
    → value base (digit_loop fuel upper n base) ≡ n
unfolding digit_loop
value-digit_loop zero upper n base lo hi h = omega arith
value-digit_loop (suc fuel) upper n base lo hi h = elim (Bool-cases (n == 0)) [
  | inl e ↦ rw (e, value) (ground arith)
  | inr e ↦
      let small : n / base < 2 ^ fuel =
        halves n base (2 ^ fuel) lo (omega (arith, pow-suc 2 fuel)) in
      let digit : n % base < base = mod-lt n (omega arith) in
      rw (e, value)
        (omega (
          arith,
          digit_value-digit_char upper (n % base) (omega arith),
          ap (λ (t : ℕ). t * base) (value-digit_loop fuel upper (n / base) base lo hi small),
          div-add-mod' n base,
        ))
]

-- In every base from 2 to 16, the digits of a 32-bit number stand for that number.
pub value-reversed_digits :
    (upper : Bool) (n base : ℕ)
    → 2 ≤ base
    → base ≤ 16
    → n < 4294967296
    → value base (reversed_digits upper n base) ≡ n
unfolding reversed_digits
value-reversed_digits upper n base lo hi h =
    ground (arith, value-digit_loop 32 upper n base lo hi h)

eighths : (n base k : ℕ) → 8 ≤ base → n < 8 * k → n / base < k
eighths n base k hb h = grind (arith, div-add-mod' n base, mod-lt n {m = base})

length-digit_loop :
    (fuel k : ℕ) (upper : Bool) (n base : ℕ)
    → 8 ≤ base
    → n < 8 ^ k
    → length (digit_loop fuel upper n base) ≤ k
unfolding digit_loop
length-digit_loop zero k upper n base lo h = omega arith
length-digit_loop (suc fuel) zero upper n base lo h = ground arith
length-digit_loop (suc fuel) (suc k) upper n base lo h =
    ground
      (arith, pow-suc 8 k, eighths n base (8 ^ k), length-digit_loop fuel k upper (n / base) base)

length_pos :
    (fuel : ℕ) (upper : Bool) (n base : ℕ) → n ≢ 0 → 0 < length (digit_loop (suc fuel) upper n base)
unfolding digit_loop
length_pos fuel upper n base h = ground arith

-- In the bases 8, 10 and 16 that `vsnprintf` uses, and in all above, a 32-bit number has at most
-- 11 digits, so `reversed_buffer` of 23 characters is never overrun; and it has at least one.
pub length-reversed_digits :
    (upper : Bool) (n base : ℕ)
    → 8 ≤ base
    → n < 4294967296
    → (0 < length (reversed_digits upper n base)) × (length (reversed_digits upper n base) ≤ 11)
unfolding reversed_digits
length-reversed_digits upper n base lo h = (
  ground (arith, length_pos 31 upper n base),
  ground (arith, length-digit_loop 32 11 upper n base lo (omega arith)),
)

-- Base-10 digits are decimal digit characters.
pub All-digit_loop :
    (fuel : ℕ) (upper : Bool) (n : ℕ)
    → All (λ c. (leb b'0' c && leb c b'9') ≡ true) (digit_loop fuel upper n 10)
unfolding digit_loop
All-digit_loop zero upper n = tt
All-digit_loop (suc fuel) upper n = elim (Bool-cases (n == 0)) [
  | inl e ↦ rw (e, All) tt
  | inr e ↦ rw (e, All) (ground arith, All-digit_loop fuel upper (n / 10))
]

pub All-reversed_digits :
    (upper : Bool) (n : ℕ)
    → All (λ c. (leb b'0' c && leb c b'9') ≡ true) (reversed_digits upper n 10)
unfolding reversed_digits
All-reversed_digits upper n = elim (Bool-cases (n == 0)) [
  | inl e ↦ rw (e, All) (refl, tt)
  | inr e ↦ rw (e, All) (All-digit_loop 32 upper n)
]
