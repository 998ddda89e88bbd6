-- ===== src/Console/Printf/Number.antt =====
-- Decimal numbers: what `bound_string_format_integer` prints, `parse_int` reads back.
use ose.Prelude.{ℕ, ◌+◌, ◌-◌, ◌*◌, ◌≤◌, ◌<◌, ◌≡◌, refl, arith, ap, ◌∙◌, u32}
use ose.Prelude.{
  List, [], ◌∷◌, ◌++◌, true, false, Bool, All, append_assoc, length, Bool-cases, inl, inr,
}
use ose.Prelude.Int.{ℤ, pos, signed32}
use mathlib.Core.List.{reverse, reverse-cons}
use ose.Console.Printf.{is_digit, parse_int_loop, parse_int}
use ose.Console.Printf.Integer.{reversed_digits}
use ose.Console.Printf.Integer.Digits.{
  digit_value, value, value-reversed_digits, All-reversed_digits,
}

next_value :
    (c v : ℕ)
    → is_digit c ≡ true
    → digit_value c + v * 10 < 4294967296
    → u32 (v * 10 + (c - b'0')) ≡ digit_value c + v * 10
next_value c v d lt = ground arith

parse_int_loop-reverse :
    (cs rest : List ℕ)
    → All (λ c. is_digit c ≡ true) cs
    → value 10 cs < 4294967296
    → parse_int_loop 0 (reverse cs ++ rest) ≡ parse_int_loop (value 10 cs) rest
unfolding parse_int_loop
parse_int_loop-reverse [] rest h lt = refl
parse_int_loop-reverse (c ∷ cs) rest h lt =
    ap (λ l. parse_int_loop 0 (l ++ rest)) (reverse-cons c cs)
    ∙ ap (parse_int_loop 0) (append_assoc (reverse cs) (c ∷ []) rest)
    ∙ parse_int_loop-reverse cs (c ∷ rest) h.1 (omega arith)
    ∙ rw (h.0, parse_int_loop)
        (ap (λ (k : ℕ). parse_int_loop k rest) (next_value c (value 10 cs) h.0 lt))

-- A non-negative `int` printed in decimal reads back as itself, up to the first character that is
-- no digit.
pub parse_int-reversed_digits :
    (upper : Bool) (n c : ℕ) (rest : List ℕ)
    → n < 2147483648
    → is_digit c ≡ false
    → parse_int (reverse (reversed_digits upper n 10) ++ c ∷ rest) ≡ (pos n, c ∷ rest)
unfolding parse_int parse_int_loop
parse_int-reversed_digits upper n c rest h e =
    ap (λ (p : ℕ × List ℕ). (signed32 p.0, p.1)) loop ∙ ap (λ (k : ℤ). (k, c ∷ rest)) (ground arith)
  where
    same : value 10 (reversed_digits upper n 10) ≡ n
    same = value-reversed_digits upper n 10 (omega arith) (omega arith) (omega arith)

    stop : (k : ℕ) → parse_int_loop k (c ∷ rest) ≡ (k, c ∷ rest)
    stop k = rw (e, parse_int_loop)

    loop : parse_int_loop 0 (reverse (reversed_digits upper n 10) ++ c ∷ rest) ≡ (n, c ∷ rest)
    loop =
        parse_int_loop-reverse (reversed_digits upper n 10) (c ∷ rest) (All-reversed_digits upper n)
          (omega (arith, same))
        ∙ ap (λ (k : ℕ). parse_int_loop k (c ∷ rest)) same
        ∙ stop n

length-parse_int_loop : (r : ℕ) (cs : List ℕ) → length (parse_int_loop r cs).1 ≤ length cs
unfolding parse_int_loop
length-parse_int_loop r [] = omega arith
length-parse_int_loop r (c ∷ cs) = elim (Bool-cases (is_digit c)) [
  | inl e ↦
      rw (e, parse_int_loop) (omega (arith, length-parse_int_loop (u32 (r * 10 + (c - b'0'))) cs))
  | inr e ↦ rw (e, parse_int_loop) (omega arith)
]

pub length-parse_int : (cs : List ℕ) → length (parse_int cs).1 ≤ length cs
unfolding parse_int
length-parse_int cs = length-parse_int_loop 0 cs
