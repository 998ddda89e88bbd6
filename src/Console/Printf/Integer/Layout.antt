-- ===== src/Console/Printf/Integer/Layout.antt =====
-- What `bound_string_format_integer` prints, as C's `printf` describes a numeric field: sign and
-- prefix, at least `prescision` digits, and blanks or zeros up to the width.
use ose.Prelude.{ℕ, ◌+◌, ◌-◌, ◌≡◌, refl, arith, u32, leb, ◌==◌, ◌&&◌, ◌||◌, not, ◌∙◌}
use ose.Prelude.{
  if◌then◌else◌, Bool, true, false, List, [], ◌∷◌, ◌++◌, length, replicate, length-append,
  length-replicate,
}
use ose.Prelude.Int.{ℤ, pos, negsuc, pos_part, ltb_ℤ, ◌-ℤ◌}
use mathlib.Core.List.{reverse, append_assoc, append-nil}
use ose.Prelude.{ap}
use ose.Console.Printf.{Sink, Flags}
use ose.Console.Printf.Emit.{emit, emit-append, pad-emit}
use ose.Console.Printf.Integer.{
  Signed, bound_string_format_integer, reversed_digits, process_sign, put_field,
}
use ose.Console.Printf.Integer.Pieces.{
  put_reversed-emit, length-reverse, after, pad_width-emit, put_if-emit, pad_if-emit,
}

-- The magnitude that is printed, and the sign before it.
abbrev pub magnitude : Flags → ℕ → ℕ
magnitude flags number =
    if flags.signed && leb 2147483648 number then u32 (4294967296 - number) else number

abbrev pub sign_text : Flags → ℕ → List ℕ
sign_text flags number =
    if flags.signed
    then (if leb 2147483648 number
        then b'-' ∷ []
        else if flags.plus
        then b'+' ∷ []
        else if flags.space
        then b' ' ∷ []
        else [])
    else []

abbrev pub prefix_text : Flags → ℕ → List ℕ
prefix_text flags base =
    if flags.alt && not (base == 10)
    then (if base == 16 then b'0' ∷ (if flags.upper then b'X' else b'x') ∷ [] else b'0' ∷ [])
    else []

-- The digits, highest first, with leading zeros up to the precision.
abbrev pub digits_text : Flags → (number base : ℕ) → ℤ → List ℕ
digits_text flags number base prescision =
    let ds = reversed_digits flags.upper (magnitude flags number) base in
    replicate (pos_part prescision - length ds) b'0' ++ reverse ds

abbrev placed : (left zeros : Bool) → (gap : ℕ) → (head digits : List ℕ) → List ℕ
placed left zeros gap head digits =
    if left
    then head ++ digits ++ replicate gap b' '
    else if zeros
    then head ++ replicate gap b'0' ++ digits
    else replicate gap b' ' ++ head ++ digits

-- A field of a head and digits: padded on the right, by zeros between the two, or on the left.
abbrev pub field : (left zeros : Bool) → ℤ → (head digits : List ℕ) → List ℕ
field left zeros width head digits =
    placed left zeros (pos_part width - (length head + length digits)) head digits

abbrev pub integer_text : (number base : ℕ) → (width prescision : ℤ) → Flags → List ℕ
integer_text number base width prescision flags =
    field flags.left (flags.zero_pad && ltb_ℤ prescision (pos 0)) width
      (sign_text flags number ++ prefix_text flags base) (digits_text flags number base prescision)

abbrev sign_list : ℕ → List ℕ
sign_list sign = if not (sign == 0) then sign ∷ [] else []

abbrev prefix_list : (prefix_needed hex upper : Bool) → List ℕ
prefix_list prefix_needed hex upper =
    (if prefix_needed then b'0' ∷ [] else [])
    ++ (if prefix_needed && hex then (if upper then b'X' else b'x') ∷ [] else [])

-- The parts in the order of the code, and as a field.
field_parts :
    (left z : Bool) (w : ℤ) (sign p x zeros digits : List ℕ)
    → (if not (z || left) then replicate (pos_part w) b' ' else [])
        ++ sign
        ++ p
        ++ x
        ++ (if not left
            then replicate
                (pos_part (if not (z || left) then after w else w))
                (if z then b'0' else b' ')
            else [])
        ++ zeros
        ++ digits
        ++ replicate
            (pos_part (
              if not left
              then after (if not (z || left) then after w else w)
              else if not (z || left)
              then after w
              else w))
            b' '
      ≡ placed left z (pos_part w) (sign ++ (p ++ x)) (zeros ++ digits)
field_parts true true (pos n) s p x zs ds = simp (append_assoc, append-nil)
field_parts true true (negsuc n) s p x zs ds = simp (append_assoc, append-nil)
field_parts true false (pos n) s p x zs ds = simp (append_assoc, append-nil)
field_parts true false (negsuc n) s p x zs ds = simp (append_assoc, append-nil)
field_parts false true (pos n) s p x zs ds = simp (append_assoc, append-nil)
field_parts false true (negsuc n) s p x zs ds = simp (append_assoc, append-nil)
field_parts false false (pos n) s p x zs ds = simp (append_assoc, append-nil)
field_parts false false (negsuc n) s p x zs ds = simp (append_assoc, append-nil)

-- `put_field` for the width that is left once all but the padding is counted.
put_field-emit :
    (end : ℕ) (flags : Flags) (z : Bool) (sign : ℕ) (pn hex : Bool) (w : ℤ) (zeros : ℕ)
    (buffer : List ℕ) (o : Sink)
    → put_field end flags z sign pn hex w zeros buffer o
      ≡ emit end
          (placed flags.left z
            (pos_part w)
            (sign_list sign ++ prefix_list pn hex flags.upper)
            (replicate zeros b'0' ++ reverse buffer))
          o
unfolding put_field
put_field-emit end flags z sign pn hex w zeros buffer o =
    simp
      (
        put_field, pad_if-emit, put_if-emit, pad-emit, put_reversed-emit, pad_width-emit,
        emit-append,
      )
      (ap (λ l. emit end l o)
        (field_parts flags.left z w (sign_list sign) (if pn then b'0' ∷ [] else [])
          (if pn && hex then (if flags.upper then b'X' else b'x') ∷ [] else [])
          (replicate zeros b'0') (reverse buffer)))

number_lem : (flags : Flags) (n : ℕ) (w : ℤ) → (process_sign flags n w).number ≡ magnitude flags n
unfolding process_sign
number_lem flags n w = ground arith

sign_lem :
    (flags : Flags) (n : ℕ) (w : ℤ) → sign_list (process_sign flags n w).sign ≡ sign_text flags n
unfolding process_sign
sign_lem flags n w = ground arith

prefix_lem :
    (flags : Flags) (base : ℕ)
    → prefix_list (flags.alt && not (base == 10)) (base == 16) flags.upper ≡ prefix_text flags base
prefix_lem flags base = ground arith

zeros_lem :
    (p : ℤ) (n : ℕ) → pos_part ((if ltb_ℤ p (pos n) then pos n else p) -ℤ pos n) ≡ pos_part p - n
unfolding ◌-ℤ◌
zeros_lem (pos k) n = ground arith
zeros_lem (negsuc k) n = ground arith

width_lem :
    (flags : Flags) (n : ℕ) (w : ℤ)
    → pos_part (process_sign flags n w).width ≡ pos_part w - length (sign_text flags n)
unfolding process_sign ◌-ℤ◌
width_lem flags n (pos w) = ground arith
width_lem flags n (negsuc w) = ground arith

prescision_lem : (p : ℤ) (n : ℕ) → (if ltb_ℤ p (pos n) then pos n else p) ≡ pos (pos_part p - n + n)
prescision_lem (pos k) n = ground arith
prescision_lem (negsuc k) n = ground arith

pub minus_lem : (w : ℤ) (a : ℕ) → pos_part (w -ℤ pos a) ≡ pos_part w - a
unfolding ◌-ℤ◌
minus_lem (pos w) a = ground arith
minus_lem (negsuc w) a = ground arith

gap_lem :
    (flags : Flags) (base : ℕ) (w : ℤ) (m : ℕ)
    → pos_part (
        if flags.alt && not (base == 10)
        then (if base == 16 then w -ℤ pos m -ℤ pos 1 -ℤ pos 1 else w -ℤ pos m -ℤ pos 1)
        else w -ℤ pos m)
      ≡ pos_part w - (m + length (prefix_text flags base))
gap_lem flags base w m =
    ground (arith, minus_lem w m, minus_lem (w -ℤ pos m) 1, minus_lem (w -ℤ pos m -ℤ pos 1) 1)

length-digits : (ds : List ℕ) (k : ℕ) → length (replicate k b'0' ++ reverse ds) ≡ k + length ds
length-digits ds k = omega (
  arith,
  length-append {0} (replicate k b'0') (reverse ds),
  length-replicate {0} {A = ℕ} k b'0',
  length-reverse ds,
)

module _ (number base : ℕ) (width prescision : ℤ) (flags : Flags) where
  abbrev s : Signed
  s = process_sign flags number width

  abbrev buffer : List ℕ
  buffer = reversed_digits flags.upper s.number base

  zero_lem :
      (if ltb_ℤ prescision (pos 0) then flags.zero_pad else false)
      ≡ (flags.zero_pad && ltb_ℤ prescision (pos 0))
  zero_lem = ground arith

  digits_lem :
      replicate (pos_part prescision - length buffer) b'0' ++ reverse buffer
      ≡ digits_text flags number base prescision
  digits_lem =
      ap
        (λ (m : ℕ).
          let ds = reversed_digits flags.upper m base in
          replicate (pos_part prescision - length ds) b'0' ++ reverse ds)
        (number_lem flags number width)

  head_lem :
      sign_list s.sign ++ prefix_list (flags.alt && not (base == 10)) (base == 16) flags.upper
      ≡ sign_text flags number ++ prefix_text flags base
  head_lem i = sign_lem flags number width i ++ prefix_lem flags base i

  left_lem :
      (m : ℕ)
      → m ≡ pos_part prescision - length buffer + length buffer
      → pos_part s.width - (m + length (prefix_text flags base))
        ≡ pos_part width
          - (length (sign_text flags number ++ prefix_text flags base)
              + length (digits_text flags number base prescision))
  left_lem m e = omega (
    arith,
    width_lem flags number width,
    length-append {0} (sign_text flags number) (prefix_text flags base),
    ap (λ (l : List ℕ). length l) digits_lem,
    length-digits buffer (pos_part prescision - length buffer),
  )

-- `bound_string_format_integer` puts exactly the field of the number: every character of it in
-- order, at the width, precision and flags given.
pub bound_string_format_integer-emit :
    (end number base : ℕ) (width prescision : ℤ) (flags : Flags) (o : Sink)
    → bound_string_format_integer end number base width prescision flags o
      ≡ emit end (integer_text number base width prescision flags) o
unfolding bound_string_format_integer
bound_string_format_integer-emit end number base width prescision flags o =
    let sg = process_sign flags number width in
    let ds = reversed_digits flags.upper sg.number base in
    let n = length ds in
    let gap =
      ap
        (λ (q : ℤ). pos_part (
          if flags.alt && not (base == 10)
          then (if base == 16 then sg.width -ℤ q -ℤ pos 1 -ℤ pos 1 else sg.width -ℤ q -ℤ pos 1)
          else sg.width -ℤ q))
        (prescision_lem prescision n)
      ∙ gap_lem flags base sg.width (pos_part prescision - n + n)
      ∙ left_lem number base width prescision flags (pos_part prescision - n + n) refl in
    let ez = zero_lem number base width prescision flags in
    let eh = head_lem number base width prescision flags in
    let ed =
      ap (λ (k : ℕ). replicate k b'0' ++ reverse ds) (zeros_lem prescision n)
      ∙ digits_lem number base width prescision flags in
    put_field-emit end flags _ sg.sign (flags.alt && not (base == 10)) (base == 16) _ _ ds o ∙ λ i.
    emit end (placed flags.left (ez i) (gap i) (eh i) (ed i)) o
