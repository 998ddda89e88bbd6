-- ===== src/Console/Printf/Integer.antt =====
-- `bound_string_format_integer` of src/console.c.
pub mod Pieces
pub mod Layout
pub mod Digits
use ose.Prelude.{ℕ, zero, suc, ◌+◌, ◌-◌, ◌*◌, ◌/◌, ◌%◌, u32, ltb, leb, ◌==◌, ◌&&◌, ◌||◌, not}
use ose.Prelude.{if◌then◌else◌, Bool, true, false, List, [], ◌∷◌, length, get_or}
use ose.Prelude.Int.{ℤ, pos, negsuc, pos_part, ◌-ℤ◌, ltb_ℤ}
use ose.Console.Printf.{Sink, Flags, bound_string_putchar, pad, pad_width}

-- The tables `upper_digits` and `lower_digits`.
abbrev pub digit_char : Bool → ℕ → ℕ
digit_char upper d =
    if ltb d 10 then b'0' + d else if upper then b'A' + (d - 10) else b'a' + (d - 10)

-- `reversed_buffer` after the loop, lowest digit first. A 32-bit number has at most 32 digits in
-- any base from 2 on.
unfoldable pub digit_loop : ℕ → Bool → (number base : ℕ) → List ℕ
digit_loop zero upper number base = []
digit_loop (suc fuel) upper number base = elim (number == 0) [
  | true ↦ []
  | false ↦ digit_char upper (number % base) ∷ digit_loop fuel upper (number / base) base
]

unfoldable pub reversed_digits : Bool → (number base : ℕ) → List ℕ
unfolding digit_loop
reversed_digits upper number base =
    if number == 0 then b'0' ∷ [] else digit_loop 32 upper number base

-- The sign processing: the magnitude, the sign character (0 for none) and the width left.
pub record Signed : Type 0 where
  pub number : ℕ
  pub sign : ℕ
  pub width : ℤ

unfoldable pub process_sign : Flags → ℕ → ℤ → Signed
process_sign flags number width =
    if flags.signed
    then (if leb 2147483648 number
        then record { number = u32 (4294967296 - number); sign = b'-'; width = width -ℤ pos 1 }
        else if flags.plus
        then record { number = number; sign = b'+'; width = width -ℤ pos 1 }
        else if flags.space
        then record { number = number; sign = b' '; width = width -ℤ pos 1 }
        else record { number = number; sign = 0; width = width })
    else record { number = number; sign = 0; width = width }

-- `while (num_length-- > 0)` over the buffer.
unfoldable pub put_reversed : (end num_length : ℕ) → List ℕ → Sink → Sink
put_reversed end zero buffer o = o
put_reversed end (suc n) buffer o =
    put_reversed end n buffer (bound_string_putchar end (get_or buffer n 0) o)

unfoldable pub put_if : Bool → (end c : ℕ) → Sink → Sink
put_if b end c o = if b then bound_string_putchar end c o else o

unfoldable pub pad_if : Bool → (end c : ℕ) → ℤ → Sink → Sink × ℤ
pad_if b end c width o = if b then pad_width end c width o else (o, width)

-- The output part, from the space padding on; `zeros` is the number of precision zeros.
unfoldable pub put_field :
    (end : ℕ)
    → Flags
    → (zero_pad : Bool) → (sign : ℕ) → (prefix_needed hex : Bool) → (width : ℤ) → (zeros : ℕ)
    → (buffer : List ℕ) → Sink
    → Sink
put_field end flags zero_pad sign prefix_needed hex width zeros buffer o =
    let padding : ℕ = if zero_pad then b'0' else b' ' in
    let (o1, width1) = pad_if (not (zero_pad || flags.left)) end b' ' width o in
    let o2 = put_if (not (sign == 0)) end sign o1 in
    let o3 = put_if prefix_needed end b'0' o2 in
    let o4 = put_if (prefix_needed && hex) end (if flags.upper then b'X' else b'x') o3 in
    let (o5, width2) = pad_if (not flags.left) end padding width1 o4 in
    let o6 = pad end b'0' zeros o5 in
    let o7 = put_reversed end (length buffer) buffer o6 in (pad_width end b' ' width2 o7).0

unfoldable pub bound_string_format_integer :
    (end number base : ℕ) (width prescision : ℤ) → Flags → Sink → Sink
bound_string_format_integer end number base width prescision flags o =
    let zero_pad = if ltb_ℤ prescision (pos 0) then flags.zero_pad else false in
    let s = process_sign flags number width in
    let buffer = reversed_digits flags.upper s.number base in
    let num_length = length buffer in
    let prescision1 = if ltb_ℤ prescision (pos num_length) then pos num_length else prescision in
    let width1 = s.width -ℤ prescision1 in
    let prefix_needed = flags.alt && not (base == 10) in
    let width2 =
      if prefix_needed
      then (if base == 16 then width1 -ℤ pos 1 -ℤ pos 1 else width1 -ℤ pos 1)
      else width1 in
    let zeros = pos_part (prescision1 -ℤ pos num_length) in
    put_field end flags zero_pad s.sign prefix_needed (base == 16) width2 zeros buffer o
