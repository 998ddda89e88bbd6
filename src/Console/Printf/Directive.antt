-- ===== src/Console/Printf/Directive.antt =====
-- One `%` directive of `vsnprintf` in src/console.c: how it is read, and what it prints.
-- The argument list holds the 32-bit words on the stack, one for each `va_arg`; words behind the
-- list are zero. `text_at` gives the text that a `char*` points at.
pub mod Text
pub mod Length
use ose.Prelude.{ℕ, zero, suc, ◌+◌, ◌-◌, u8, u16, u32, ltb, ◌==◌, ◌&&◌, ◌||◌, not}
use ose.Prelude.{if◌then◌else◌, Bool, true, false, List, [], ◌∷◌, Option, none, some}
use ose.Prelude.Int.{ℤ, pos, negsuc, pos_part, ◌-ℤ◌, ltb_ℤ, signed32}
use ose.Console.Printf.{
  Sink, Flags, bound_string_putchar, bound_string_length, peek, next, is_digit, parse_int, pad,
  pad_width, pad_predecrement, put_string,
}
use ose.Console.Printf.Integer.{bound_string_format_integer}

-- What has been read of a directive; `format` and `args` are what is left. The qualifier is 0 where
-- the source has -1.
pub record Directive : Type 0 where
  pub flags : Flags
  pub width : ℤ
  pub prescision : ℤ
  pub qualifier : ℕ
  pub format : List ℕ
  pub args : List ℕ

abbrev pub no_flags : Flags
no_flags = record {
  left = false;
  plus = false;
  space = false;
  alt = false;
  zero_pad = false;
  upper = false;
  signed = false;
}

unfoldable pub add_flag : ℕ → Flags → Option Flags
add_flag c f =
    if c == b'#'
    then some (record f { alt = true })
    else if c == b'0'
    then some (record f { zero_pad = true })
    else if c == b'+'
    then some (record f { plus = true })
    else if c == b' '
    then some (record f { space = true })
    else if c == b'-'
    then some (record f { left = true })
    else none

unfoldable pub parse_flags : Flags → List ℕ → Flags × List ℕ
parse_flags f [] = (f, [])
parse_flags f (c ∷ cs) = elim (add_flag c f) [ some g ↦ parse_flags g cs | none ↦ (f, c ∷ cs) ]

unfoldable pub read_flags : Directive → Directive
read_flags d =
    let (f, rest) = parse_flags d.flags d.format in
    record d {
      flags = record f { space = f.space && not f.plus; zero_pad = f.zero_pad && not f.left };
      format = rest;
    }

unfoldable pub read_width : Directive → Directive
read_width d =
    let w = signed32 (u32 (peek d.args)) in
    let (n, rest) = parse_int d.format in
    if peek d.format == b'*'
    then (if ltb_ℤ w (pos 0)
        then record d {
          flags = record (d.flags) { left = true };
          width = pos 0 -ℤ w;
          format = next d.format;
          args = next d.args;
        }
        else record d { width = w; format = next d.format; args = next d.args })
    else if is_digit (peek d.format)
    then record d { width = n; format = rest }
    else d

-- A precision below zero, as after a dot alone, is 0.
abbrev pub at_least_zero : ℤ → ℤ
at_least_zero p = if ltb_ℤ p (pos 0) then pos 0 else p

unfoldable pub read_prescision : Directive → Directive
read_prescision d =
    let f = next d.format in
    let (n, rest) = parse_int f in
    if peek d.format == b'.'
    then (if is_digit (peek f)
        then record d { prescision = at_least_zero n; format = rest }
        else if peek f == b'*'
        then record d {
          prescision = at_least_zero (signed32 (u32 (peek d.args)));
          format = next f;
          args = next d.args;
        }
        else record d { prescision = pos 0; format = f })
    else d

unfoldable pub read_qualifier : Directive → Directive
read_qualifier d =
    let c = peek d.format in
    if (c == b'h') || (c == b'l') || (c == b'L')
    then record d { qualifier = c; format = next d.format }
    else d

-- From the character behind `%` to the conversion character.
unfoldable pub parse_directive : (format args : List ℕ) → Directive
parse_directive format args = read_qualifier (
    read_prescision (
      read_width (
        read_flags (record {
          flags = no_flags;
          width = negsuc 0;
          prescision = negsuc 0;
          qualifier = 0;
          format = format;
          args = args;
        }))))

-- `(uint32_t) (short)` of a word.
abbrev pub sign_extend16 : ℕ → ℕ
sign_extend16 w = if ltb (u16 w) 32768 then u16 w else u16 w + 0xffff0000

unfoldable pub read_number : (qualifier : ℕ) → (signed : Bool) → ℕ → ℕ
read_number qualifier signed w =
    if qualifier == b'h' then (if signed then sign_extend16 w else u16 w) else u32 w

-- The integer conversions: the base, and the flags that the conversion adds.
unfoldable pub integer_conversion : ℕ → Flags → Option (ℕ × Flags)
integer_conversion c f =
    if c == b'o'
    then some (8, f)
    else if (c == b'i') || (c == b'd')
    then some (10, record f { signed = true })
    else if c == b'u'
    then some (10, f)
    else if c == b'X'
    then some (16, record f { upper = true })
    else if c == b'x'
    then some (16, f)
    else none

unfoldable pub put_char_conversion : ℕ → Directive → Sink → Sink
put_char_conversion end d o =
    let (o1, width) = if d.flags.left then (o, d.width) else pad_predecrement end b' ' d.width o in
    let o2 = bound_string_putchar end (u8 (peek d.args)) o1 in
    (pad_predecrement end b' ' width o2).0

-- `count` of `bound_string_length` is a `size_t`, so the precision -1 is 2 ^ 32 - 1.
abbrev pub size_of_int : ℤ → ℕ
size_of_int (pos n) = u32 n
size_of_int (negsuc n) = 4294967295 - n

unfoldable pub put_string_conversion : ℕ → (ℕ → List ℕ) → Directive → Sink → Sink
put_string_conversion end text_at d o =
    let str = text_at (u32 (peek d.args)) in
    let length = bound_string_length str (size_of_int d.prescision) in
    let over = d.width -ℤ pos length in
    let (o1, over1) = if d.flags.left then (o, over) else pad_width end b' ' over o in
    let o2 = put_string end length str o1 in (pad_width end b' ' over1 o2).0

unfoldable pub put_pointer_conversion : ℕ → Directive → Sink → Sink
put_pointer_conversion end d o =
    let unset = ltb_ℤ d.width (pos 0) && not (ltb_ℤ d.width (negsuc 0)) in
    let width = if unset then pos 8 else d.width in
    let flags = if unset then record (d.flags) { zero_pad = true } else d.flags in
    bound_string_format_integer end (u32 (peek d.args)) 16 width d.prescision flags o

-- The `switch` on the conversion character, and the number printing behind it: the sink, and the
-- arguments left. Any other character prints nothing and takes no argument.
unfoldable pub convert : ℕ → (ℕ → List ℕ) → Directive → Sink → Sink × List ℕ
convert end text_at d o =
    let c = peek d.format in
    if c == b'%'
    then (bound_string_putchar end b'%' o, d.args)
    else if c == b'c'
    then (put_char_conversion end d o, next d.args)
    else if c == b's'
    then (put_string_conversion end text_at d o, next d.args)
    else if c == b'p'
    then (put_pointer_conversion end d o, next d.args)
    else elim (integer_conversion c d.flags) [
      | some (base, flags) ↦
          let number = read_number d.qualifier flags.signed (peek d.args) in
          (bound_string_format_integer end number base d.width d.prescision flags o, next d.args)
      | none ↦ (o, d.args)
    ]
