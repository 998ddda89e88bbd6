-- ===== src/Console/Printf/Examples.antt =====
-- The theorems on `vsnprintf` and its number formatting at concrete formats, and what they print.
use ose.Prelude.{ℕ, ◌≡◌, refl, arith, List, [], ◌∷◌, ◌++◌, some, true, false}
use ose.Prelude.{Mem, ◌==◌, if◌then◌else◌}
use ose.Prelude.Int.{pos, negsuc, ◌-ℤ◌}
use mathlib.Core.List.{reverse}
use ose.Console.Printf.{parse_int, parse_int_loop}
use ose.Console.Printf.Emit.{emit}
use ose.Console.Printf.Number.{parse_int-reversed_digits}
use ose.Console.Printf.Integer.{bound_string_format_integer, reversed_digits}
use ose.Console.Printf.Integer.Layout.{bound_string_format_integer-emit}
use ose.Console.Printf.Directive.{
  no_flags, parse_directive, read_flags, read_width, read_prescision, read_qualifier, parse_flags,
  add_flag, integer_conversion, read_number,
}
use ose.Console.Printf.Directive.Text.{directive_text}
use ose.Console.Printf.Vsnprintf.{vsnprintf, vsprintf, vsnprintf_loop, finish}
use ose.Console.Printf.Vsnprintf.Output.{output, vsnprintf_loop-overrun}
use ose.Console.Printf.Vsnprintf.Contract.{
  full_output, stored, vsnprintf-total, vsnprintf_lem, vsprintf_lem,
}

no_text : ℕ → List ℕ
no_text p = []

abbrev blank : Mem
blank x = 0

-- "%5d|" at -42.
abbrev format : List ℕ
format = b'%' ∷ b'5' ∷ b'd' ∷ b'|' ∷ []

abbrev args : List ℕ
args = 0xffffffd6 ∷ []

abbrev printed : List ℕ
printed = b' ' ∷ b' ' ∷ b'-' ∷ b'4' ∷ b'2' ∷ b'|' ∷ []

format_output : full_output no_text format args ≡ some printed
unfolding output directive_text parse_directive read_flags read_width read_prescision read_qualifier
    parse_flags add_flag parse_int parse_int_loop integer_conversion read_number reversed_digits
    ◌-ℤ◌
format_output = refl

vsnprintf_lem_example :
    (r : Mem × ℕ) × (vsnprintf no_text blank 100 4 format args ≡ some r)
    × (r.1 ≡ 6)
    × ((x : ℕ) → r.0 x ≡ stored blank 100 4 printed x)
vsnprintf_lem_example =
    vsnprintf_lem no_text blank 100 4 format args {cs = printed} format_output (omega arith)
      (omega arith)

-- The buffer of four bytes gets three characters and the terminator.
stored_lem :
    (stored blank 100 4 printed 102 ≡ b'-')
    × (stored blank 100 4 printed 103 ≡ 0)
    × (stored blank 100 4 printed 104 ≡ 0)
stored_lem = (refl, refl, refl)

vsnprintf-total_example :
    (cs : List ℕ) × (full_output no_text format args ≡ some cs)
    × (vsnprintf no_text blank 100 4 format args
        ≡ some (finish 100 4 104 (emit 104 cs (record { mem = blank; string = 100 }))))
vsnprintf-total_example = vsnprintf-total no_text blank 100 4 format args

vsprintf_lem_example :
    (r : Mem × ℕ) × (vsprintf no_text blank 100 format args ≡ some r)
    × (r.1 ≡ 6)
    × ((x : ℕ) → r.0 x ≡ (if x == 98 then 0 else 0))
vsprintf_lem_example =
    vsprintf_lem no_text blank 100 format args {cs = printed} format_output (omega arith)
      (omega arith)

-- "100%" prints what lies behind its terminator.
vsnprintf_loop-overrun_example :
    vsnprintf_loop 6 200 no_text
      (b'1' ∷ b'0' ∷ b'0' ∷ b'%' ∷ 0 ∷ b'!' ∷ [])
      []
      (record { mem = blank; string = 100 })
    ≡ vsnprintf_loop 2 200 no_text
        (b'!' ∷ [])
        []
        (emit 200 (b'1' ∷ b'0' ∷ b'0' ∷ []) (record { mem = blank; string = 100 }))
vsnprintf_loop-overrun_example =
    vsnprintf_loop-overrun 2 200 no_text (b'1' ∷ b'0' ∷ b'0' ∷ []) (b'!' ∷ []) []
      (record { mem = blank; string = 100 }) ((refl, refl), ((refl, refl), ((refl, refl), tt)))

bound_string_format_integer-emit_example :
    bound_string_format_integer 200 255 16
      (pos 6)
      (negsuc 0)
      (record no_flags { alt = true })
      (record { mem = blank; string = 100 })
    ≡ emit 200 (b' ' ∷ b' ' ∷ b'0' ∷ b'x' ∷ b'f' ∷ b'f' ∷ []) (record { mem = blank; string = 100 })
unfolding reversed_digits
bound_string_format_integer-emit_example =
    bound_string_format_integer-emit 200 255 16 (pos 6) (negsuc 0) (record no_flags { alt = true })
      (record { mem = blank; string = 100 })

parse_int-reversed_digits_example :
    parse_int (reverse (reversed_digits false 180 10) ++ b'x' ∷ []) ≡ (pos 180, b'x' ∷ [])
parse_int-reversed_digits_example = parse_int-reversed_digits false 180 b'x' [] (omega arith) refl
