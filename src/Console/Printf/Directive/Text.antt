-- ===== src/Console/Printf/Directive/Text.antt =====
-- The text of a directive, without a buffer: what `convert` puts, it puts through `emit`.
use ose.Prelude.{ℕ, zero, suc, ◌-◌, ◌≡◌, refl, arith, ap, sym, ◌∙◌, u8, u32, ◌==◌, ◌&&◌, not}
use ose.Prelude.{if◌then◌else◌, Bool, true, false, List, [], ◌∷◌, ◌++◌, Option, none, some}
use ose.Prelude.{replicate}
use ose.Prelude.Int.{ℤ, pos, negsuc, pos_part, ◌-ℤ◌, ltb_ℤ}
use ose.Console.Printf.{Sink, Flags, bound_string_length, peek, next, pad_width, pad_predecrement}
use ose.Console.Printf.Emit.{
  emit, emit-append, pad-emit, prefix, put_string-emit, emit-nil, emit-one,
}
use ose.Console.Printf.Integer.Layout.{integer_text, bound_string_format_integer-emit, minus_lem}
use ose.Console.Printf.Integer.Pieces.{after, pad_width-emit}
use ose.Console.Printf.Integer.{bound_string_format_integer}
use ose.Console.Printf.Directive.{
  Directive, parse_directive, read_flags, read_width, read_prescision, read_qualifier, parse_flags,
  add_flag, convert, integer_conversion, read_number, size_of_int, put_char_conversion,
  put_string_conversion, put_pointer_conversion,
}

-- A text in a field of blanks, on its left or its right side.
abbrev pub justified : Bool → ℕ → List ℕ → List ℕ
justified left gap cs = if left then cs ++ replicate gap b' ' else replicate gap b' ' ++ cs

abbrev pub char_text : Directive → List ℕ
char_text d = justified d.flags.left (pos_part d.width - 1) (u8 (peek d.args) ∷ [])

abbrev pub string_text : (ℕ → List ℕ) → Directive → List ℕ
string_text text_at d =
    let str = text_at (u32 (peek d.args)) in
    let length = bound_string_length str (size_of_int d.prescision) in
    justified d.flags.left (pos_part d.width - length) (prefix length str)

abbrev pub pointer_text : Directive → List ℕ
pointer_text d =
    let unset = ltb_ℤ d.width (pos 0) && not (ltb_ℤ d.width (negsuc 0)) in
    integer_text (u32 (peek d.args)) 16 (if unset then pos 8 else d.width) d.prescision
      (if unset then record (d.flags) { zero_pad = true } else d.flags)

abbrev pub number_text : Directive → Option (ℕ × Flags) → List ℕ × List ℕ
number_text d none = ([], d.args)
number_text d (some (base, flags)) =
    let number = read_number d.qualifier flags.signed (peek d.args) in
    (integer_text number base d.width d.prescision flags, next d.args)

unfoldable pub directive_text : (ℕ → List ℕ) → Directive → List ℕ × List ℕ
directive_text text_at d =
    let c = peek d.format in
    if c == b'%'
    then (b'%' ∷ [], d.args)
    else if c == b'c'
    then (char_text d, next d.args)
    else if c == b's'
    then (string_text text_at d, next d.args)
    else if c == b'p'
    then (pointer_text d, next d.args)
    else number_text d (integer_conversion c d.flags)

pad_predecrement-emit :
    (end c : ℕ) (w : ℤ) (o : Sink)
    → pad_predecrement end c w o
      ≡ (emit end (replicate (pos_part w - 1) c) o, (pad_predecrement end c w o).1)
unfolding pad_predecrement
pad_predecrement-emit end c (pos zero) o = unfold emit in refl
pad_predecrement-emit end c (pos (suc n)) o =
    ap (λ (s : Sink). (s, pos 0))
      (pad-emit end c n o ∙ ap (λ (k : ℕ). emit end (replicate k c) o) (omega arith))
pad_predecrement-emit end c (negsuc n) o = unfold emit in refl

-- A text between two paddings of blanks, of which the first one that runs uses up the width.
justify :
    (end : ℕ) (p : ℤ → Sink → Sink × ℤ) (k : ℤ → ℕ)
    → ((w : ℤ) (o : Sink) → (p w o).0 ≡ emit end (replicate (k w) b' ') o)
    → ((w : ℤ) (o : Sink) → k (p w o).1 ≡ 0)
    → (left : Bool) (w : ℤ) (cs : List ℕ) (o : Sink)
    → (let r : Sink × ℤ = if left then (o, w) else p w o in (p r.1 (emit end cs r.0)).0)
      ≡ emit end (justified left (k w) cs) o
justify end p k same spent true w cs o =
    same w (emit end cs o) ∙ emit-append end cs (replicate (k w) b' ') o
justify end p k same spent false w cs o =
    same (p w o).1 (emit end cs (p w o).0)
    ∙ ap (λ (j : ℕ). emit end (replicate j b' ') (emit end cs (p w o).0)) (spent w o)
    ∙ emit-nil end (emit end cs (p w o).0)
    ∙ ap (emit end cs) (same w o)
    ∙ emit-append end (replicate (k w) b' ') cs o

predecrement_spent :
    (end c : ℕ) (w : ℤ) (o : Sink) → pos_part (pad_predecrement end c w o).1 - 1 ≡ 0
unfolding pad_predecrement
predecrement_spent end c (pos zero) o = refl
predecrement_spent end c (pos (suc n)) o = refl
predecrement_spent end c (negsuc n) o = refl

after_spent : (w : ℤ) → pos_part (after w) ≡ 0
after_spent (pos n) = refl
after_spent (negsuc n) = refl

put_char_conversion-emit :
    (end : ℕ) (d : Directive) (o : Sink) → put_char_conversion end d o ≡ emit end (char_text d) o
unfolding put_char_conversion emit
put_char_conversion-emit end d o =
    justify end (pad_predecrement end b' ') (λ w. pos_part w - 1)
      (λ w s. ap (λ (r : Sink × ℤ). r.0) (pad_predecrement-emit end b' ' w s))
      (predecrement_spent end b' ') d.flags.left d.width (u8 (peek d.args) ∷ []) o

put_string_conversion-emit :
    (end : ℕ) (text_at : ℕ → List ℕ) (d : Directive) (o : Sink)
    → put_string_conversion end text_at d o ≡ emit end (string_text text_at d) o
unfolding put_string_conversion
put_string_conversion-emit end text_at d o =
    let str = text_at (u32 (peek d.args)) in
    let length = bound_string_length str (size_of_int d.prescision) in
    let over = d.width -ℤ pos length in
    let r : Sink × ℤ = if d.flags.left then (o, over) else pad_width end b' ' over o in
    ap (λ (s : Sink). (pad_width end b' ' r.1 s).0) (put_string-emit end length str r.0)
    ∙ justify end (pad_width end b' ') pos_part
        (λ w s. ap (λ (q : Sink × ℤ). q.0) (pad_width-emit end b' ' w s))
        (λ w s. ap (λ (q : Sink × ℤ). pos_part q.1) (pad_width-emit end b' ' w s) ∙ after_spent w)
        d.flags.left over (prefix length str) o
    ∙ ap (λ (k : ℕ). emit end (justified d.flags.left k (prefix length str)) o)
        (minus_lem d.width length)

put_pointer_conversion-emit :
    (end : ℕ) (d : Directive) (o : Sink)
    → put_pointer_conversion end d o ≡ emit end (pointer_text d) o
unfolding put_pointer_conversion
put_pointer_conversion-emit end d o = bound_string_format_integer-emit end _ 16 _ d.prescision _ o

number-emit :
    (end : ℕ) (d : Directive) (o : Sink) (r : Option (ℕ × Flags))
    → (elim r as (λ x. Sink × List ℕ) [
      | some (base, flags) ↦ (
        bound_string_format_integer end
            (read_number d.qualifier flags.signed (peek d.args))
            base
            d.width
            d.prescision
            flags
            o,
        next d.args,
      )
      | none ↦ (o, d.args)
    ])
      ≡ (let t : List ℕ × List ℕ = number_text d r in (emit end t.0 o, t.1))
number-emit end d o none = ap (λ (s : Sink). (s, d.args)) (sym (emit-nil end o))
number-emit end d o (some (base, flags)) =
    ap (λ (s : Sink). (s, next d.args)) (bound_string_format_integer-emit end _ base _ _ flags o)

-- `convert` puts the directive's text, and takes the arguments that the text takes.
pub convert-emit :
    (end : ℕ) (text_at : ℕ → List ℕ) (d : Directive) (o : Sink)
    → convert end text_at d o
      ≡ (emit end (directive_text text_at d).0 o, (directive_text text_at d).1)
unfolding convert directive_text
convert-emit end text_at d o = ground (
  arith,
  emit-one end b'%' o,
  put_char_conversion-emit end d o,
  put_string_conversion-emit end text_at d o,
  put_pointer_conversion-emit end d o,
  number-emit end d o (integer_conversion (peek d.format) d.flags),
)

-- At the terminator a directive is empty, and leaves the format and the arguments.
pub parse_directive-nul : (rest args : List ℕ) → (parse_directive (0 ∷ rest) args).format ≡ 0 ∷ rest
unfolding parse_directive read_flags read_width read_prescision read_qualifier parse_flags add_flag
parse_directive-nul rest args = refl

pub directive_text-nul :
    (text_at : ℕ → List ℕ) (rest args : List ℕ)
    → directive_text text_at (parse_directive (0 ∷ rest) args) ≡ ([], args)
unfolding directive_text parse_directive read_flags read_width read_prescision read_qualifier
    parse_flags add_flag integer_conversion
directive_text-nul text_at rest args = refl
