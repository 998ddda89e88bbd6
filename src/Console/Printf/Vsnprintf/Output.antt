-- ===== src/Console/Printf/Vsnprintf/Output.antt =====
-- The output of a format as a text, without a buffer, and that there always is one.
use ose.Prelude.{ℕ, zero, suc, ◌+◌, ◌<◌, ◌≡◌, refl, arith, ap, sym, ◌∙◌, ◌==◌}
use ose.Prelude.{true, false, List, [], ◌∷◌, ◌++◌, Option, none, some, length, Bool-cases, inl, inr}
use ose.Prelude.{All}
use ose.Console.Printf.{Sink, bound_string_putchar, peek, next}
use ose.Console.Printf.Emit.{emit, emit-append, emit-nil}
use ose.Console.Printf.Directive.{parse_directive, convert}
use ose.Console.Printf.Directive.Text.{
  directive_text, convert-emit, directive_text-nul, parse_directive-nul,
}
use ose.Console.Printf.Directive.Length.{length-parse_directive, length-next}
use ose.Console.Printf.Vsnprintf.{vsnprintf_loop}

abbrev pub prepend : List ℕ → Option (List ℕ) → Option (List ℕ)
prepend cs none = none
prepend cs (some ds) = some (cs ++ ds)

unfoldable pub output : ℕ → (ℕ → List ℕ) → (format args : List ℕ) → Option (List ℕ)
output zero text_at format args = none
output (suc fuel) text_at format args = elim (peek format == 0) [
  | true ↦ some []
  | false ↦ elim (peek format == b'%') [
    | true ↦
        let d = parse_directive (next format) args in
        let (cs, args') = directive_text text_at d in
        prepend cs (output fuel text_at (next d.format) args')
    | false ↦ prepend (peek format ∷ []) (output fuel text_at (next format) args)
  ]
]

abbrev pub emit_all : ℕ → Sink → Option (List ℕ) → Option Sink
emit_all end o none = none
emit_all end o (some cs) = some (emit end cs o)

emit_all-prepend :
    (end : ℕ) (cs : List ℕ) (t : Option (List ℕ)) (o : Sink)
    → emit_all end (emit end cs o) t ≡ emit_all end o (prepend cs t)
emit_all-prepend end cs none o = refl
emit_all-prepend end cs (some ds) o = ap some (emit-append end cs ds o)

-- The loop puts exactly the output.
pub vsnprintf_loop-emit :
    (fuel end : ℕ) (text_at : ℕ → List ℕ) (format args : List ℕ) (o : Sink)
    → vsnprintf_loop fuel end text_at format args o
      ≡ emit_all end o (output fuel text_at format args)
unfolding vsnprintf_loop output emit
vsnprintf_loop-emit zero end text_at format args o = refl
vsnprintf_loop-emit (suc fuel) end text_at format args o = elim (Bool-cases (peek format == 0)) [
  | inl e ↦ rw (e, vsnprintf_loop, output) (ap some (sym (emit-nil end o)))
  | inr e ↦ elim (Bool-cases (peek format == b'%')) [
    | inl p ↦
        rw (e, p, vsnprintf_loop, output)
          (let d = parse_directive (next format) args in
            let c = convert end text_at d o in
            vsnprintf_loop-emit fuel end text_at (next d.format) c.1 c.0
            ∙ ap (λ (r : Sink × List ℕ). emit_all end r.0 (output fuel text_at (next d.format) r.1))
                (convert-emit end text_at d o)
            ∙ emit_all-prepend end (directive_text text_at d).0 _ o)
    | inr p ↦
        rw (e, p, vsnprintf_loop, output)
          (vsnprintf_loop-emit fuel end text_at (next format) args
              (bound_string_putchar end (peek format) o)
            ∙ emit_all-prepend end (peek format ∷ []) (output fuel text_at (next format) args) o)
  ]
]

next_shorter : (f : List ℕ) → (peek f == 0) ≡ false → length (next f) < length f
next_shorter [] e = cc
next_shorter (c ∷ cs) e = omega arith

prepend-total :
    (cs : List ℕ) {t : Option (List ℕ)}
    → (ds : List ℕ) × (t ≡ some ds)
    → (ds : List ℕ) × (prepend cs t ≡ some ds)
prepend-total cs (ds, e) = (cs ++ ds, rw e)

prepend-prepend :
    (c : ℕ) (cs : List ℕ) (t : Option (List ℕ))
    → prepend (c ∷ []) (prepend cs t) ≡ prepend (c ∷ cs) t
prepend-prepend c cs none = refl
prepend-prepend c cs (some ds) = refl

-- With a round for each character of the format and one more, there is an output.
pub output-total :
    (fuel : ℕ) (text_at : ℕ → List ℕ) (format args : List ℕ)
    → length format < fuel
    → (cs : List ℕ) × (output fuel text_at format args ≡ some cs)
unfolding output
output-total zero text_at format args h = elim h [ ]
output-total (suc fuel) text_at format args h = elim (Bool-cases (peek format == 0)) [
  | inl e ↦ rw (e, output) ([], refl)
  | inr e ↦ elim (Bool-cases (peek format == b'%')) [
    | inl p ↦
        rw (e, p, output)
          (let d = parse_directive (next format) args in
            prepend-total (directive_text text_at d).0 (
              output-total fuel text_at (next d.format) (directive_text text_at d).1 (
                omega (
                  arith,
                  length-parse_directive (next format) args,
                  length-next d.format,
                  next_shorter format e,
                ))))
    | inr p ↦
        rw (e, p, output)
          (prepend-total (peek format ∷ [])
            (output-total fuel text_at (next format) args (omega (arith, next_shorter format e))))
  ]
]

output-overrun :
    (k fuel : ℕ) (text_at : ℕ → List ℕ) (cs rest args : List ℕ)
    → k ≡ length cs + suc fuel
    → All (λ c. ((c == 0) ≡ false) × ((c == b'%') ≡ false)) cs
    → output k text_at (cs ++ b'%' ∷ 0 ∷ rest) args ≡ prepend cs (output fuel text_at rest args)
unfolding output
output-overrun zero fuel text_at cs rest args e h = absurd (omega arith)
output-overrun (suc k) fuel text_at [] rest args e h =
    let same : k ≡ fuel = omega arith in rw (directive_text-nul, parse_directive-nul, output, same)
output-overrun (suc k) fuel text_at (c ∷ cs) rest args e h =
    rw (h.0.0, h.0.1, output)
      (ap (prepend (c ∷ [])) (output-overrun k fuel text_at cs rest args (omega arith) h.1)
        ∙ prepend-prepend c cs (output fuel text_at rest args))

-- On a format with a text that holds neither a terminator nor a `%`, then a lone `%`, the terminator
-- and anything behind it, the loop of `vsnprintf`, given a round for each character of the text and
-- one for the `%`, puts the text, steps over the terminator and goes on with what lies behind it.
pub vsnprintf_loop-overrun :
    (fuel end : ℕ) (text_at : ℕ → List ℕ) (cs rest args : List ℕ) (o : Sink)
    → All (λ c. ((c == 0) ≡ false) × ((c == b'%') ≡ false)) cs
    → vsnprintf_loop (length cs + suc fuel) end text_at (cs ++ b'%' ∷ 0 ∷ rest) args o
      ≡ vsnprintf_loop fuel end text_at rest args (emit end cs o)
vsnprintf_loop-overrun fuel end text_at cs rest args o h =
    let k = length cs + suc fuel in
    vsnprintf_loop-emit k end text_at (cs ++ b'%' ∷ 0 ∷ rest) args o
    ∙ ap (emit_all end o) (output-overrun k fuel text_at cs rest args refl h)
    ∙ sym (emit_all-prepend end cs (output fuel text_at rest args) o)
    ∙ sym (vsnprintf_loop-emit fuel end text_at rest args (emit end cs o))
