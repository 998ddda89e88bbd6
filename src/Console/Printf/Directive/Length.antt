-- ===== src/Console/Printf/Directive/Length.antt =====
-- Reading a directive never goes back in the format, so `vsnprintf` comes to an end.
use ose.Prelude.{ℕ, ◌≤◌, arith, List, [], ◌∷◌, length}
use ose.Prelude.{Option-cases, inl, inr}
use ose.Prelude.Int.{negsuc}
use ose.Console.Printf.Number.{length-parse_int}
use ose.Console.Printf.{Flags, next}
use ose.Console.Printf.Directive.{
  Directive, parse_flags, add_flag, read_flags, read_width, read_prescision, read_qualifier,
  parse_directive, no_flags,
}

pub length-next : (f : List ℕ) → length (next f) ≤ length f
length-next [] = omega arith
length-next (c ∷ cs) = omega arith

pub length-parse_flags : (f : Flags) (cs : List ℕ) → length (parse_flags f cs).1 ≤ length cs
unfolding parse_flags
length-parse_flags f [] = omega arith
length-parse_flags f (c ∷ cs) = elim (Option-cases (add_flag c f)) [
  | inl e ↦ rw (e, parse_flags) (omega arith)
  | inr (g, e) ↦ rw (e, parse_flags) (omega (arith, length-parse_flags g cs))
]

length-read_flags : (d : Directive) → length (read_flags d).format ≤ length d.format
unfolding read_flags
length-read_flags d = length-parse_flags d.flags d.format

length-read_qualifier : (d : Directive) → length (read_qualifier d).format ≤ length d.format
unfolding read_qualifier
length-read_qualifier d = ground (arith, length-next d.format)

pub length-read_width : (d : Directive) → length (read_width d).format ≤ length d.format
unfolding read_width
length-read_width d = ground (arith, length-parse_int d.format, length-next d.format)

pub length-read_prescision : (d : Directive) → length (read_prescision d).format ≤ length d.format
unfolding read_prescision
length-read_prescision d =
    ground
      (arith, length-parse_int (next d.format), length-next d.format, length-next (next d.format))

pub length-parse_directive :
    (format args : List ℕ) → length (parse_directive format args).format ≤ length format
unfolding parse_directive
length-parse_directive format args =
    let d0 : Directive = record {
      flags = no_flags;
      width = negsuc 0;
      prescision = negsuc 0;
      qualifier = 0;
      format = format;
      args = args;
    } in
    omega (
      arith,
      length-read_flags d0,
      length-read_width (read_flags d0),
      length-read_prescision (read_width (read_flags d0)),
      length-read_qualifier (read_prescision (read_width (read_flags d0))),
    )
