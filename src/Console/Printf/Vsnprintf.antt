-- ===== src/Console/Printf/Vsnprintf.antt =====
-- `vsnprintf` and `vsprintf` of src/console.c. The format is the memory from its first character
-- on, the terminator and what lies behind it included.
pub mod Output
pub mod Contract
use ose.Prelude.{ℕ, zero, suc, ◌+◌, ◌-◌, Mem, write, u32, sub32, ltb, ◌==◌, if◌then◌else◌}
use ose.Prelude.{true, false, List, Option, none, some, length}
use ose.Console.Printf.{Sink, bound_string_putchar, peek, next}
use ose.Console.Printf.Directive.{parse_directive, convert}

-- The loop over the format; `none` means that the fuel ran out. A directive whose conversion
-- character is the terminator is skipped together with the terminator, as in the source.
unfoldable pub vsnprintf_loop : ℕ → ℕ → (ℕ → List ℕ) → (format args : List ℕ) → Sink → Option Sink
vsnprintf_loop zero end text_at format args o = none
vsnprintf_loop (suc fuel) end text_at format args o = elim (peek format == 0) [
  | true ↦ some o
  | false ↦ elim (peek format == b'%') [
    | true ↦
        let d = parse_directive (next format) args in
        let (o', args') = convert end text_at d o in
        vsnprintf_loop fuel end text_at (next d.format) args' o'
    | false ↦
        vsnprintf_loop fuel end text_at (next format) args
          (bound_string_putchar end (peek format) o)
  ]
]

-- The terminator, and the count that is returned.
unfoldable pub finish : (s n end : ℕ) → Sink → Mem × ℕ
finish s n end o = (
  if n == 0
      then o.mem
      else if ltb o.string end
      then write o.mem o.string 0
      else write o.mem (sub32 end 1) 0,
  sub32 o.string s,
)

abbrev pub finish_all : (s n end : ℕ) → Option Sink → Option (Mem × ℕ)
finish_all s n end none = none
finish_all s n end (some o) = some (finish s n end o)

-- Each round consumes a character of the format.
unfoldable pub vsnprintf :
    (ℕ → List ℕ) → (m : Mem) → (s n : ℕ) → (format args : List ℕ) → Option (Mem × ℕ)
vsnprintf text_at m s n format args =
    let end = u32 (s + n) in
    finish_all s n end
      (vsnprintf_loop (length format + 1) end text_at format args (record { mem = m; string = s }))

-- `vsnprintf` with `SIZE_MAX`.
unfoldable pub vsprintf :
    (ℕ → List ℕ) → (m : Mem) → (s : ℕ) → (format args : List ℕ) → Option (Mem × ℕ)
vsprintf text_at m s format args = vsnprintf text_at m s 4294967295 format args
