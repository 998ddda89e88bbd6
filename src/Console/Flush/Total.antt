-- ===== src/Console/Flush/Total.antt =====
-- `cflush`, `cputc` and `cputs` end, and leave the buffer within its size.
use ose.Prelude.{
  ℕ, zero, suc, ◌≤◌, ◌<◌, ◌≡◌, refl, arith, true, ltb, ◌==◌, List, [], ◌∷◌, some, inl, inr,
  Bool-cases, length,
}
use ose.Console.Printf.{peek, next, parse_int}
use ose.Console.Printf.Number.{length-parse_int}
use ose.Console.Printf.Directive.Length.{length-next}
use ose.Console.Flush.{Console, process_escape_sequence, put_character, scroll_at, cflush_loop}

pub length-process_escape_sequence :
    (s : List ℕ) (c : Console) → length (process_escape_sequence s c).0 ≤ length s
unfolding process_escape_sequence
length-process_escape_sequence s c = ground (
  arith,
  length-next s,
  length-next (next s),
  length-parse_int (next s),
  length-next (parse_int (next s)).1,
)

-- Each round consumes a character.
pub shorter :
    (text : List ℕ) (b : ℕ) → ltb b (length text) ≡ true → length (next text) < length text
shorter [] b h = ground arith
shorter (ch ∷ text) b h = omega arith

-- A round for each character left and one more are enough.
pub cflush_loop-total :
    (fuel bound beyond : ℕ) (text : List ℕ) (c : Console)
    → length text < fuel
    → (c' : Console) × (cflush_loop fuel bound beyond text c ≡ some c')
unfolding cflush_loop
cflush_loop-total zero bound beyond text c h = elim h [ ]
cflush_loop-total (suc fuel) bound beyond text c h = elim (Bool-cases (ltb beyond (length text))) [
  | inr e ↦ rw (e, cflush_loop) (c, refl)
  | inl e ↦
      let c' = scroll_at bound c in
      elim (Bool-cases (peek text == 27)) [
        | inl p ↦
            rw (e, p, cflush_loop)
              (let r = process_escape_sequence (next text) c' in
                cflush_loop-total fuel bound beyond r.0 r.1 (
                  omega
                    (arith, shorter text beyond e, length-process_escape_sequence (next text) c')))
        | inr p ↦
            rw (e, p, cflush_loop)
              (cflush_loop-total fuel bound beyond (next text) (put_character bound (peek text) c')
                (omega (arith, shorter text beyond e)))
      ]
]
