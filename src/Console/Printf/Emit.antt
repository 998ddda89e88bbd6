-- ===== src/Console/Printf/Emit.antt =====
-- Characters sent to a bounded sink one after another, and where they arrive.
use ose.Prelude.{ℕ, zero, suc, ◌+◌, ◌-◌, ◌<◌, ◌≡◌, refl, ap, arith, get_or-cons, u8, ltb, leb, ◌&&◌}
use ose.Prelude.{if◌then◌else◌, List, [], ◌∷◌, ◌++◌, length, get_or, replicate}
use ose.Console.Printf.{Sink, bound_string_putchar, pad, peek, next, put_string}

unfoldable pub emit : ℕ → List ℕ → Sink → Sink
emit end [] o = o
emit end (c ∷ cs) o = emit end cs (bound_string_putchar end c o)

pub emit-nil : (end : ℕ) (o : Sink) → emit end [] o ≡ o
unfolding emit
emit-nil end o = refl

pub emit-one : (end c : ℕ) (o : Sink) → bound_string_putchar end c o ≡ emit end (c ∷ []) o
unfolding emit
emit-one end c o = refl

pub emit-append :
    (end : ℕ) (xs ys : List ℕ) (o : Sink) → emit end ys (emit end xs o) ≡ emit end (xs ++ ys) o
unfolding emit
emit-append end [] ys o = refl
emit-append end (x ∷ xs) ys o = emit-append end xs ys (bound_string_putchar end x o)

pub pad-emit : (end c n : ℕ) (o : Sink) → pad end c n o ≡ emit end (replicate n c) o
unfolding pad emit
pad-emit end c zero o = refl
pad-emit end c (suc n) o = pad-emit end c n (bound_string_putchar end c o)

-- The first `n` characters of a text, zeros behind its end.
abbrev pub prefix : ℕ → List ℕ → List ℕ
prefix zero cs = []
prefix (suc n) cs = peek cs ∷ prefix n (next cs)

pub put_string-emit :
    (end n : ℕ) (cs : List ℕ) (o : Sink) → put_string end n cs o ≡ emit end (prefix n cs) o
unfolding put_string emit
put_string-emit end zero cs o = refl
put_string-emit end (suc n) cs o =
    put_string-emit end n (next cs) (bound_string_putchar end (peek cs) o)

-- The pointer counts every character, written or not.
pub emit-string :
    (end : ℕ) (cs : List ℕ) (o : Sink)
    → o.string + length cs < 4294967296
    → (emit end cs o).string ≡ o.string + length cs
unfolding emit bound_string_putchar
emit-string end [] o h = omega arith
emit-string end (c ∷ cs) o h =
    omega (arith, emit-string end cs (bound_string_putchar end c o) (omega arith))

-- Character `i` arrives at the `i`-th address, if that is below `end`; nothing else changes.
pub emit-mem :
    (end : ℕ) (cs : List ℕ) (o : Sink) (x : ℕ)
    → o.string + length cs < 4294967296
    → (emit end cs o).mem x ≡ (
        if leb o.string x && ltb x (o.string + length cs) && ltb x end
        then u8 (get_or cs (x - o.string) 0)
        else o.mem x)
unfolding emit bound_string_putchar
emit-mem end [] o x h = ground arith
emit-mem end (c ∷ cs) o x h = ground (
  arith,
  emit-mem end cs (bound_string_putchar end c o) x,
  get_or-cons c cs (x - o.string) 0,
  ap (λ k. get_or cs k 0) (shift x o.string),
)
  where
    shift : (a b : ℕ) → a - (b + 1) ≡ a - b - 1
    shift a b = omega arith
