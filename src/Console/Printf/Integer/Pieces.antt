-- ===== src/Console/Printf/Integer/Pieces.antt =====
-- What the loops of `bound_string_format_integer` put: digits in reverse, signs and padding.
use ose.Prelude.{ℕ, suc, zero, ◌≡◌, refl, sym, ◌∙◌}
use ose.Prelude.{if◌then◌else◌, Bool, true, false, List, [], ◌∷◌, ◌++◌, length, replicate, get_or}
use ose.Prelude.Int.{ℤ, pos, negsuc, pos_part}
use mathlib.Core.List.{reverse, reverse-cons}
use ose.Prelude.{ap}
use ose.Console.Printf.{Sink, bound_string_putchar, pad_width}
use ose.Console.Printf.Emit.{emit, pad-emit}
use ose.Console.Printf.Integer.{put_reversed, put_if, pad_if}

-- The last `n` entries of the buffer to be printed, as `put_reversed` meets them.
reversed_prefix : ℕ → List ℕ → List ℕ
reversed_prefix zero xs = []
reversed_prefix (suc n) xs = get_or xs n 0 ∷ reversed_prefix n xs

reversed_prefix-cons :
    (n x : ℕ) (xs : List ℕ) → reversed_prefix (suc n) (x ∷ xs) ≡ reversed_prefix n xs ++ (x ∷ [])
unfolding reversed_prefix
reversed_prefix-cons zero x xs = refl
reversed_prefix-cons (suc n) x xs = ap (λ l. get_or xs n 0 ∷ l) (reversed_prefix-cons n x xs)

reversed_prefix-reverse : (xs : List ℕ) → reversed_prefix (length xs) xs ≡ reverse xs
reversed_prefix-reverse [] = unfold reversed_prefix in refl
reversed_prefix-reverse (x ∷ xs) =
    reversed_prefix-cons (length xs) x xs
    ∙ ap (λ l. l ++ (x ∷ [])) (reversed_prefix-reverse xs)
    ∙ sym (reverse-cons x xs)

put_reversed-prefix :
    (end n : ℕ) (buffer : List ℕ) (o : Sink)
    → put_reversed end n buffer o ≡ emit end (reversed_prefix n buffer) o
unfolding put_reversed emit reversed_prefix
put_reversed-prefix end zero buffer o = refl
put_reversed-prefix end (suc n) buffer o =
    put_reversed-prefix end n buffer (bound_string_putchar end (get_or buffer n 0) o)

length-reversed_prefix : (n : ℕ) (xs : List ℕ) → length (reversed_prefix n xs) ≡ n
unfolding reversed_prefix
length-reversed_prefix zero xs = refl
length-reversed_prefix (suc n) xs = ap suc (length-reversed_prefix n xs)

pub length-reverse : (xs : List ℕ) → length (reverse xs) ≡ length xs
length-reverse xs = rw (← reversed_prefix-reverse xs) (length-reversed_prefix (length xs) xs)

pub put_reversed-emit :
    (end : ℕ) (buffer : List ℕ) (o : Sink)
    → put_reversed end (length buffer) buffer o ≡ emit end (reverse buffer) o
put_reversed-emit end buffer o =
    put_reversed-prefix end (length buffer) buffer o
    ∙ ap (λ l. emit end l o) (reversed_prefix-reverse buffer)

abbrev pub after : ℤ → ℤ
after (pos n) = negsuc 0
after (negsuc n) = negsuc (suc n)

pub pad_width-emit :
    (end c : ℕ) (w : ℤ) (o : Sink)
    → pad_width end c w o ≡ (emit end (replicate (pos_part w) c) o, after w)
unfolding pad_width emit
pad_width-emit end c (pos n) o = ap (λ s. (s, negsuc 0)) (pad-emit end c n o)
pad_width-emit end c (negsuc n) o = refl

pub put_if-emit :
    (b : Bool) (end c : ℕ) (o : Sink) → put_if b end c o ≡ emit end (if b then c ∷ [] else []) o
unfolding put_if emit
put_if-emit true end c o = refl
put_if-emit false end c o = refl

pub pad_if-emit :
    (b : Bool) (end c : ℕ) (w : ℤ) (o : Sink)
    → pad_if b end c w o
      ≡ (emit end (if b then replicate (pos_part w) c else []) o, if b then after w else w)
unfolding pad_if emit
pad_if-emit true end c w o = pad_width-emit end c w o
pad_if-emit false end c w o = refl
