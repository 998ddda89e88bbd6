-- ===== src/Memory/Immortal/Blocks.antt =====
-- The blocks that `malloc_immortal` hands out: aligned, inside the arena, and apart.
use ose.Prelude.{ℕ, ◌+◌, ◌-◌, ◌*◌, ◌/◌, ◌%◌, ◌≤◌, ◌<◌, ◌≡◌, arith, leb, ◌==◌, true, refl, ◌∙◌}
use ose.Prelude.{if◌then◌else◌, List, [], ◌∷◌, write, All}
use ose.Prelude.Outcome.{Outcome, ok, panic, ◌>>=◌, >>=-eq-ok}
use native.Mathlib.Decide.{dec_le}
use native.Mathlib.Nat.{div-add-mod', mod-lt, mul-mod_left}
use ose.Prelude.{u32, ◌↔◌}
use ose.Memory.Immortal.{Immortal, align_up, malloc_immortal}

-- The bump pointer of arena 1 lies in the arena.
abbrev pub InArena : Immortal → Type 0
InArena s = (0x100000 ≤ s.current 1) × (s.current 1 ≤ 0x400000)

-- The alignment in force: 0 means none.
abbrev pub effective : ℕ → ℕ
effective alignment = if alignment == 0 then 1 else alignment

mul_le : (x y a : ℕ) → x ≤ y → x * a ≤ y * a
mul_le x y a h = grind arith

quotient_le : (x k a : ℕ) → 0 < a → x < k * a + a → x / a ≤ k
quotient_le x k a ha h = elim (dec_le (x / a) k) [
  | yes p ↦ p
  | no p ↦ absurd (omega (arith, div-add-mod' x a, mul_le (k + 1) (x / a) a (omega arith)))
]

pub align_up_bounds :
    (c a : ℕ)
    → 0 < a
    → c + a ≤ 4294967296
    → (c ≤ align_up c a) × (align_up c a < c + a) × (align_up c a % a ≡ 0)
align_up_bounds c a ha h =
    let x = c + (a - 1) in
    let e : u32 x ≡ x = omega arith in
    rw e (
      omega (arith, div-add-mod' x a, mod-lt x ha),
      omega (arith, div-add-mod' x a, mod-lt x ha),
      mul-mod_left (x / a) a,
    )

-- No multiple of `a` from `c` on is lower.
align_up_least : (c a p : ℕ) → 0 < a → c + a ≤ 4294967296 → c ≤ p → p % a ≡ 0 → align_up c a ≤ p
align_up_least c a p ha h cp pa =
    let x = c + (a - 1) in
    let e : u32 x ≡ x = omega arith in
    rw e (
      omega (
        arith,
        div-add-mod' p a,
        div-add-mod' x a,
        mul_le (x / a) (p / a) a (quotient_le x (p / a) a ha (omega (arith, div-add-mod' p a))),
      ))

-- A request that can be served: not empty, and of an alignment of at most 2 ^ 31.
abbrev pub IsRequest : ℕ × ℕ → Type 0
IsRequest (size, alignment) = (0 < size) × (alignment ≤ 2147483648)

-- `malloc_immortal` as one test against the end of arena 1.
pub malloc_immortal_lem :
    (s : Immortal) (size alignment : ℕ)
    → InArena s
    → IsRequest (size, alignment)
    → malloc_immortal size alignment s ≡ (
        let p = align_up (s.current 1) (effective alignment) in
        if leb (p + size) 0x400000
        then ok (p, record s { current = write s.current 1 (p + size) })
        else panic)
unfolding malloc_immortal
malloc_immortal_lem s size alignment v r =
    ground (arith, align_up_bounds (s.current 1) (effective alignment))

-- A request is served when arena 1 has room for it behind any gap that the alignment leaves.
pub malloc_immortal-room :
    (s : Immortal) (size alignment : ℕ)
    → InArena s
    → IsRequest (size, alignment)
    → s.current 1 + effective alignment + size ≤ 0x400000
    → (p : ℕ) × (s' : Immortal) × (malloc_immortal size alignment s ≡ ok (p, s'))
      × (s.current 1 ≤ p)
      × (p < s.current 1 + effective alignment)
      × InArena s'
      × (s'.current 1 ≡ p + size)
malloc_immortal-room s size alignment v r room =
    let a = effective alignment in
    let pos : 0 < a = ground arith in
    let (low, high, al) = align_up_bounds (s.current 1) a pos (omega arith) in
    let fits : leb (align_up (s.current 1) a + size) 0x400000 ≡ true = ground arith in
    (
      align_up (s.current 1) a,
      record s { current = write s.current 1 (align_up (s.current 1) a + size) },
      malloc_immortal_lem s size alignment v r ∙ rw fits refl,
      low,
      high,
      (ground arith, ground arith),
      refl,
    )

-- With the bump pointer of arena 1 in the arena, a request of at least one byte and of an alignment
-- of at most 2 ^ 31 that is served gets an aligned block inside arena 1, from the bump pointer on;
-- the pointer moves to the end of the block, that of arena 0 and the interrupt flag stay.
pub malloc_immortal-block :
    (s : Immortal) (size alignment : ℕ) {p : ℕ} {s' : Immortal}
    → InArena s
    → IsRequest (size, alignment)
    → malloc_immortal size alignment s ≡ ok (p, s')
    → (p % effective alignment ≡ 0)
      × (s.current 1 ≤ p)
      × (p + size ≤ 0x400000)
      × (s'.current 1 ≡ p + size)
      × (s'.current 0 ≡ s.current 0)
      × (s'.interrupts ≡ s.interrupts)
malloc_immortal-block s size alignment v r e = ground (
  arith,
  malloc_immortal_lem s size alignment v r,
  align_up_bounds (s.current 1) (effective alignment),
)

-- The kernel panics exactly if no aligned block of the wanted size is left in arena 1.
pub malloc_immortal-panic :
    (s : Immortal) (size alignment : ℕ)
    → InArena s
    → IsRequest (size, alignment)
    → (malloc_immortal size alignment s ≡ panic)
      ↔ ((p : ℕ) → s.current 1 ≤ p → p % effective alignment ≡ 0 → 0x400000 < p + size)
malloc_immortal-panic s size alignment v r = (
  λ e p h k. ground (
    arith,
    malloc_immortal_lem s size alignment v r,
    align_up_least (s.current 1) (effective alignment) p,
  ),
  λ none_fits. ground (
    arith,
    malloc_immortal_lem s size alignment v r,
    align_up_bounds (s.current 1) (effective alignment),
    none_fits (align_up (s.current 1) (effective alignment)),
  ),
)

-- The blocks that a series of requests gets, each with its size.
unfoldable pub serve : List (ℕ × ℕ) → Immortal → Outcome (List (ℕ × ℕ) × Immortal)
serve [] s = ok ([], s)
serve ((size, alignment) ∷ rs) s = do
  (p, s') ← malloc_immortal size alignment s
  (bs, s'') ← serve rs s'
  ok ((p, size) ∷ bs, s'')

-- Each block starts where the one before it ends, or later, and the last ends at `hi` or before.
abbrev pub Ascending : ℕ → ℕ → List (ℕ × ℕ) → Type 0
Ascending lo hi [] = lo ≤ hi
Ascending lo hi ((p, n) ∷ bs) = (lo ≤ p) × Ascending (p + n) hi bs

-- The blocks of a series of requests follow one another inside arena 1, so no two overlap.
pub serve-Ascending :
    (rs : List (ℕ × ℕ)) (s : Immortal) {bs : List (ℕ × ℕ)} {s' : Immortal}
    → InArena s
    → All IsRequest rs
    → serve rs s ≡ ok (bs, s')
    → Ascending (s.current 1) 0x400000 bs × InArena s'
unfolding serve
serve-Ascending [] s v r e = ground arith
serve-Ascending ((size, alignment) ∷ rs) s v r e =
    let ((p, s1), e1, e2) = >>=-eq-ok (malloc_immortal size alignment s) _ e in
    let ((bs1, s2), e3, e4) = >>=-eq-ok (serve rs s1) _ e2 in
    let b = malloc_immortal-block s size alignment v r.0 e1 in
    ground (arith, b, serve-Ascending rs s1 (ground (arith, b)) r.1 e3, e4)
