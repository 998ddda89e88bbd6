-- ===== src/Paging/Frees.antt =====
-- Freeing a list of frames one after another.
use ose.Prelude.{
  ℕ, ◌+◌, ◌*◌, ◌%◌, ◌<◌, ◌≡◌, ◌≢◌, refl, sym, ◌∙◌, arith, true, false, ◌||◌, List, [], ◌∷◌, ◌++◌,
  has, erase, Distinct, length,
}
use native.Mathlib.Decide.{ℕ_discrete}
use mathlib.Core.Bool.{false≢true}
use mathlib.Core.Path.{subst}
use ose.Memory.Words.{load32-store32_ne}
use ose.Memory.Pages.{Frames, free_page}
use ose.Memory.Pages.Pool.{IsPool, free_page-IsPool}
use ose.Memory.Pages.Supply.{supply}
use ose.Paging.{entry_at}

unfoldable pub free_all : List ℕ → Frames → Frames
free_all [] s = s
free_all (p ∷ ps) s = free_all ps (free_page p s)

pub free_all-append :
    (ps qs : List ℕ) (s : Frames) → free_all (ps ++ qs) s ≡ free_all qs (free_all ps s)
unfolding free_all
free_all-append [] qs s = refl
free_all-append (p ∷ ps) qs s = free_all-append ps qs (free_page p s)

-- The free list and the held frames afterwards.
unfoldable pub pushed : List ℕ → List ℕ → List ℕ
pushed [] free = free
pushed (p ∷ ps) free = pushed ps (p ∷ free)

unfoldable pub without : List ℕ → List ℕ → List ℕ
without [] used = used
without (p ∷ ps) used = without ps (erase p used)

pub length-pushed : (ps free : List ℕ) → length (pushed ps free) ≡ length ps + length free
unfolding pushed
length-pushed [] free = omega arith
length-pushed (p ∷ ps) free = omega (arith, length-pushed ps (p ∷ free))

has-erase_other : (a b : ℕ) (xs : List ℕ) → a ≢ b → has a (erase b xs) ≡ has a xs
has-erase_other a b [] h = refl
has-erase_other a b (x ∷ xs) h = ground (arith, has-erase_other a b xs h)

-- What is held afterwards is what was held and is not freed.
pub has-without :
    (a : ℕ) (ps used : List ℕ) → has a ps ≡ false → has a (without ps used) ≡ has a used
unfolding without
has-without a [] used h = refl
has-without a (p ∷ ps) used h =
    let ne : a ≢ p = λ e. ground arith in
    has-without a ps (erase p used) (ground arith) ∙ has-erase_other a p used ne

-- Every frame of the list is one of the others.
abbrev pub Within : List ℕ → List ℕ → Type 0
Within ps used = (q : ℕ) → has q ps ≡ true → has q used ≡ true

pub free_all-IsPool :
    (ps : List ℕ) {s : Frames} {free used : List ℕ}
    → IsPool s free used
    → Within ps used
    → Distinct ps
    → IsPool (free_all ps s) (pushed ps free) (without ps used)
unfolding free_all pushed without
free_all-IsPool [] v h d = v
free_all-IsPool (p ∷ ps) {s} {free} {used} v h d =
    free_all-IsPool ps (free_page-IsPool p v (h p (ground arith)))
      (λ q i.
        let ne : q ≢ p = λ e. false≢true (sym d.0 ∙ subst (λ x. has x ps ≡ true) e i) in
        has-erase_other q p used ne ∙ h q (ground arith))
      d.1

free_all-edge : (ps : List ℕ) (s : Frames) → (free_all ps s).frame_edge ≡ s.frame_edge
unfolding free_all free_page
free_all-edge [] s = refl
free_all-edge (p ∷ ps) s = free_all-edge ps (free_page p s)

-- The supply grows by the frames that are freed.
pub free_all-supply :
    (ps : List ℕ) (s : Frames) (free : List ℕ)
    → supply (free_all ps s) (pushed ps free) ≡ supply s free + length ps
free_all-supply ps s free = rw (free_all-edge ps s, length-pushed ps free) (omega arith)

-- Entries of frames that are not freed stay.
abbrev pub Aligned : List ℕ → Type 0
Aligned ps = (q : ℕ) → has q ps ≡ true → q % 4096 ≡ 0

entry_at-free_page :
    (p t j : ℕ) (s : Frames)
    → p % 4096 ≡ 0
    → t % 4096 ≡ 0
    → j < 1024
    → t ≢ p
    → entry_at (free_page p s).ram t j ≡ entry_at s.ram t j
unfolding free_page entry_at
entry_at-free_page p t j s hp ht hj ne =
    load32-store32_ne s.ram p (t + j * 4) s.frame_free_list (omega arith) (omega arith)
      (omega arith)

pub entry_at-free_all :
    (ps : List ℕ) (t j : ℕ) (s : Frames)
    → Aligned ps
    → t % 4096 ≡ 0
    → j < 1024
    → has t ps ≡ false
    → entry_at (free_all ps s).ram t j ≡ entry_at s.ram t j
unfolding free_all
entry_at-free_all [] t j s al ht hj out = refl
entry_at-free_all (p ∷ ps) t j s al ht hj out =
    let ne : t ≢ p = λ e. ground arith in
    entry_at-free_all ps t j (free_page p s) (λ q h. al q (ground arith)) ht hj (ground arith)
    ∙ entry_at-free_page p t j s (al p (ground arith)) ht hj ne

-- Lists put together.
pub has-append : (a : ℕ) (xs ys : List ℕ) → has a (xs ++ ys) ≡ (has a xs || has a ys)
has-append a [] ys = refl
has-append a (x ∷ xs) ys = ground (arith, has-append a xs ys)

pub Distinct-append :
    (xs ys : List ℕ)
    → Distinct (xs ++ ys)
    → Distinct xs × Distinct ys × ((a : ℕ) → has a xs ≡ true → has a ys ≡ false)
Distinct-append [] ys d = (tt, d, λ a h. cc)
Distinct-append (x ∷ xs) ys d =
    let (dx, dy, apart) = Distinct-append xs ys d.1 in
    let out = has-append x xs ys in
    (
      (ground arith, dx),
      dy,
      λ a h. elim (ℕ_discrete x a) [
        | yes e ↦ rw (sym e) (ground arith)
        | no ne ↦ apart a (ground arith)
      ],
    )
