-- ===== src/Paging/Members.antt =====
-- Which frames an address space owns, and that no frame appears twice among them.
use ose.Prelude.{
  ℕ, zero, suc, ◌+◌, ◌≤◌, ◌<◌, ◌≡◌, ◌≢◌, ◌⊎◌, inl, inr, refl, sym, ◌∙◌, arith, true, false, List,
  [], ◌∷◌, ◌++◌, has, Distinct, Bool-cases,
}
use native.Mathlib.Decide.{ℕ_discrete}
use mathlib.Core.Bool.{false≢true}
use ose.Paging.{present, frame_of}
use ose.Paging.Frees.{has-append}
use ose.Paging.Owned.{pages, leads, block, owned}

-- A frame of a table with the entries `e`.
abbrev pub InTable : (ℕ → ℕ) → (lo hi q : ℕ) → Type 0
InTable e lo hi q = (l : ℕ) × (lo ≤ l) × (l < hi) × (present (e l) ≡ true) × (frame_of (e l) ≡ q)

pages-InTable : (e : ℕ → ℕ) (k i q : ℕ) → has q (pages e k i) ≡ true → InTable e i (i + k) q
unfolding pages
pages-InTable e zero i q h = absurd (false≢true h)
pages-InTable e (suc k) i q h = elim (Bool-cases (present (e i))) [
  | inr p ↦
      let (l, lo, hi, pl, x) = pages-InTable e k (i + 1) q (rw (p, pages) at h) in
      (l, omega arith, omega arith, pl, x)
  | inl p ↦
      let h' : has q (frame_of (e i) ∷ pages e k (i + 1)) ≡ true = rw (p, pages) at h in
      elim (ℕ_discrete (frame_of (e i)) q) [
        | yes eq ↦ (i, omega arith, omega arith, p, eq)
        | no ne ↦
            let (l, lo, hi, pl, x) = pages-InTable e k (i + 1) q (ground arith) in
            (l, omega arith, omega arith, pl, x)
      ]
]

-- A table, or a frame of one.
abbrev pub Under : (d : ℕ → ℕ) → (t : ℕ → ℕ → ℕ) → (j q : ℕ) → Type 0
Under d t j q = (leads (d j) ≡ true) × ((frame_of (d j) ≡ q) ⊎ InTable (t j) 0 1024 q)

has_one : (p q : ℕ) → has q (p ∷ []) ≡ true → p ≡ q
has_one p q h = ground arith

split_has :
    (q : ℕ) (xs ys : List ℕ) → has q (xs ++ ys) ≡ true → (has q xs ≡ true) ⊎ (has q ys ≡ true)
split_has q xs ys h =
    let a = has-append q xs ys in
    elim (Bool-cases (has q xs)) [ inl e ↦ inl e | inr e ↦ inr (ground (arith, a)) ]

block-Under : (d : ℕ → ℕ) (t : ℕ → ℕ → ℕ) (i q : ℕ) → has q (block d t i) ≡ true → Under d t i q
unfolding block
block-Under d t i q h = elim (Bool-cases (leads (d i))) [
  | inr e ↦ absurd (false≢true (rw e at h))
  | inl e ↦ (
    e,
    elim (split_has q (pages (t i) 1024 0) (frame_of (d i) ∷ []) (rw e at h)) [
      | inl p ↦ inr (pages-InTable (t i) 1024 0 q p)
      | inr p ↦ inl (has_one (frame_of (d i)) q p)
    ],
  )
]

pub owned-Under :
    (d : ℕ → ℕ) (t : ℕ → ℕ → ℕ) (k i q : ℕ)
    → has q (owned d t k i) ≡ true
    → (j : ℕ) × (i ≤ j) × (j < i + k) × Under d t j q
unfolding owned
owned-Under d t zero i q h = absurd (false≢true h)
owned-Under d t (suc k) i q h = elim (split_has q (block d t i) (owned d t k (i + 1)) h) [
  | inl p ↦ (i, omega arith, omega arith, block-Under d t i q p)
  | inr p ↦ let (j, lo, hi, x) = owned-Under d t k (i + 1) q p in (j, omega arith, omega arith, x)
]

-- No frame appears twice when the lists have none in common and none twice.
append-Distinct :
    (xs ys : List ℕ)
    → Distinct xs
    → Distinct ys
    → ((q : ℕ) → has q xs ≡ true → has q ys ≡ false)
    → Distinct (xs ++ ys)
append-Distinct [] ys dx dy apart = dy
append-Distinct (x ∷ xs) ys dx dy apart =
    let new = apart x (ground arith) in
    (
      has-append x xs ys ∙ rw (dx.0, new) refl,
      append-Distinct xs ys dx.1 dy (λ q h. apart q (ground arith)),
    )

not_has : (q : ℕ) (xs : List ℕ) → ¬ (has q xs ≡ true) → has q xs ≡ false
not_has q xs no_member = elim (Bool-cases (has q xs)) [ inl e ↦ absurd (no_member e) | inr e ↦ e ]

pages-Distinct :
    (e : ℕ → ℕ) (k i : ℕ)
    → ((l l' : ℕ)
        → l < i + k
        → l' < i + k
        → l ≢ l'
        → present (e l) ≡ true
        → present (e l') ≡ true
        → frame_of (e l) ≢ frame_of (e l'))
    → Distinct (pages e k i)
unfolding pages
pages-Distinct e zero i h = tt
pages-Distinct e (suc k) i h =
    let later = pages-Distinct e k (i + 1) (λ l l' a b. h l l' (omega arith) (omega arith)) in
    elim (Bool-cases (present (e i))) [
      | inr p ↦ rw (p, pages) later
      | inl p ↦
          rw (p, pages)
            (
              not_has (frame_of (e i)) (pages e k (i + 1)) (λ m.
                  let (l, lo, hi, pl, eq) = pages-InTable e k (i + 1) (frame_of (e i)) m in
                  h l i (omega arith) (omega arith) (λ same. absurd (omega arith)) pl p eq),
              later,
            )
    ]

-- The frames under a directory: those of entries that differ, tables and pages, are apart.
pub record Apart (d : ℕ → ℕ) (t : ℕ → ℕ → ℕ) : Type 0 where
  pub tables :
      (j j' : ℕ)
      → 1 ≤ j
      → j < 1024
      → 1 ≤ j'
      → j' < 1024
      → j ≢ j'
      → leads (d j) ≡ true
      → leads (d j') ≡ true
      → frame_of (d j) ≢ frame_of (d j')
  pub no_table :
      (j l j' : ℕ)
      → 1 ≤ j
      → j < 1024
      → l < 1024
      → 1 ≤ j'
      → j' < 1024
      → leads (d j) ≡ true
      → present (t j l) ≡ true
      → leads (d j') ≡ true
      → frame_of (t j l) ≢ frame_of (d j')
  pub pages :
      (j l j' l' : ℕ)
      → 1 ≤ j
      → j < 1024
      → l < 1024
      → 1 ≤ j'
      → j' < 1024
      → l' < 1024
      → (j ≢ j') ⊎ (l ≢ l')
      → leads (d j) ≡ true
      → present (t j l) ≡ true
      → leads (d j') ≡ true
      → present (t j' l') ≡ true
      → frame_of (t j l) ≢ frame_of (t j' l')

module _ (d : ℕ → ℕ) (t : ℕ → ℕ → ℕ) (a : Apart d t) where
  Under-apart :
      (j j' q : ℕ)
      → 1 ≤ j
      → j < 1024
      → 1 ≤ j'
      → j' < 1024
      → j ≢ j'
      → Under d t j q
      → ¬ Under d t j' q
  Under-apart j j' q jl jh jl' jh' ne (lead, x) (lead', y) = elim x [
    | inl e ↦ elim y [
      | inl e' ↦ a.tables j j' jl jh jl' jh' ne lead lead' (e ∙ sym e')
      | inr (l, lo, hi, p, e') ↦ a.no_table j' l j jl' jh' hi jl jh lead' p lead (e' ∙ sym e)
    ]
    | inr (l, lo, hi, p, e) ↦ elim y [
      | inl e' ↦ a.no_table j l j' jl jh hi jl' jh' lead p lead' (e ∙ sym e')
      | inr (l', lo', hi', p', e') ↦
          a.pages j l j' l' jl jh hi jl' jh' hi' (inl ne) lead p lead' p' (e ∙ sym e')
    ]
  ]

  block-Distinct : (i : ℕ) → 1 ≤ i → i < 1024 → Distinct (block d t i)
  unfolding block
  block-Distinct i lo hi = elim (Bool-cases (leads (d i))) [
    | inr h ↦ rw h tt
    | inl h ↦ rw h (
        append-Distinct (pages (t i) 1024 0) (frame_of (d i) ∷ [])
          (pages-Distinct (t i) 1024 0
            (λ l l' hl hl' ne p p'. a.pages i l i l' lo hi hl lo hi hl' (inr ne) h p h p'))
          (refl, tt)
          (λ q m. not_has q (frame_of (d i) ∷ []) (λ m'.
            let (l, _, hl, p, e) = pages-InTable (t i) 1024 0 q m in
            a.no_table i l i lo hi hl lo hi h p h (e ∙ sym (has_one (frame_of (d i)) q m')))))
  ]

  pub owned-Distinct : (k i : ℕ) → 1 ≤ i → i + k ≤ 1024 → Distinct (owned d t k i)
  unfolding owned
  owned-Distinct zero i lo hi = tt
  owned-Distinct (suc k) i lo hi =
      append-Distinct (block d t i) (owned d t k (i + 1)) (block-Distinct i lo (omega arith))
        (owned-Distinct k (i + 1) (omega arith) (omega arith))
        (λ q m. not_has q (owned d t k (i + 1)) (λ m'.
          let (j, jl, jh, u) = owned-Under d t k (i + 1) q m' in
          Under-apart i j q lo (omega arith) (omega arith) (omega arith) (λ e. absurd (omega arith))
            (block-Under d t i q m) u))
