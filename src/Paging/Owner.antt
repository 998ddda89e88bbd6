-- ===== src/Paging/Owner.antt =====
-- An address space whose pages are its own: no frame is mapped twice, and none is a page table, the
-- directory or free.
use ose.Prelude.{
  ℕ, ◌/◌, ◌%◌, ◌≤◌, ◌<◌, ◌≡◌, ◌≢◌, ◌⊎◌, inl, inr, sym, ◌∙◌, ap, arith, true, false, List, ◌∷◌, has,
  some,
}
use native.Mathlib.Decide.{ℕ_discrete}
use mathlib.Core.Bool.{false≢true}
use mathlib.Core.Path.{subst}
use ose.Memory.Pages.{Frames}
use ose.Paging.{directory_index}
use ose.Paging.Translate.{Mapping, translate}
use ose.Paging.Space.{HasTable, IsSmall, table, IsSpace}
use ose.Paging.Mount.{Extends}

-- The page at `a`, of those that are not the kernel's, and the frame that it is mapped to.
abbrev pub IsPage : ℕ → Type 0
IsPage a = (0x400000 ≤ a) × (a < 4294967296) × (a % 0x1000 ≡ 0)

pub record IsOwner (s : Frames) (free used : List ℕ) (pdt : ℕ) : Type 0 where
  pub space : IsSpace s free used pdt
  pub small : (j : ℕ) → j < 1024 → IsSmall s.ram pdt j
  pub held :
      (a : ℕ) (x : Mapping) → IsPage a → translate s.ram pdt a ≡ some x → has x.physical used ≡ true
  pub apart : (a : ℕ) (x : Mapping) → IsPage a → translate s.ram pdt a ≡ some x → x.physical ≢ pdt
  pub no_table :
      (a j : ℕ) (x : Mapping)
      → IsPage a
      → j < 1024
      → translate s.ram pdt a ≡ some x
      → HasTable s.ram pdt j
      → x.physical ≢ table s.ram pdt j
  pub distinct :
      (a b : ℕ) (x y : Mapping)
      → IsPage a
      → IsPage b
      → a ≢ b
      → translate s.ram pdt a ≡ some x
      → translate s.ram pdt b ≡ some y
      → x.physical ≢ y.physical

ne_held : (p q : ℕ) (used : List ℕ) → has p used ≡ false → has q used ≡ true → p ≢ q
ne_held p q used hp hq e = false≢true (sym hp ∙ subst (λ x. has x used ≡ true) (sym e) hq)

some_eq : (x y : Mapping) → some x ≡ some y → x.physical ≡ y.physical
some_eq x y e = cc

-- A page that gets a frame that was not held: the state `s` before the frame was taken, and the state
-- `s'` after it was mounted.
module _ (s s1 s' : Frames) (free used free1 free' used' : List ℕ) (pdt p i : ℕ) (m : Mapping)
    (o : IsOwner s free used pdt) (fresh : has p used ≡ false) (pi : IsPage i)
    (same : s1.ram ≡ s.ram) (x : Extends s1 free1 (p ∷ used) pdt (directory_index i) s' free' used')
    (mapped : translate s'.ram pdt i ≡ some m) (frame : m.physical ≡ p)
    (others : (a : ℕ)
      → a < 4294967296
      → a / 0x1000 ≢ i / 0x1000
      → translate s'.ram pdt a ≡ translate s1.ram pdt a) where
  before :
      (a : ℕ) (y : Mapping)
      → IsPage a
      → translate s'.ram pdt a ≡ some y
      → ((a ≡ i) × (y.physical ≡ p)) ⊎ ((a ≢ i) × (translate s.ram pdt a ≡ some y))
  before a y pa h = elim (ℕ_discrete a i) [
    | yes e ↦ inl (e, some_eq y m (sym h ∙ ap (translate s'.ram pdt) e ∙ mapped) ∙ frame)
    | no ne ↦ inr (
      ne,
      ap (λ r. translate r pdt a) (sym same) ∙ sym (others a pa.1 (λ q. ne (omega arith))) ∙ h,
    )
  ]

  -- Its tables are old ones or frames that were not held.
  old_tables :
      (j : ℕ)
      → j < 1024
      → HasTable s'.ram pdt j
      → (HasTable s.ram pdt j × (table s'.ram pdt j ≡ table s.ram pdt j))
        ⊎ (has (table s'.ram pdt j) (p ∷ used) ≡ false)
  old_tables j hj h = rw same at (x.tables j hj h)

  more : (q : ℕ) → has q used ≡ true → has q (p ∷ used) ≡ true
  more q h = ground arith

  less : (q : ℕ) → has q (p ∷ used) ≡ false → (q ≢ p) × (has q used ≡ false)
  less q h = (λ e. ground arith, ground arith)

  pub mounted-IsOwner : IsOwner s' free' used' pdt
  mounted-IsOwner = record {
    space = x.space;
    small = λ j hj. x.small j hj (rw same (o.small j hj));
    held = λ a y pa h. elim (before a y pa h) [
      | inl (e, q) ↦ rw q (x.held p (ground arith))
      | inr (ne, old) ↦ x.held y.physical (more y.physical (o.held a y pa old))
    ];
    apart = λ a y pa h. elim (before a y pa h) [
      | inl (e, q) ↦ rw q (ne_held p pdt used fresh o.space.root)
      | inr (ne, old) ↦ o.apart a y pa old
    ];
    no_table = λ a j y pa hj h t. elim (old_tables j hj t) [
      | inl (old_t, q) ↦ rw q (elim (before a y pa h) [
        | inl (e, f) ↦
            rw f (ne_held p (table s.ram pdt j) used fresh (o.space.tables_held j hj old_t))
        | inr (ne, old) ↦ o.no_table a j y pa hj old old_t
      ])
      | inr out ↦ λ e'.
          let (not_p, not_used) = less (table s'.ram pdt j) out in
          elim (before a y pa h) [
            | inl (e, f) ↦ not_p (sym e' ∙ f)
            | inr (ne, old) ↦ ne_held _ y.physical used not_used (o.held a y pa old) (sym e')
          ]
    ];
    distinct = λ a b y z pa pb ab h k. elim (before a y pa h) [
      | inl (e, q) ↦ elim (before b z pb k) [
        | inl (e', q') ↦ absurd (ab (e ∙ sym e'))
        | inr (ne', old') ↦ rw q (ne_held p z.physical used fresh (o.held b z pb old'))
      ]
      | inr (ne, old) ↦ elim (before b z pb k) [
        | inl (e', q') ↦ rw q' (λ q. ne_held p y.physical used fresh (o.held a y pa old) (sym q))
        | inr (ne', old') ↦ o.distinct a b y z pa pb ab old old'
      ]
    ];
  }
