-- ===== src/Paging/Table.antt =====
-- What a fresh page table in a directory does to an address space.
use ose.Prelude.{
  ℕ, ◌+◌, ◌*◌, ◌/◌, ◌%◌, ◌<◌, ◌≡◌, ◌≢◌, ◌⊎◌, inl, inr, refl, sym, ◌∙◌, arith, true, false, Mem,
  List, ◌∷◌, has,
}
use native.Mathlib.Decide.{dec_lt, ℕ_discrete}
use mathlib.Core.Bool.{false≢true}
use mathlib.Core.Path.{subst}
use ose.Memory.Pages.{Frames}
use ose.Memory.Pages.Pool.{IsFrame, IsPool}
use ose.Memory.Pages.Supply.{used-IsFrame, IsZeroed}
use ose.Paging.{present, frame_of, entry_at, set_entry, entry}
use ose.Paging.Entries.{entry_fields, entry_at-set_entry, entry_at-set_entry_other}
use ose.Paging.Translate.{walk, walk_absent, walk_unmapped, walk_same}
use ose.Paging.Space.{HasTable, IsSmall, table, IsSpace, set_entry-IsPool}

-- A fresh frame is none that was held.
pub fresh_ne : (used : List ℕ) (p q : ℕ) → has p used ≡ false → has q used ≡ true → q ≢ p
fresh_ne used p q hp hq e = false≢true (sym hp ∙ subst (λ x. has x used ≡ true) e hq)

-- Entries of another frame than the zeroed one are as before.
pub entry_at-others :
    (m m' : Mem) (p t j : ℕ)
    → IsZeroed m m' p
    → p % 4096 ≡ 0
    → t % 4096 ≡ 0
    → j < 1024
    → t ≢ p
    → entry_at m' t j ≡ entry_at m t j
unfolding entry_at
entry_at-others m m' p t j z hp ht hj ne =
    z.others (t + j * 4)
      (elim (dec_lt t p) [ yes i ↦ inl (omega arith) | no i ↦ inr (omega arith) ])

pub entry_at-zeroed : (m m' : Mem) (p j : ℕ) → IsZeroed m m' p → j < 1024 → entry_at m' p j ≡ 0
unfolding entry_at
entry_at-zeroed m m' p j z hj = z.zeroed (p + j * 4) (omega arith) (omega arith)

-- A directory whose entry `i` is given a fresh table.
module _ {s s1 : Frames} {free used free1 : List ℕ} (pdt i p : ℕ) (v : IsSpace s free used pdt)
    (hi : i < 1024) (absent : present (entry_at s.ram pdt i) ≡ false)
    (v1 : IsPool s1 free1 (p ∷ used)) (z : IsZeroed s.ram s1.ram p) where
  abbrev pub added : Frames
  added = set_entry pdt i (entry true true (p / 0x1000)) s1

  fresh : (q : ℕ) → has q used ≡ true → q ≢ p
  fresh q h = fresh_ne used p q v1.used_distinct.0 h

  p-IsFrame : IsFrame s1.frame_edge p
  p-IsFrame = v1.used_frames.0

  pub new_entry : entry_at added.ram pdt i ≡ entry true true (p / 0x1000)
  new_entry =
      entry_at-set_entry pdt i (entry true true (p / 0x1000)) s1
        (omega (arith, entry_fields true true (p / 0x1000)))

  new_frame : frame_of (entry_at added.ram pdt i) ≡ p
  new_frame =
      let (a, b, c, d, e, f) = entry_fields true true (p / 0x1000) in
      let high = v1.edge_high in rw new_entry (omega (arith, e, p-IsFrame))

  pub other_entry : (j : ℕ) → j < 1024 → j ≢ i → entry_at added.ram pdt j ≡ entry_at s.ram pdt j
  other_entry j hj ne =
      let f = used-IsFrame pdt v.pool v.root in
      entry_at-set_entry_other pdt i pdt j (entry true true (p / 0x1000)) s1 (omega arith)
        (omega arith) hi hj (inr (λ e. ne (sym e)))
      ∙ entry_at-others s.ram s1.ram p pdt j z (omega (arith, p-IsFrame)) (omega arith) hj
          (fresh pdt v.root)

  pub added-IsSmall : (j : ℕ) → j < 1024 → IsSmall s.ram pdt j → IsSmall added.ram pdt j
  added-IsSmall j hj h = elim (ℕ_discrete j i) [
    | yes e ↦
        let (a, b, c, d, e', f) = entry_fields true true (p / 0x1000) in
        rw (e, new_entry, a, b) refl
    | no ne ↦ rw (other_entry j hj ne) h
  ]

  HasTable-old : (j : ℕ) → j < 1024 → j ≢ i → HasTable added.ram pdt j → HasTable s.ram pdt j
  HasTable-old j hj ne h = rw (← other_entry j hj ne) h

  pub has_more : (q : ℕ) → has q used ≡ true → has q (p ∷ used) ≡ true
  has_more q h = ground arith

  -- A table of the new directory is the fresh frame or one of the old tables.
  pub table_cases :
      (j : ℕ)
      → j < 1024
      → HasTable added.ram pdt j
      → ((j ≡ i) × (table added.ram pdt j ≡ p))
        ⊎ ((j ≢ i) × (table added.ram pdt j ≡ table s.ram pdt j) × HasTable s.ram pdt j)
  table_cases j hj h = elim (ℕ_discrete j i) [
    | yes e ↦ inl (e, rw e new_frame)
    | no ne ↦ inr (ne, rw (other_entry j hj ne) refl, HasTable-old j hj ne h)
  ]

  pub added-IsSpace : IsSpace added free1 (p ∷ used) pdt
  added-IsSpace = record {
    pool = set_entry-IsPool pdt i (entry true true (p / 0x1000)) v1 (ground (arith, v.root)) hi;
    root = ground (arith, v.root);
    tables_held = λ j hj h. elim (table_cases j hj h) [
      | inl (e, q) ↦ rw q (ground arith)
      | inr (ne, q, k) ↦
          subst (λ t. has t (p ∷ used) ≡ true) (sym q) (has_more _ (v.tables_held j hj k))
    ];
    tables_apart = λ j hj h. elim (table_cases j hj h) [
      | inl (e, q) ↦ rw q (λ e'. fresh pdt v.root (sym e'))
      | inr (ne, q, k) ↦ rw q (v.tables_apart j hj k)
    ];
    distinct = λ j l hj hl jl h k. elim (table_cases j hj h) [
      | inl (e, q) ↦ elim (table_cases l hl k) [
        | inl (e', q') ↦ absurd (jl (e ∙ sym e'))
        | inr (ne, q', k') ↦
            rw (q, q') (λ e'. fresh (table s.ram pdt l) (v.tables_held l hl k') (sym e'))
      ]
      | inr (ne, q, h') ↦ elim (table_cases l hl k) [
        | inl (e', q') ↦ rw (q, q') (fresh (table s.ram pdt j) (v.tables_held j hj h'))
        | inr (ne', q', k') ↦ rw (q, q') (v.distinct j l hj hl jl h' k')
      ]
    ];
  }

  zero_entry : (k : ℕ) → k < 1024 → entry_at added.ram p k ≡ 0
  zero_entry k hk =
      let f = used-IsFrame pdt v.pool v.root in
      entry_at-set_entry_other pdt i p k (entry true true (p / 0x1000)) s1 (omega arith)
        (omega (arith, p-IsFrame)) hi hk (inl (fresh pdt v.root))
      ∙ entry_at-zeroed s.ram s1.ram p k z hk

  pub old_entry :
      (j k : ℕ)
      → j < 1024
      → k < 1024
      → HasTable s.ram pdt j
      → entry_at added.ram (table s.ram pdt j) k ≡ entry_at s.ram (table s.ram pdt j) k
  old_entry j k hj hk h =
      let t = table s.ram pdt j in
      let held = v.tables_held j hj h in
      let f = used-IsFrame pdt v.pool v.root in
      let ft = used-IsFrame t v.pool held in
      entry_at-set_entry_other pdt i t k (entry true true (p / 0x1000)) s1 (omega arith)
        (omega arith) hi hk (inl (λ e. v.tables_apart j hj h (sym e)))
      ∙ entry_at-others s.ram s1.ram p t k z (omega (arith, p-IsFrame)) (omega arith) hk
          (fresh t held)

  -- The fresh table maps nothing, and the others map what they did.
  pub added-walk :
      (j k virtual : ℕ)
      → j < 1024
      → k < 1024
      → walk (entry_at added.ram pdt j) (entry_at added.ram (table added.ram pdt j) k) virtual
        ≡ walk (entry_at s.ram pdt j) (entry_at s.ram (table s.ram pdt j) k) virtual
  added-walk j k virtual hj hk = elim (ℕ_discrete j i) [
    | yes e ↦
        let (a, b, c, d, e', f) = entry_fields true true (p / 0x1000) in
        rw e (
          walk_unmapped _ _ virtual (rw new_entry a) (rw new_entry b)
            (rw (new_frame, zero_entry k hk) refl)
          ∙ sym (walk_absent _ _ virtual absent))
    | no ne ↦ rw (other_entry j hj ne) (walk_same _ _ virtual _ (λ h l. old_entry j k hj hk (h, l)))
  ]
