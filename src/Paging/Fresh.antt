-- ===== src/Paging/Fresh.antt =====
-- A new address space is one whose pages are its own.
use ose.Prelude.{
  ℕ, ◌+◌, ◌/◌, ◌%◌, ◌<◌, ◌≡◌, ◌≢◌, ◌⊎◌, inl, inr, refl, sym, ◌∙◌, ap, arith, true, false, ◌&&◌,
  List, ◌∷◌, has, Bool-cases, ltb, leb, Option, some, none,
}
use native.Mathlib.Decide.{ℕ_discrete}
use mathlib.Core.Bool.{false≢true}
use mathlib.Core.Path.{subst}
use ose.Memory.Pages.{Frames}
use ose.Memory.Pages.Pool.{IsPool}
use ose.Memory.Pages.Supply.{used-IsFrame}
use ose.Paging.{present, entry_at}
use ose.Paging.Entries.{entry_fields}
use ose.Paging.Translate.{Mapping, translate, is_some}
use ose.Paging.Space.{HasTable, IsSmall, table, IsSpace}
use ose.Paging.Table.{fresh_ne}
use ose.Paging.Create.{IsCreated, IsCreated-translate, new_mapping, frame_of-entry}
use ose.Paging.Owner.{IsPage, IsOwner}

-- The only page of a new space above the kernel is the one of the stack.
new_page :
    (page a : ℕ) (x : Mapping)
    → IsPage a
    → new_mapping page a ≡ some x
    → (a ≡ 0x7FF000) × (x.physical ≡ page)
new_page page a x (lo, hi, al) h =
    let high : ltb a 0x400000 ≡ false = ground arith in
    elim (Bool-cases (leb 0x7FF000 a && ltb a 0x800000)) [
      | inl e ↦
          let here : a ≡ 0x7FF000 = ground arith in
          let physical : page + a % 0x1000 ≡ page = omega arith in
          let top : some
                (record { physical = page + a % 0x1000; may_write = true; may_access = true })
              ≡ some x =
            rw (high, e) at h in
          (here, sym (some_physical _ x top) ∙ physical)
      | inr e ↦ let nothing : none ≡ some x = rw (high, e) at h in absurd (none_some x nothing)
    ]
  where
    some_physical : (y z : Mapping) → some y ≡ some z → y.physical ≡ z.physical
    some_physical y z e = cc

    none_some : (y : Mapping) → ¬ (◌≡◌ {A = Option Mapping} none (some y))
    none_some y e = false≢true (ap is_some e)

module _ (s : Frames) (free used : List ℕ) (pdt st page kt : ℕ)
    (v : IsPool s free (page ∷ st ∷ pdt ∷ used)) (c : IsCreated s.ram pdt st page kt)
    (held : has kt used ≡ true) where
  abbrev all_held : List ℕ
  all_held = page ∷ st ∷ pdt ∷ used

  -- The entries of its directory.
  first_two : (j : ℕ) → j < 1024 → HasTable s.ram pdt j → (j ≡ 0) ⊎ (j ≡ 1)
  first_two j hj h = elim (ℕ_discrete j 0) [
    | yes z ↦ inl z
    | no nz ↦ elim (ℕ_discrete j 1) [
      | yes o ↦ inr o
      | no no' ↦
          let gone : present (entry_at s.ram pdt j) ≡ false =
            rw (c.empty j (omega arith) hj) refl in
          absurd (false≢true (sym gone ∙ h.0))
    ]
  ]

  table_0 : table s.ram pdt 0 ≡ kt
  table_0 =
      let f = used-IsFrame kt v (ground (arith, held)) in
      let high = v.edge_high in
      rw c.kernel (frame_of-entry kt (omega (arith, f)) (omega (arith, f, high)))

  table_1 : table s.ram pdt 1 ≡ st
  table_1 =
      let f = v.used_frames.1.0 in
      let high = v.edge_high in
      rw c.stack (frame_of-entry st (omega (arith, f)) (omega (arith, f, high)))

  out : (has page used ≡ false) × (has st used ≡ false) × (has pdt used ≡ false)
  out =
      let d = v.used_distinct in
      (ground (arith, d.0), ground (arith, d.1.0), ground (arith, d.1.1.0))

  apart : (page ≢ st) × (page ≢ pdt) × (st ≢ pdt) × (page ≢ kt) × (st ≢ kt) × (pdt ≢ kt)
  apart =
      let d = v.used_distinct in
      (
        λ e. ground (arith, d.0),
        λ e. ground (arith, d.0),
        λ e. ground (arith, d.1.0),
        λ e. fresh_ne used page kt out.0 held (sym e),
        λ e. fresh_ne used st kt out.1 held (sym e),
        λ e. fresh_ne used pdt kt out.2 held (sym e),
      )

  -- Whatever holds of the kernel's table and of the stack's holds of every table.
  by_table :
      (P : ℕ → Type 0) (j : ℕ)
      → P kt
      → P st
      → j < 1024
      → HasTable s.ram pdt j
      → P (table s.ram pdt j)
  by_table P j pk ps hj h = elim (first_two j hj h) [
    | inl e ↦ subst P (sym (ap (table s.ram pdt) e ∙ table_0)) pk
    | inr e ↦ subst P (sym (ap (table s.ram pdt) e ∙ table_1)) ps
  ]

  created-IsSpace : IsSpace s free all_held pdt
  created-IsSpace = record {
    pool = v;
    root = ground arith;
    tables_held =
        λ j. by_table (λ q. has q all_held ≡ true) j (ground (arith, held)) (ground arith);
    tables_apart = λ j. by_table (λ q. q ≢ pdt) j (λ e. apart.5 (sym e)) apart.2;
    distinct = λ i j hi hj ne h k. elim (first_two i hi h) [
      | inl e ↦ elim (first_two j hj k) [
        | inl e' ↦ absurd (ne (e ∙ sym e'))
        | inr e' ↦ rw (e, e', table_0, table_1) (λ q. apart.4 (sym q))
      ]
      | inr e ↦ elim (first_two j hj k) [
        | inl e' ↦ rw (e, e', table_0, table_1) apart.4
        | inr e' ↦ absurd (ne (e ∙ sym e'))
      ]
    ];
  }

  created_page :
      (a : ℕ) (x : Mapping)
      → IsPage a
      → translate s.ram pdt a ≡ some x
      → (a ≡ 0x7FF000) × (x.physical ≡ page)
  created_page a x pa h =
      let g = v.used_frames.0 in
      let f = v.used_frames.1.0 in
      let k = used-IsFrame kt v (ground (arith, held)) in
      let high = v.edge_high in
      let maps =
        IsCreated-translate s.ram pdt st page kt a c (omega (arith, f), omega (arith, f, high))
          (omega (arith, g), omega (arith, g, high)) (omega (arith, k), omega (arith, k, high))
          pa.1 in
      new_page page a x pa (sym maps ∙ h)

  IsSmall-entry : (j : ℕ) → j < 1024 → IsSmall s.ram pdt j
  IsSmall-entry j hj = elim (ℕ_discrete j 0) [
    | yes z ↦ let f = entry_fields true true (kt / 0x1000) in rw (z, c.kernel, f.0, f.1) refl
    | no nz ↦ elim (ℕ_discrete j 1) [
      | yes o ↦ let f = entry_fields true true (st / 0x1000) in rw (o, c.stack, f.0, f.1) refl
      | no no' ↦ rw (c.empty j (omega arith) hj) refl
    ]
  ]

  pub created-IsOwner : IsOwner s free all_held pdt
  created-IsOwner = record {
    space = created-IsSpace;
    small = IsSmall-entry;
    held = λ a x pa h. rw (created_page a x pa h).1 (ground arith);
    apart = λ a x pa h. rw (created_page a x pa h).1 apart.1;
    no_table = λ a j x pa hj h k.
        rw (created_page a x pa h).1 (by_table (λ q. page ≢ q) j apart.3 apart.0 hj k);
    distinct = λ a b x y pa pb ne h k.
        absurd (ne ((created_page a x pa h).0 ∙ sym (created_page b y pb k).0));
  }
