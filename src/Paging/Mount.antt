-- ===== src/Paging/Mount.antt =====
-- What mounting a page does to an address space.
use ose.Prelude.{
  ℕ, ◌+◌, ◌*◌, ◌/◌, ◌%◌, ◌≤◌, ◌<◌, ◌≡◌, ◌≢◌, ◌⊎◌, inl, inr, refl, sym, ◌∙◌, ap, arith, Bool, true,
  false, List, ◌∷◌, has, Bool-cases, ◌&&◌, some,
}
use ose.Prelude.Outcome.{ok}
use native.Mathlib.Decide.{ℕ_discrete}
use ose.Memory.Pages.{Frames}
use ose.Memory.Pages.Pool.{rest}
use ose.Memory.Pages.Supply.{used-IsFrame, supply, calloc_page-supply}
use ose.Paging.{
  present, frame_of, entry_at, set_entry, entry, directory_index, table_index, ensure_table,
  mount_page,
}
use ose.Paging.Entries.{entry_fields, entry_at-set_entry, entry_at-set_entry_other, writable, user}
use ose.Paging.Translate.{walk, translate, walk_page, walk_same, mapping_eq}
use ose.Paging.Space.{HasTable, IsSmall, table, IsSpace, set_entry-supply, set_entry-table}
use ose.Paging.Table.{
  other_entry, old_entry, table_cases, added, new_entry, has_more, added-IsSmall, added-IsSpace,
  added-walk,
}

-- A later state of a space, in which directory entry `i` may have changed: it is a space still, all
-- frames that were held are, one frame at most was taken, for a table, and the other directory
-- entries and their tables are as before.
pub record Extends (s : Frames) (free used : List ℕ) (pdt i : ℕ) (s' : Frames)
    (free' used' : List ℕ) : Type 0 where
  pub space : IsSpace s' free' used' pdt
  pub held : (p : ℕ) → has p used ≡ true → has p used' ≡ true
  pub small : (j : ℕ) → j < 1024 → IsSmall s.ram pdt j → IsSmall s'.ram pdt j
  pub cost : supply s free ≤ supply s' free' + 1
  pub directory : (j : ℕ) → j < 1024 → j ≢ i → entry_at s'.ram pdt j ≡ entry_at s.ram pdt j
  pub kept :
      (j l : ℕ)
      → j < 1024
      → l < 1024
      → j ≢ i
      → HasTable s.ram pdt j
      → entry_at s'.ram (table s.ram pdt j) l ≡ entry_at s.ram (table s.ram pdt j) l
  pub tables :
      (j : ℕ)
      → j < 1024
      → HasTable s'.ram pdt j
      → (HasTable s.ram pdt j × (table s'.ram pdt j ≡ table s.ram pdt j))
        ⊎ (has (table s'.ram pdt j) used ≡ false)

-- While there is a supply of frames, a directory entry is given a table if it has none; the
-- translations stay.
pub ensure_table-Extends :
    {s : Frames} {free used : List ℕ} (pdt i : ℕ)
    → IsSpace s free used pdt
    → 0 < supply s free
    → i < 1024
    → IsSmall s.ram pdt i
    → (s' : Frames) × (free' : List ℕ) × (used' : List ℕ) × (ensure_table pdt i s ≡ ok s')
      × Extends s free used pdt i s' free' used'
      × HasTable s'.ram pdt i
      × ((j k virtual : ℕ)
          → j < 1024
          → k < 1024
          → walk (entry_at s'.ram pdt j) (entry_at s'.ram (table s'.ram pdt j) k) virtual
            ≡ walk (entry_at s.ram pdt j) (entry_at s.ram (table s.ram pdt j) k) virtual)
unfolding ensure_table set_entry
ensure_table-Extends {s} {free} {used} pdt i v h hi small =
    elim (Bool-cases (present (entry_at s.ram pdt i))) [
      | inl e ↦ rw e (
        s,
        free,
        used,
        refl,
        record {
          space = v;
          held = λ p hp. hp;
          small = λ j hj h. h;
          cost = omega arith;
          directory = λ j hj ne. refl;
          kept = λ j l hj hl ne t. refl;
          tables = λ j hj t. inl (t, refl);
        },
        (e, rw e at small),
        λ j k virtual hj hk. refl,
      )
      | inr e ↦
          let (p, s1, eq, v1, z, less) = calloc_page-supply v.pool h in
          let (a, b, c, d, e', f) = entry_fields true true (p / 0x1000) in
          let d' = new_entry pdt i p v hi e v1 z in
          rw (e, eq)
            (
              added pdt i p v hi e v1 z,
              rest free,
              p ∷ used,
              refl,
              record {
                space = added-IsSpace pdt i p v hi e v1 z;
                held = has_more pdt i p v hi e v1 z;
                small = added-IsSmall pdt i p v hi e v1 z;
                cost = omega (arith, less);
                directory = other_entry pdt i p v hi e v1 z;
                kept = λ j l hj hl ne t. old_entry pdt i p v hi e v1 z j l hj hl t;
                tables = λ j hj t. elim (table_cases pdt i p v hi e v1 z j hj t) [
                  | inl (same, q) ↦ inr (rw q v1.used_distinct.0)
                  | inr (ne, q, o) ↦ inl (o, q)
                ];
              },
              (rw d' a, rw d' b),
              λ j k virtual hj hk. added-walk pdt i p v hi e v1 z j k virtual hj hk,
            )
    ]

-- Storing an entry `e` at place `k` of the table of directory entry `i`.
module _ {s : Frames} {free used : List ℕ} (pdt i k e : ℕ) (v : IsSpace s free used pdt)
    (hi : i < 1024) (hk : k < 1024) (h : HasTable s.ram pdt i) (he : e < 4294967296) where
  abbrev stored : Frames
  stored = set_entry (table s.ram pdt i) k e s

  same_directory : (j : ℕ) → j < 1024 → entry_at stored.ram pdt j ≡ entry_at s.ram pdt j
  same_directory = (set_entry-table pdt i k e v hi hk h).1

  -- The other tables keep their entries.
  stored_other :
      (j l : ℕ)
      → j < 1024
      → l < 1024
      → j ≢ i
      → HasTable s.ram pdt j
      → entry_at stored.ram (table s.ram pdt j) l ≡ entry_at s.ram (table s.ram pdt j) l
  stored_other j l hj hl ne o =
      let t = table s.ram pdt i in
      let t' = table s.ram pdt j in
      let ft = used-IsFrame t v.pool (v.tables_held i hi h) in
      let ft' = used-IsFrame t' v.pool (v.tables_held j hj o) in
      entry_at-set_entry_other t k t' l e s (omega arith) (omega arith) hk hl
        (inl (v.distinct i j hi hj (λ q. ne (sym q)) h o))

  stored-walk_self :
      (virtual : ℕ)
      → walk (entry_at stored.ram pdt i) (entry_at stored.ram (table stored.ram pdt i) k) virtual
        ≡ walk (entry_at s.ram pdt i) e virtual
  stored-walk_self virtual =
      rw (same_directory i hi, entry_at-set_entry (table s.ram pdt i) k e s he) refl

  stored-walk_other :
      (j l virtual : ℕ)
      → j < 1024
      → l < 1024
      → (j ≢ i) ⊎ (l ≢ k)
      → walk (entry_at stored.ram pdt j) (entry_at stored.ram (table stored.ram pdt j) l) virtual
        ≡ walk (entry_at s.ram pdt j) (entry_at s.ram (table s.ram pdt j) l) virtual
  stored-walk_other j l virtual hj hl ne = rw (same_directory j hj) (
      walk_same _ _ virtual _ (λ p q.
        let t = table s.ram pdt i in
        let t' = table s.ram pdt j in
        let ft = used-IsFrame t v.pool (v.tables_held i hi h) in
        let ft' = used-IsFrame t' v.pool (v.tables_held j hj (p, q)) in
        entry_at-set_entry_other t k t' l e s (omega arith) (omega arith) hk hl
          (elim (ℕ_discrete j i) [
            | yes same ↦ inr (λ lk. elim ne [ inl a ↦ a same | inr b ↦ b (sym lk) ])
            | no differ ↦ inl (v.distinct i j hi hj (λ x. differ (sym x)) h (p, q))
          ])))

-- In an address space, while there is a supply of frames and the address is not in a page of 4 MB,
-- `mount_page` returns; the space stays well formed and all frames that were held still are, the
-- page of the address is mapped to the physical page with the rights given, as far as its directory
-- entry grants them, and every other page is mapped as before.
pub mount_page-translate :
    {s : Frames} {free used : List ℕ} (pdt virtual physical : ℕ) (w u : Bool)
    → IsSpace s free used pdt
    → 0 < supply s free
    → virtual < 4294967296
    → physical < 4294967296
    → IsSmall s.ram pdt (directory_index virtual)
    → (s' : Frames) × (free' : List ℕ) × (used' : List ℕ) × (mount_page pdt virtual physical w u s
        ≡ ok s')
      × Extends s free used pdt (directory_index virtual) s' free' used'
      × (translate s'.ram pdt virtual
          ≡ some (record {
            physical = physical / 0x1000 * 0x1000 + virtual % 0x1000;
            may_write = writable (entry_at s'.ram pdt (directory_index virtual)) && w;
            may_access = user (entry_at s'.ram pdt (directory_index virtual)) && u;
          }))
      × ((other : ℕ)
          → other < 4294967296
          → other / 0x1000 ≢ virtual / 0x1000
          → translate s'.ram pdt other ≡ translate s.ram pdt other)
unfolding mount_page
mount_page-translate {s} {free} {used} pdt virtual physical w u v h hv hp small =
    let i = directory_index virtual in
    let k = table_index virtual in
    let hi : i < 1024 = omega arith in
    let hk : k < 1024 = omega arith in
    let e = entry w u (physical / 0x1000) in
    let (a, b, c, d, f, e32) = entry_fields w u (physical / 0x1000) in
    let (s1, free1, used1, eq, x, t, walks) = ensure_table-Extends pdt i v h hi small in
    let v1 = x.space in
    let same = same_directory pdt i k e v1 hi hk t e32 in
    let physical_page : frame_of e ≡ physical / 0x1000 * 0x1000 = omega (arith, f) in
    rw (eq, t.1)
      (
        stored pdt i k e v1 hi hk t e32,
        free1,
        used1,
        refl,
        record {
          space = (set_entry-table pdt i k e v1 hi hk t).0;
          held = x.held;
          small = λ j hj l. rw (same j hj) (x.small j hj l);
          directory = λ j hj ne. same j hj ∙ x.directory j hj ne;
          kept = λ j l hj hl ne old.
              let frame = x.directory j hj ne in
              let there : HasTable s1.ram pdt j = rw frame old in
              let kept1 = stored_other pdt i k e v1 hi hk t e32 j l hj hl ne there in
              rw frame at kept1 ∙ x.kept j l hj hl ne old;
          tables = λ j hj new. rw (same j hj) (x.tables j hj (rw (same j hj) at new));
          cost = rw (set_entry-supply (table s1.ram pdt i) k e s1 free1) x.cost;
        },
        stored-walk_self pdt i k e v1 hi hk t e32 virtual
            ∙ walk_page _ e virtual t.0 t.1 a
            ∙ ap some
                (mapping_eq _ physical_page (rw (same i hi, c) refl) (rw (same i hi, d) refl)),
        λ other ho ne.
            stored-walk_other pdt i k e v1 hi hk t e32 (directory_index other) (table_index other)
              other (omega arith) (omega arith)
              (elim (ℕ_discrete (directory_index other) i) [
                | yes same ↦ inr (λ tk. ne (omega arith))
                | no differ ↦ inl differ
              ])
            ∙ walks (directory_index other) (table_index other) other (omega arith) (omega arith),
      )
