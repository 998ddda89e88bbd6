-- ===== src/Paging/Translate.antt =====
-- How the processor translates an address, without the caching of translations.
use ose.Prelude.{
  ℕ, ◌+◌, ◌*◌, ◌/◌, ◌%◌, ◌≡◌, arith, Bool, true, false, if◌then◌else◌, ◌&&◌, Mem, Option, none,
  some, refl, ap, ◌∙◌, Bool-cases, inl, inr,
}
use ose.Memory.Pages.{Frames}
use ose.Paging.{
  entry, present, page_size_flag, frame_of, entry_at, directory_index, table_index, is_mounted,
}
use ose.Paging.Entries.{writable, user, entry_fields}

-- What an address is mapped to, and whether user code may write and may access at all.
pub record Mapping : Type 0 where
  pub physical : ℕ
  pub may_write : Bool
  pub may_access : Bool

-- The mapping by an entry `d` of the directory and, unless `d` maps 4 MB by itself, an entry `e` of
-- a page table.
unfoldable pub walk : (d e virtual : ℕ) → Option Mapping
walk d e virtual =
    if present d
    then (if page_size_flag d
        then some (record {
          physical = d / 0x400000 * 0x400000 + virtual % 0x400000;
          may_write = writable d;
          may_access = user d;
        })
        else if present e
        then some (record {
          physical = frame_of e + virtual % 0x1000;
          may_write = writable d && writable e;
          may_access = user d && user e;
        })
        else none)
    else none

abbrev pub translate : Mem → (pdt virtual : ℕ) → Option Mapping
translate m pdt virtual =
    walk (entry_at m pdt (directory_index virtual))
      (entry_at m (frame_of (entry_at m pdt (directory_index virtual))) (table_index virtual))
      virtual

abbrev pub is_some : Option Mapping → Bool
is_some none = false
is_some (some x) = true

-- `is_mounted` holds exactly for the addresses that the processor translates.
pub is_mounted-translate :
    (pdt virtual : ℕ) (s : Frames)
    → is_mounted pdt virtual s ≡ is_some (translate s.ram pdt virtual)
unfolding is_mounted walk
is_mounted-translate pdt virtual s = ground arith

module _ (d e virtual : ℕ) where
  pub walk_absent : present d ≡ false → walk d e virtual ≡ none
  unfolding walk
  walk_absent h = rw h refl

  pub walk_unmapped :
      present d ≡ true → page_size_flag d ≡ false → present e ≡ false → walk d e virtual ≡ none
  unfolding walk
  walk_unmapped h k l = rw (h, k, l) refl

  pub walk_page :
      present d ≡ true
      → page_size_flag d ≡ false
      → present e ≡ true
      → walk d e virtual
        ≡ some (record {
          physical = frame_of e + virtual % 0x1000;
          may_write = writable d && writable e;
          may_access = user d && user e;
        })
  unfolding walk
  walk_page h k l = rw (h, k, l) refl

  -- The entry of the table is read only if `d` leads to one.
  pub walk_same :
      (e' : ℕ)
      → (present d ≡ true → page_size_flag d ≡ false → e' ≡ e)
      → walk d e' virtual ≡ walk d e virtual
  unfolding walk
  walk_same e' same = elim (Bool-cases (present d)) [
    | inr p ↦ rw p refl
    | inl p ↦ elim (Bool-cases (page_size_flag d)) [
      | inl q ↦ rw (p, q) refl
      | inr q ↦ rw (same p q) refl
    ]
  ]

pub mapping_eq :
    {p p' : ℕ} {w w' u u' : Bool} (n : ℕ)
    → p ≡ p'
    → w ≡ w'
    → u ≡ u'
    → ◌≡◌ {A = Mapping}
        (record { physical = p + n; may_write = w; may_access = u })
        (record { physical = p' + n; may_write = w'; may_access = u' })
mapping_eq n a b c = rw (a, b, c) refl

-- A walk through two entries that the code writes.
pub walk_entries :
    (w u : Bool) (a b virtual : ℕ)
    → walk (entry true true a) (entry w u b) virtual
      ≡ some (record {
        physical = b % 0x100000 * 0x1000 + virtual % 0x1000;
        may_write = w;
        may_access = u;
      })
walk_entries w u a b virtual =
    let (h, k, l, l', x, y) = entry_fields true true a in
    let (h2, k2, n, n', x2, y2) = entry_fields w u b in
    walk_page (entry true true a) (entry w u b) virtual h k h2
    ∙ ap some (mapping_eq (virtual % 0x1000) x2 (rw (l, n) refl) (rw (l', n') refl))
