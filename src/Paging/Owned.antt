-- ===== src/Paging/Owned.antt =====
-- The frames that an address space owns, and that `free_vas` frees exactly these, in order.
use ose.Prelude.{
  ℕ, zero, suc, ◌+◌, ◌%◌, ◌≤◌, ◌<◌, ◌≡◌, inl, inr, refl, sym, ◌∙◌, arith, Bool, true, false, not,
  ◌&&◌, List, [], ◌∷◌, ◌++◌, has, Bool-cases, if◌then◌else◌,
}
use native.Mathlib.Decide.{ℕ_discrete}
use mathlib.Core.Bool.{false≢true}
use ose.Memory.Pages.{Frames}
use ose.Paging.{present, page_size_flag, frame_of, entry_at, free_entries}
use ose.Paging.Frees.{free_all, Aligned, entry_at-free_all, has-append}

-- The pages under the `k` entries from `i` on of a table with the entries `e`.
unfoldable pub pages : (e : ℕ → ℕ) → (k i : ℕ) → List ℕ
pages e zero i = []
pages e (suc k) i =
    let later = pages e k (i + 1) in if present (e i) then frame_of (e i) ∷ later else later

-- Whether a directory entry leads to a table.
abbrev pub leads : ℕ → Bool
leads d = present d && not (page_size_flag d)

-- The frames under entry `i` of a directory with the entries `d`; entry `l` of the table under its
-- entry `j` is `t j l`.
unfoldable pub block : (d : ℕ → ℕ) → (t : ℕ → ℕ → ℕ) → ℕ → List ℕ
block d t i = if leads (d i) then pages (t i) 1024 0 ++ frame_of (d i) ∷ [] else []

-- The frames under the `k` entries from `i` on.
unfoldable pub owned : (d : ℕ → ℕ) → (t : ℕ → ℕ → ℕ) → (k i : ℕ) → List ℕ
owned d t zero i = []
owned d t (suc k) i = block d t i ++ owned d t k (i + 1)

Aligned-append : (xs ys : List ℕ) → Aligned xs → Aligned ys → Aligned (xs ++ ys)
Aligned-append xs ys hx hy q h = elim (Bool-cases (has q xs)) [
  | inl e ↦ hx q e
  | inr e ↦ hy q (ground (arith, has-append q xs ys))
]

Aligned-cons : (p : ℕ) (xs : List ℕ) → p % 4096 ≡ 0 → Aligned xs → Aligned (p ∷ xs)
Aligned-cons p xs hp hx q h = elim (ℕ_discrete p q) [
  | yes e ↦ rw (sym e) hp
  | no ne ↦ hx q (ground arith)
]

Aligned-nil : Aligned []
Aligned-nil q h = absurd (false≢true h)

pub frame_of-aligned : (e : ℕ) → frame_of e % 4096 ≡ 0
frame_of-aligned e = omega arith

pages-Aligned : (e : ℕ → ℕ) (k i : ℕ) → Aligned (pages e k i)
unfolding pages
pages-Aligned e zero i = Aligned-nil
pages-Aligned e (suc k) i = elim (Bool-cases (present (e i))) [
  | inl h ↦
      rw (h, pages)
        (Aligned-cons (frame_of (e i)) (pages e k (i + 1)) (frame_of-aligned (e i))
          (pages-Aligned e k (i + 1)))
  | inr h ↦ rw (h, pages) (pages-Aligned e k (i + 1))
]

pub block-Aligned : (d : ℕ → ℕ) (t : ℕ → ℕ → ℕ) (i : ℕ) → Aligned (block d t i)
unfolding block
block-Aligned d t i = elim (Bool-cases (leads (d i))) [
  | inl h ↦ rw h (
      Aligned-append (pages (t i) 1024 0) (frame_of (d i) ∷ []) (pages-Aligned (t i) 1024 0)
        (Aligned-cons (frame_of (d i)) [] (frame_of-aligned (d i)) Aligned-nil))
  | inr h ↦ rw h Aligned-nil
]

pub owned-Aligned : (d : ℕ → ℕ) (t : ℕ → ℕ → ℕ) (k i : ℕ) → Aligned (owned d t k i)
unfolding owned
owned-Aligned d t zero i = Aligned-nil
owned-Aligned d t (suc k) i =
    Aligned-append (block d t i) (owned d t k (i + 1)) (block-Aligned d t i)
      (owned-Aligned d t k (i + 1))

-- A table is among the frames of its entry, and of every run of entries with it.
pub table-block :
    (d : ℕ → ℕ) (t : ℕ → ℕ → ℕ) (i : ℕ)
    → leads (d i) ≡ true
    → has (frame_of (d i)) (block d t i) ≡ true
unfolding block
table-block d t i h =
    let a = has-append (frame_of (d i)) (pages (t i) 1024 0) (frame_of (d i) ∷ []) in
    rw h (ground (arith, a))

pub table-owned :
    (d : ℕ → ℕ) (t : ℕ → ℕ → ℕ) (k i j : ℕ)
    → i ≤ j
    → j < i + k
    → leads (d j) ≡ true
    → has (frame_of (d j)) (owned d t k i) ≡ true
unfolding owned
table-owned d t zero i j lo hi h = absurd (omega arith)
table-owned d t (suc k) i j lo hi h =
    let a = has-append (frame_of (d j)) (block d t i) (owned d t k (i + 1)) in
    elim (ℕ_discrete j i) [
      | yes e ↦
          let b = table-block d t j h in
          rw (sym e)
            (ground (arith, has-append (frame_of (d j)) (block d t j) (owned d t k (j + 1))))
      | no ne ↦
          let c = table-owned d t k (i + 1) j (omega arith) (omega arith) h in ground (arith, a)
    ]

-- Freeing the pages of a table that is none of them.
pub free_entries_lem :
    (e : ℕ → ℕ) (k i pt : ℕ) (s : Frames)
    → i + k ≤ 1024
    → pt % 4096 ≡ 0
    → ((j : ℕ) → j < 1024 → entry_at s.ram pt j ≡ e j)
    → has pt (pages e k i) ≡ false
    → free_entries k i pt s ≡ free_all (pages e k i) s
unfolding free_entries pages free_all
free_entries_lem e zero i pt s h al same out = refl
free_entries_lem e (suc k) i pt s h al same out = elim (Bool-cases (present (e i))) [
  | inl p ↦
      let here = frame_of (e i) in
      let out' : has pt (here ∷ pages e k (i + 1)) ≡ false = rw (p, pages) at out in
      let next = free_all (here ∷ []) s in
      let stay : (j : ℕ) → j < 1024 → entry_at next.ram pt j ≡ e j = λ j hj.
        entry_at-free_all (here ∷ []) pt j s
          (Aligned-cons here [] (frame_of-aligned (e i)) Aligned-nil) al hj (ground arith)
        ∙ same j hj in
      rw (same i (omega arith), p, pages, free_entries, free_all)
        (free_entries_lem e k (i + 1) pt next (omega arith) al stay (ground arith))
  | inr p ↦
      let out' : has pt (pages e k (i + 1)) ≡ false = rw (p, pages) at out in
      rw (same i (omega arith), p, pages, free_entries)
        (free_entries_lem e k (i + 1) pt s (omega arith) al same out')
]
