-- ===== src/Paging/Space.antt =====
-- An address space in the pool of frames: its directory and its page tables are frames that are
-- held, and no two of them are the same.
use ose.Prelude.{ℕ, ◌+◌, ◌*◌, ◌<◌, ◌≡◌, ◌≢◌, inl, refl, arith, true, false, Mem, List, has, ◌&&◌}
use ose.Memory.Pages.{Frames}
use ose.Memory.Pages.Pool.{IsPool}
use ose.Memory.Pages.Supply.{used-IsFrame, supply, store32-IsPool}
use ose.Paging.{present, page_size_flag, frame_of, entry_at, set_entry}
use ose.Paging.Entries.{entry_at-set_entry_other}

-- Entry `i` of the directory leads to a page table.
abbrev pub HasTable : Mem → ℕ → ℕ → Type 0
HasTable m pdt i = (present (entry_at m pdt i) ≡ true) × (page_size_flag (entry_at m pdt i) ≡ false)

-- Entry `i` does not map a page of 4 MB.
abbrev pub IsSmall : Mem → ℕ → ℕ → Type 0
IsSmall m pdt i = (present (entry_at m pdt i) && page_size_flag (entry_at m pdt i)) ≡ false

abbrev pub table : Mem → ℕ → ℕ → ℕ
table m pdt i = frame_of (entry_at m pdt i)

pub record IsSpace (s : Frames) (free used : List ℕ) (pdt : ℕ) : Type 0 where
  pub pool : IsPool s free used
  pub root : has pdt used ≡ true
  pub tables_held : (i : ℕ) → i < 1024 → HasTable s.ram pdt i → has (table s.ram pdt i) used ≡ true
  pub tables_apart : (i : ℕ) → i < 1024 → HasTable s.ram pdt i → table s.ram pdt i ≢ pdt
  pub distinct :
      (i j : ℕ)
      → i < 1024
      → j < 1024
      → i ≢ j
      → HasTable s.ram pdt i
      → HasTable s.ram pdt j
      → table s.ram pdt i ≢ table s.ram pdt j

-- A store of an entry to a frame that is held.
pub set_entry-IsPool :
    {s : Frames} {free used : List ℕ} (t i e : ℕ)
    → IsPool s free used
    → has t used ≡ true
    → i < 1024
    → IsPool (set_entry t i e s) free used
unfolding set_entry
set_entry-IsPool {s} t i e v h hi =
    let f = used-IsFrame t v h in
    store32-IsPool t (t + i * 4) e v h (omega arith) (omega arith) (omega arith)

pub set_entry-supply :
    (t i e : ℕ) (s : Frames) (free : List ℕ) → supply (set_entry t i e s) free ≡ supply s free
unfolding set_entry
set_entry-supply t i e s free = refl

-- A space stays one under writes that leave the entries of its directory.
pub same_directory-IsSpace :
    {s s' : Frames} {free free' used used' : List ℕ} (pdt : ℕ)
    → IsSpace s free used pdt
    → IsPool s' free' used'
    → ((p : ℕ) → has p used ≡ true → has p used' ≡ true)
    → ((i : ℕ) → i < 1024 → entry_at s'.ram pdt i ≡ entry_at s.ram pdt i)
    → IsSpace s' free' used' pdt
same_directory-IsSpace {s} {s'} pdt v pool more same = record {
  pool = pool;
  root = more pdt v.root;
  tables_held = λ i hi h.
      rw (same i hi) (more (table s.ram pdt i) (v.tables_held i hi (rw (same i hi) at h)));
  tables_apart = λ i hi h. rw (same i hi) (v.tables_apart i hi (rw (same i hi) at h));
  distinct = λ i j hi hj ne h k.
      rw (same i hi, same j hj)
        (v.distinct i j hi hj ne (rw (same i hi) at h) (rw (same j hj) at k));
}

-- Storing an entry in one of the page tables leaves the directory.
pub set_entry-table :
    {s : Frames} {free used : List ℕ} (pdt i k e : ℕ)
    → IsSpace s free used pdt
    → i < 1024
    → k < 1024
    → HasTable s.ram pdt i
    → IsSpace (set_entry (table s.ram pdt i) k e s) free used pdt
      × ((j : ℕ)
          → j < 1024
          → entry_at (set_entry (table s.ram pdt i) k e s).ram pdt j ≡ entry_at s.ram pdt j)
set_entry-table {s} {used = used} pdt i k e v hi hk h =
    let t = table s.ram pdt i in
    let held = v.tables_held i hi h in
    let ft = used-IsFrame t v.pool held in
    let fp = used-IsFrame pdt v.pool v.root in
    let same : (j : ℕ) → j < 1024 → entry_at (set_entry t k e s).ram pdt j ≡ entry_at s.ram pdt j =
      λ j hj.
        entry_at-set_entry_other t k pdt j e s (omega arith) (omega arith) hk hj
          (inl (v.tables_apart i hi h)) in
    (same_directory-IsSpace pdt v (set_entry-IsPool t k e v.pool held hk) (λ p hp. hp) same, same)
