-- ===== src/Paging/Release.antt =====
-- What `free_vas` leaves of the pool of frames.
use ose.Prelude.{
  ℕ, zero, suc, ◌+◌, ◌%◌, ◌≤◌, ◌<◌, ◌≡◌, inl, inr, refl, sym, ◌∙◌, arith, true, false, Mem, List,
  [], ◌∷◌, ◌++◌, has, Distinct, length, Bool-cases, if◌then◌else◌,
}
use mathlib.Core.Bool.{false≢true}
use ose.Memory.Pages.{Frames, free_page}
use ose.Memory.Pages.Pool.{IsPool}
use ose.Memory.Pages.Supply.{supply, used-IsFrame}
use ose.Paging.{frame_of, entry_at, free_pagetable, free_tables, free_vas}
use ose.Paging.Frees.{
  free_all, free_all-append, free_all-IsPool, free_all-supply, entry_at-free_all, has-append,
  Distinct-append, pushed, without, Within, has-without,
}
use ose.Paging.Owned.{
  pages, leads, block, owned, block-Aligned, owned-Aligned, table-owned, frame_of-aligned,
  free_entries_lem,
}

-- One round of the loop of `free_vas` frees the frames under its entry.
block-freed :
    (d : ℕ → ℕ) (t : ℕ → ℕ → ℕ) (i : ℕ) (s : Frames)
    → (leads (d i) ≡ true → (l : ℕ) → l < 1024 → entry_at s.ram (frame_of (d i)) l ≡ t i l)
    → Distinct (block d t i)
    → (if leads (d i) then free_page (frame_of (d i)) (free_pagetable (frame_of (d i)) s) else s)
      ≡ free_all (block d t i) s
unfolding block free_pagetable free_all
block-freed d t i s same dist = elim (Bool-cases (leads (d i))) [
  | inr h ↦ rw h refl
  | inl h ↦
      let pt = frame_of (d i) in
      let ps = pages (t i) 1024 0 in
      let dist' : Distinct (ps ++ pt ∷ []) = rw h at dist in
      let (dp, dt, apart) = Distinct-append ps (pt ∷ []) dist' in
      let out : has pt ps ≡ false = elim (Bool-cases (has pt ps)) [
        | inr no_page ↦ no_page
        | inl page ↦ absurd (ground (arith, apart pt page))
      ] in
      rw
        (
          h,
          free_entries_lem (t i) 1024 0 pt s (omega arith) (frame_of-aligned (d i)) (same h) out,
          free_all-append ps (pt ∷ []) s,
        )
        refl
]

-- The loop from entry `i` on, when the entries of the directory and of its tables are `d` and `t`,
-- and no frame below them appears twice or is the directory.
free_tables_lem :
    (d : ℕ → ℕ) (t : ℕ → ℕ → ℕ) (k i pdt : ℕ) (s : Frames)
    → i + k ≤ 1024
    → pdt % 4096 ≡ 0
    → ((j : ℕ) → j < 1024 → entry_at s.ram pdt j ≡ d j)
    → ((j : ℕ)
        → i ≤ j
        → j < i + k
        → leads (d j) ≡ true
        → (l : ℕ) → l < 1024
        → entry_at s.ram (frame_of (d j)) l ≡ t j l)
    → Distinct (owned d t k i)
    → has pdt (owned d t k i) ≡ false
    → free_tables k i pdt s ≡ free_all (owned d t k i) s
unfolding free_tables owned free_all
free_tables_lem d t zero i pdt s h al dir tables dist out = refl
free_tables_lem d t (suc k) i pdt s h al dir tables dist out =
    let b = block d t i in
    let later = owned d t k (i + 1) in
    let (db, dl, apart) = Distinct-append b later dist in
    let split = has-append pdt b later in
    let s1 = free_all b s in
    let stay : (q l : ℕ)
        → q % 4096 ≡ 0
        → l < 1024
        → has q b ≡ false
        → entry_at s1.ram q l ≡ entry_at s.ram q l =
      λ q l qa hl qb. entry_at-free_all b q l s (block-Aligned d t i) qa hl qb in
    let apart' : (q : ℕ) → has q later ≡ true → has q b ≡ false = λ q hq.
      elim (Bool-cases (has q b)) [
        | inr e ↦ e
        | inl e ↦ absurd (false≢true (sym (apart q e) ∙ hq))
      ] in
    let round = block-freed d t i s (tables i (omega arith) (omega arith)) db in
    let rest =
      free_tables_lem d t k (i + 1) pdt s1 (omega arith) al
        (λ j hj. stay pdt j al hj (ground arith) ∙ dir j hj)
        (λ j lo hi lead l hl.
          stay (frame_of (d j)) l (frame_of-aligned (d j)) hl
            (apart' (frame_of (d j)) (table-owned d t k (i + 1) j lo (omega arith) lead))
          ∙ tables j (omega arith) (omega arith) lead l hl)
        dl (ground arith) in
    rw (dir i (omega arith), round, free_all-append b later s, free_tables) rest

-- The frames under the directory at `pdt`, the tables of the kernel under its entry 0 left out.
abbrev pub owned_by : Mem → ℕ → List ℕ
owned_by m pdt = owned (entry_at m pdt) (λ j. entry_at m (frame_of (entry_at m pdt j))) 1023 1

-- They are held, different, and not the directory.
pub record Owns (s : Frames) (free used : List ℕ) (pdt : ℕ) : Type 0 where
  pub pool : IsPool s free used
  pub root : has pdt used ≡ true
  pub held : Within (owned_by s.ram pdt) used
  pub distinct : Distinct (owned_by s.ram pdt)
  pub apart : has pdt (owned_by s.ram pdt) ≡ false

-- `free_vas` frees exactly the frames under the directory, in order.
pub free_vas-frees :
    {s : Frames} {free used : List ℕ} (pdt : ℕ)
    → Owns s free used pdt
    → free_vas pdt s ≡ free_all (owned_by s.ram pdt) s
unfolding free_vas
free_vas-frees {s} pdt o =
    let frame = used-IsFrame pdt o.pool o.root in
    free_tables_lem (entry_at s.ram pdt) (λ j. entry_at s.ram (frame_of (entry_at s.ram pdt j)))
      1023 1 pdt s (omega arith) (omega (arith, frame)) (λ j hj. refl) (λ j lo hi lead l hl. refl)
      o.distinct o.apart

-- When the frames below a directory are held, all different and none of them the directory, then
-- `free_vas` moves exactly them from the held frames to the free ones: the pool is well formed, its
-- supply grows by their number, any other frame that was held is held and has the entries that it
-- had. The frame of the directory is among these: it is not freed.
pub free_vas-IsPool :
    {s : Frames} {free used : List ℕ} (pdt : ℕ)
    → Owns s free used pdt
    → let ps = owned_by s.ram pdt in
      let s' = free_vas pdt s in
      IsPool s' (pushed ps free) (without ps used)
      × (supply s' (pushed ps free) ≡ supply s free + length ps)
      × ((q : ℕ) → has q ps ≡ false → has q (without ps used) ≡ has q used)
      × ((q j : ℕ)
          → has q used ≡ true
          → has q ps ≡ false
          → j < 1024
          → entry_at s'.ram q j ≡ entry_at s.ram q j)
      × (has pdt (without ps used) ≡ true)
free_vas-IsPool {s} {free} {used} pdt o =
    let ps = owned_by s.ram pdt in
    rw (free_vas-frees pdt o) (
      free_all-IsPool ps o.pool o.held o.distinct,
      free_all-supply ps s free,
      λ q out. has-without q ps used out,
      λ q j h out hj.
          let frame = used-IsFrame q o.pool h in
          entry_at-free_all ps q j s
            (owned-Aligned (entry_at s.ram pdt)
              (λ j. entry_at s.ram (frame_of (entry_at s.ram pdt j))) 1023 1)
            (omega (arith, frame)) hj out,
      has-without pdt ps used o.apart ∙ o.root,
    )
