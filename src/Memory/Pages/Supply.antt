-- ===== src/Memory/Pages/Supply.antt =====
-- `malloc_page` and `calloc_page` while there are frames left, and writes to frames that are held.
use ose.Prelude.{
  ℕ, ◌+◌, ◌-◌, ◌/◌, ◌%◌, ◌≤◌, ◌<◌, ◌≡◌, ◌≢◌, ◌⊎◌, inl, inr, refl, sym, ap, ◌∙◌, arith, Mem, List,
  [], ◌∷◌, length, has, All-has, true,
}
use ose.Prelude.Outcome.{ok, panic}
use native.Mathlib.Decide.{dec_lt}
use mathlib.Core.Bool.{false≢true}
use mathlib.Core.Path.{subst}
use ose.Memory.Bytes.{memzero}
use ose.Memory.Words.{load32, store32, load32-store32_ne, load32-memzero_in, load32-memzero_out}
use ose.Memory.Pages.{Frames, page_space_end, page_size, malloc_page, calloc_page}
use ose.Memory.Pages.Pool.{IsFrame, IsPool, rest, malloc_page-IsPool, Chain-frame}

-- Frames that `malloc_page` can still hand out: those on the free list, and those from the edge to
-- the last, which it never hands out.
abbrev pub supply : Frames → List ℕ → ℕ
supply s free = length free + (page_space_end - page_size - s.frame_edge) / page_size

pub used-IsFrame :
    {s : Frames} {free used : List ℕ} (p : ℕ)
    → IsPool s free used
    → has p used ≡ true
    → IsFrame s.frame_edge p
used-IsFrame {s} {free} {used} p v h = All-has (IsFrame s.frame_edge) p used v.used_frames h

-- Writing words outside the free frames keeps the pool.
pub write-IsPool :
    {s : Frames} {free used : List ℕ} (m : Mem)
    → IsPool s free used
    → ((p : ℕ) → has p free ≡ true → load32 m p ≡ load32 s.ram p)
    → IsPool (record s { ram = m }) free used
write-IsPool {s} {free} m v same = record {
  edge_low = v.edge_low;
  edge_high = v.edge_high;
  edge_aligned = v.edge_aligned;
  chain = Chain-frame s.ram m s.frame_free_list free same v.chain;
  free_frames = v.free_frames;
  used_frames = v.used_frames;
  free_distinct = v.free_distinct;
  used_distinct = v.used_distinct;
  apart = v.apart;
  count = v.count;
}

free-ne-used :
    {s : Frames} {free used : List ℕ} (p q : ℕ)
    → IsPool s free used
    → has p used ≡ true
    → has q free ≡ true
    → p ≢ q
free-ne-used {used = used} p q v hp hq e =
    false≢true (sym (v.apart q hq) ∙ subst (λ x. has x used ≡ true) e hp)

-- A word stored in a frame that is held.
pub store32-IsPool :
    {s : Frames} {free used : List ℕ} (t a v : ℕ)
    → IsPool s free used
    → has t used ≡ true
    → a % 4 ≡ 0
    → t ≤ a
    → a < t + page_size
    → IsPool (record s { ram = store32 s.ram a v }) free used
store32-IsPool {s} {free} t a v i h ha ta at = write-IsPool (store32 s.ram a v) i λ q hq.
    let ft = used-IsFrame t i h in
    let fq = All-has (IsFrame s.frame_edge) q free i.free_frames hq in
    let ne = free-ne-used t q i h hq in load32-store32_ne s.ram a q v ha (omega arith) (omega arith)

-- While there is a supply, `malloc_page` returns, and the supply falls by one.
pub malloc_page-supply :
    {s : Frames} {free used : List ℕ}
    → IsPool s free used
    → 0 < supply s free
    → (p : ℕ) × (s' : Frames) × (malloc_page s ≡ ok (p, s'))
      × IsPool s' (rest free) (p ∷ used)
      × (s'.ram ≡ s.ram)
      × (supply s' (rest free) + 1 ≡ supply s free)
unfolding malloc_page
malloc_page-supply {s} {free = []} v h =
    let next : Frames = record s { frame_edge = s.frame_edge + page_size } in
    let e : malloc_page s ≡ ok (s.frame_edge, next) = ground arith in
    let (v', same) = malloc_page-IsPool v e in (s.frame_edge, next, e, v', same, omega arith)
malloc_page-supply {s} {free = q ∷ qs} v h =
    let next : Frames = record s { frame_free_list = load32 s.ram q } in
    let e : malloc_page s ≡ ok (q, next) = ground arith in
    let (v', same) = malloc_page-IsPool v e in (q, next, e, v', same, omega arith)

-- Without a supply it panics.
pub malloc_page-exhausted :
    {s : Frames} {free used : List ℕ}
    → IsPool s free used
    → supply s free ≡ 0
    → malloc_page s ≡ panic
unfolding malloc_page
malloc_page-exhausted {s} {free = []} v h = ground arith
malloc_page-exhausted {s} {free = q ∷ qs} v h = absurd (omega arith)

pub calloc_page-exhausted :
    {s : Frames} {free used : List ℕ}
    → IsPool s free used
    → supply s free ≡ 0
    → calloc_page s ≡ panic
unfolding calloc_page
calloc_page-exhausted {s} v h = rw (malloc_page-exhausted v h) refl

-- What `calloc_page` leaves: the words of the page are zero and the others are as before.
pub record IsZeroed (m m' : Mem) (p : ℕ) : Type 0 where
  pub zeroed : (a : ℕ) → p ≤ a → a + 4 ≤ p + page_size → load32 m' a ≡ 0
  pub others : (a : ℕ) → (a + 4 ≤ p) ⊎ (p + page_size ≤ a) → load32 m' a ≡ load32 m a

-- While there is a supply, `calloc_page` returns a page of zeros.
pub calloc_page-supply :
    {s : Frames} {free used : List ℕ}
    → IsPool s free used
    → 0 < supply s free
    → (p : ℕ) × (s' : Frames) × (calloc_page s ≡ ok (p, s'))
      × IsPool s' (rest free) (p ∷ used)
      × IsZeroed s.ram s'.ram p
      × (supply s' (rest free) + 1 ≡ supply s free)
unfolding calloc_page
calloc_page-supply {s} {free} {used} v h =
    let (p, s1, e, v1, same, less) = malloc_page-supply v h in
    let m = memzero p page_size s1.ram in
    let frame = used-IsFrame p v1 (ground arith) in
    (
      p,
      record s1 { ram = m },
      rw e refl,
      write-IsPool m v1 (λ q hq.
          let fq = All-has (IsFrame s1.frame_edge) q (rest free) v1.free_frames hq in
          let ne = free-ne-used p q v1 (ground arith) hq in
          load32-memzero_out s1.ram p page_size q
            (elim (dec_lt p q) [ yes i ↦ inr (omega arith) | no i ↦ inl (omega arith) ])),
      record {
        zeroed = λ a i j. load32-memzero_in s1.ram p page_size a i j;
        others =
            λ a i. load32-memzero_out s1.ram p page_size a i ∙ ap (λ (r : Mem). load32 r a) same;
      },
      less,
    )
