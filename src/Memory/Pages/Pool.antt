-- ===== src/Memory/Pages/Pool.antt =====
-- The pool of page frames: no frame is handed out twice, and none is lost.
use ose.Prelude.{ℕ, ◌+◌, ◌*◌, ◌%◌, ◌≤◌, ◌<◌, ◌≡◌, arith, Mem}
use ose.Prelude.{List, [], ◌∷◌, length, has, erase, Distinct, All, true, false, refl, ◌↔◌}
use ose.Prelude.{All-has, All-erase, Distinct-erase, length-erase, has-erase_self, has-erase-false}
use ose.Prelude.Outcome.{ok, panic, along}
use native.Mathlib.Decide.{ℕ_discrete}
use mathlib.Core.Bool.{false≢true}
use mathlib.Core.Path.{subst}
use ose.Prelude.{sym, ◌∙◌}
use ose.Memory.Words.{load32, store32, load32-store32_self, load32-store32_ne}
use ose.Memory.Pages.{Frames, page_space_start, page_space_end, page_size}
use ose.Memory.Pages.{malloc_page, free_page}

-- A frame below `edge`.
abbrev pub IsFrame : ℕ → ℕ → Type 0
IsFrame edge p = (page_space_start ≤ p) × (p + page_size ≤ edge) × (p % page_size ≡ 0)

-- The chain from `h` leads through exactly the frames `ps` to NULL.
abbrev pub Chain : Mem → ℕ → List ℕ → Type 0
Chain m h [] = h ≡ 0
Chain m h (p ∷ ps) = (h ≡ p) × Chain m (load32 m p) ps

-- `free` are the frames of the free list, and `used` those that are handed out.
pub record IsPool (s : Frames) (free used : List ℕ) : Type 0 where
  pub edge_low : page_space_start ≤ s.frame_edge
  pub edge_high : s.frame_edge ≤ page_space_end
  pub edge_aligned : s.frame_edge % page_size ≡ 0
  pub chain : Chain s.ram s.frame_free_list free
  pub free_frames : All (IsFrame s.frame_edge) free
  pub used_frames : All (IsFrame s.frame_edge) used
  pub free_distinct : Distinct free
  pub used_distinct : Distinct used
  pub apart : (p : ℕ) → has p free ≡ true → has p used ≡ false
  pub count : page_space_start + page_size * (length free + length used) ≡ s.frame_edge

-- What follows the head of the free list.
abbrev pub rest : List ℕ → List ℕ
rest [] = []
rest (p ∷ ps) = ps

has-All-edge : (e p : ℕ) (ps : List ℕ) → All (IsFrame e) ps → e ≤ p → has p ps ≡ false
has-All-edge e p [] h k = refl
has-All-edge e p (x ∷ ps) h k = ground (arith, has-All-edge e p ps h.1 k)

All-IsFrame-mono : (e f : ℕ) (ps : List ℕ) → e ≤ f → All (IsFrame e) ps → All (IsFrame f) ps
All-IsFrame-mono e f [] h k = k
All-IsFrame-mono e f (x ∷ ps) h k = ground (arith, All-IsFrame-mono e f ps h k.1)

-- `malloc_page` hands out a frame that nobody holds: from then on it is held, and the memory is
-- as before.
pub malloc_page-IsPool :
    {s s' : Frames} {free used : List ℕ} {p : ℕ}
    → IsPool s free used
    → malloc_page s ≡ ok (p, s')
    → IsPool s' (rest free) (p ∷ used) × (s'.ram ≡ s.ram)
unfolding malloc_page
malloc_page-IsPool {s} {free = []} {used} v e =
    let edge = s.frame_edge in
    let room : edge + page_size ≤ page_space_end = ground arith in
    let next : Frames = record s { frame_edge = edge + page_size } in
    along (λ r. IsPool r.1 [] (r.0 ∷ used) × (r.1.ram ≡ s.ram)) {a = (edge, next)} (ground arith) e
      (
        record {
          edge_low = omega arith;
          edge_high = room;
          edge_aligned = omega arith;
          chain = v.chain;
          free_frames = tt;
          used_frames = (
            (v.edge_low, omega arith, v.edge_aligned),
            All-IsFrame-mono edge (edge + page_size) used (omega arith) v.used_frames,
          );
          free_distinct = tt;
          used_distinct =
              (has-All-edge edge edge used v.used_frames (omega arith), v.used_distinct);
          apart = λ p h. cc;
          count = omega arith;
        },
        refl,
      )
malloc_page-IsPool {s} {free = q ∷ qs} {used} v e =
    let next : Frames = record s { frame_free_list = load32 s.ram q } in
    along (λ r. IsPool r.1 qs (r.0 ∷ used) × (r.1.ram ≡ s.ram)) {a = (q, next)} (ground arith) e
      (
        record {
          edge_low = v.edge_low;
          edge_high = v.edge_high;
          edge_aligned = v.edge_aligned;
          chain = v.chain.1;
          free_frames = v.free_frames.1;
          used_frames = (v.free_frames.0, v.used_frames);
          free_distinct = v.free_distinct.1;
          used_distinct = (v.apart q (ground arith), v.used_distinct);
          apart = λ p h. ground (arith, v.apart p);
          count = omega arith;
        },
        refl,
      )

-- A pool panics on `malloc_page` exactly if its free list is empty and at most one frame is left
-- between the edge and the end: the last frame is never handed out.
pub malloc_page-panic :
    {s : Frames} {free used : List ℕ}
    → IsPool s free used
    → (malloc_page s ≡ panic) ↔ ((free ≡ []) × (page_space_end ≤ s.frame_edge + page_size))
unfolding malloc_page
malloc_page-panic {free = []} v = (λ e. ground arith, λ h. ground arith)
malloc_page-panic {free = q ∷ qs} v = (λ e. ground arith, λ h. ground arith)

-- Writing words that are not the first of a free frame leaves the chain alone.
pub Chain-frame :
    (m m' : Mem) (h : ℕ) (ps : List ℕ)
    → ((p : ℕ) → has p ps ≡ true → load32 m' p ≡ load32 m p)
    → Chain m h ps
    → Chain m' h ps
Chain-frame m m' h [] same c = c
Chain-frame m m' h (p ∷ ps) same c = (
  c.0,
  rw (same p (ground arith)) (Chain-frame m m' (load32 m p) ps (λ q i. same q (ground arith)) c.1),
)

Chain-head-lt :
    (m : Mem) (e h : ℕ) (ps : List ℕ)
    → e ≤ page_space_end
    → All (IsFrame e) ps
    → Chain m h ps
    → h < 4294967296
Chain-head-lt m e h [] k f c = omega arith
Chain-head-lt m e h (p ∷ ps) k f c = omega arith

-- A store to a frame outside the free list leaves the chain alone.
Chain-store32 :
    (m : Mem) (e h v p : ℕ) (ps : List ℕ)
    → IsFrame e p
    → All (IsFrame e) ps
    → has p ps ≡ false
    → Chain m h ps
    → Chain (store32 m p v) h ps
Chain-store32 m e h v p ps fp fs out = Chain-frame m (store32 m p v) h ps λ q i.
    let fq : IsFrame e q = All-has (IsFrame e) q ps fs i in
    load32-store32_ne m p q v (omega arith) (omega arith)
      (λ same. false≢true (sym out ∙ subst (λ x. has x ps ≡ true) (sym same) i))

-- Freeing a frame that is held moves it from the held frames to the free ones.
pub free_page-IsPool :
    {s : Frames} {free used : List ℕ} (p : ℕ)
    → IsPool s free used
    → has p used ≡ true
    → IsPool (free_page p s) (p ∷ free) (erase p used)
unfolding free_page
free_page-IsPool {s} {free} {used} p v h =
    let frame : IsFrame s.frame_edge p = All-has (IsFrame s.frame_edge) p used v.used_frames h in
    let out : has p free ≡ false = ground (arith, v.apart p) in
    let head = Chain-head-lt s.ram s.frame_edge _ free v.edge_high v.free_frames v.chain in
    record {
      edge_low = v.edge_low;
      edge_high = v.edge_high;
      edge_aligned = v.edge_aligned;
      chain = (
        refl,
        rw (load32-store32_self s.ram p s.frame_free_list head) (
            Chain-store32 s.ram s.frame_edge s.frame_free_list s.frame_free_list p free frame
              v.free_frames out v.chain),
      );
      free_frames = (frame, v.free_frames);
      used_frames = All-erase (IsFrame s.frame_edge) p used v.used_frames;
      free_distinct = (out, v.free_distinct);
      used_distinct = Distinct-erase p used v.used_distinct;
      apart = λ q i. elim (ℕ_discrete p q) [
        | yes e ↦
            subst (λ x. has x (erase p used) ≡ false) e (has-erase_self p used v.used_distinct)
        | no ne ↦ has-erase-false q p used (v.apart q (ground arith))
      ];
      count = omega (arith, length-erase p used h);
    }
