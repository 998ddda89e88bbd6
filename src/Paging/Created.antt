-- ===== src/Paging/Created.antt =====
-- A new address space owns its table of the stack and the first page, and can be released.
use ose.Prelude.{
  ℕ, zero, suc, ◌+◌, ◌/◌, ◌%◌, ◌≤◌, ◌<◌, ◌≡◌, refl, ◌∙◌, arith, true, Mem, List, [], ◌∷◌, ◌++◌, has,
}
use ose.Memory.Pages.{Frames}
use ose.Memory.Pages.Pool.{IsPool}
use ose.Paging.{entry, present, frame_of, entry_at}
use ose.Paging.Entries.{entry_fields}
use ose.Paging.Create.{IsCreated, frame_of-entry}
use ose.Paging.Owned.{pages, leads, block, owned}
use ose.Paging.Release.{owned_by, Owns}

-- No entry is present, or the last one only.
pages-none : (e : ℕ → ℕ) (k i : ℕ) → ((j : ℕ) → i ≤ j → j < i + k → e j ≡ 0) → pages e k i ≡ []
unfolding pages
pages-none e zero i h = refl
pages-none e (suc k) i h =
    rw (h i (omega arith) (omega arith))
      (pages-none e k (i + 1) (λ j lo hi. h j (omega arith) (omega arith)))

pages-last :
    (e : ℕ → ℕ) (k i : ℕ)
    → ((j : ℕ) → i ≤ j → j < i + k → e j ≡ 0)
    → present (e (i + k)) ≡ true
    → pages e (suc k) i ≡ frame_of (e (i + k)) ∷ []
unfolding pages
pages-last e zero i h p =
    let here : i + 0 ≡ i = omega arith in
    let p' : present (e i) ≡ true = rw here at p in rw (here, p') refl
pages-last e (suc k) i h p =
    let there : i + suc k ≡ i + 1 + k = omega arith in
    rw (h i (omega arith) (omega arith), there)
      (pages-last e k (i + 1) (λ j lo hi. h j (omega arith) (omega arith)) (rw there at p))

owned-none :
    (d : ℕ → ℕ) (t : ℕ → ℕ → ℕ) (k i : ℕ)
    → ((j : ℕ) → i ≤ j → j < i + k → d j ≡ 0)
    → owned d t k i ≡ []
unfolding owned block
owned-none d t zero i h = refl
owned-none d t (suc k) i h =
    rw (h i (omega arith) (omega arith))
      (owned-none d t k (i + 1) (λ j lo hi. h j (omega arith) (omega arith)))

owned-first :
    (d : ℕ → ℕ) (t : ℕ → ℕ → ℕ) (k i : ℕ) → owned d t (suc k) i ≡ block d t i ++ owned d t k (i + 1)
unfolding owned
owned-first d t k i = refl

block-leads :
    (d : ℕ → ℕ) (t : ℕ → ℕ → ℕ) (i : ℕ)
    → leads (d i) ≡ true
    → block d t i ≡ pages (t i) 1024 0 ++ frame_of (d i) ∷ []
unfolding block
block-leads d t i h = rw h refl

pub owned_by-created :
    (m : Mem) (pdt stack_pt page kernel_pt : ℕ)
    → IsCreated m pdt stack_pt page kernel_pt
    → (stack_pt % 4096 ≡ 0) × (stack_pt < 4294967296)
    → (page % 4096 ≡ 0) × (page < 4294967296)
    → owned_by m pdt ≡ page ∷ stack_pt ∷ []
owned_by-created m pdt st g kt c sa ga =
    let d = entry_at m pdt in
    let t = λ (j : ℕ). entry_at m (frame_of (entry_at m pdt j)) in
    let (a, b, w, u, f, l) = entry_fields true true (st / 0x1000) in
    let (a', b', w', u', f', l') = entry_fields true true (g / 0x1000) in
    let lead : leads (d 1) ≡ true = rw (c.stack, a, b) refl in
    let table : frame_of (d 1) ≡ st = rw c.stack (frame_of-entry st sa.0 sa.1) in
    let top : t 1 1023 ≡ entry true true (g / 0x1000) = rw table c.top in
    let one : pages (t 1) 1024 0 ≡ g ∷ [] =
      pages-last (t 1) 1023 0 (λ j lo hi. rw table (c.below j (omega arith))) (rw top a')
      ∙ rw (top, frame_of-entry g ga.0 ga.1) refl in
    owned-first d t 1022 1
    ∙ rw
        (
          block-leads d t 1 lead,
          one,
          table,
          owned-none d t 1022 2 (λ j lo hi. c.empty j (omega arith) (omega arith)),
        )
        refl

-- So it can be released.
pub created-Owns :
    {s : Frames} {free used : List ℕ} (pdt stack_pt page kernel_pt : ℕ)
    → IsPool s free (page ∷ stack_pt ∷ pdt ∷ used)
    → IsCreated s.ram pdt stack_pt page kernel_pt
    → Owns s free (page ∷ stack_pt ∷ pdt ∷ used) pdt × (owned_by s.ram pdt ≡ page ∷ stack_pt ∷ [])
created-Owns {s} {free} {used} pdt st g kt v c =
    let g_frame = v.used_frames.0 in
    let st_frame = v.used_frames.1.0 in
    let high = v.edge_high in
    let e =
      owned_by-created s.ram pdt st g kt c (omega (arith, st_frame)) (omega (arith, g_frame)) in
    let d = v.used_distinct in
    (
      record {
        pool = v;
        root = ground arith;
        held = λ q h. held q (rw e at h);
        distinct = rw e (ground arith);
        apart = rw e (ground arith);
      },
      e,
    )
  where
    held : (q : ℕ) → has q (g ∷ st ∷ []) ≡ true → has q (g ∷ st ∷ pdt ∷ used) ≡ true
    held q h = ground arith
