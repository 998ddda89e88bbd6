-- ===== src/Paging/Kernel.antt =====
-- The page table of the kernel: the first 4 MB, each page at its own address.
use ose.Prelude.{
  ℕ, zero, suc, ◌+◌, ◌/◌, ◌%◌, ◌≤◌, ◌<◌, ◌≡◌, inr, refl, sym, ◌∙◌, arith, true, leb, ltb, ◌&&◌, Mem,
  List, ◌∷◌, has,
}
use ose.Prelude.Outcome.{ok}
use native.Mathlib.Decide.{ℕ_discrete}
use ose.Memory.Pages.{Frames}
use ose.Memory.Pages.Pool.{IsPool, rest}
use ose.Memory.Pages.Supply.{supply, calloc_page-supply}
use ose.Paging.{entry, entry_at, set_entry, map_kernel, setup_kernel_paging}
use ose.Paging.Entries.{entry_fields, entry_at-set_entry, entry_at-set_entry_other}
use ose.Paging.Space.{set_entry-IsPool, set_entry-supply}

-- Page `i` is open to user code from 0x7000 up to 0x80000.
abbrev pub kernel_entry : ℕ → ℕ
kernel_entry i = entry true (leb 0x7 i && ltb i 0x80) i

-- Every entry of the table maps its own page.
abbrev pub MapsKernel : Mem → ℕ → Type 0
MapsKernel m pt = (i : ℕ) → i < 1024 → entry_at m pt i ≡ kernel_entry i

map_kernel-entries :
    (k i pt : ℕ) (s : Frames)
    → pt % 4096 ≡ 0
    → i + k ≤ 1024
    → ((j : ℕ) → j < i → entry_at s.ram pt j ≡ kernel_entry j)
    → (j : ℕ) → j < i + k
    → entry_at (map_kernel k i pt s).ram pt j ≡ kernel_entry j
unfolding map_kernel
map_kernel-entries zero i pt s al h done j hj = done j (omega arith)
map_kernel-entries (suc k) i pt s al h done j hj =
    map_kernel-entries k (i + 1) pt (set_entry pt i (kernel_entry i) s) al (omega arith)
      (λ l hl. elim (ℕ_discrete l i) [
        | yes e ↦ rw e (
            entry_at-set_entry pt i (kernel_entry i) s
              (entry_fields true (leb 0x7 i && ltb i 0x80) i).5)
        | no ne ↦
            entry_at-set_entry_other pt i pt l (kernel_entry i) s al al (omega arith) (omega arith)
              (inr (λ e. ne (sym e)))
            ∙ done l (omega arith)
      ])
      j (omega arith)

map_kernel-IsPool :
    (k i pt : ℕ) (s : Frames) (free used : List ℕ)
    → IsPool s free used
    → has pt used ≡ true
    → i + k ≤ 1024
    → IsPool (map_kernel k i pt s) free used
unfolding map_kernel
map_kernel-IsPool zero i pt s free used v h hk = v
map_kernel-IsPool (suc k) i pt s free used v h hk =
    map_kernel-IsPool k (i + 1) pt (set_entry pt i (kernel_entry i) s) free used
      (set_entry-IsPool pt i (kernel_entry i) v h (omega arith)) h (omega arith)

map_kernel-supply :
    (k i pt : ℕ) (s : Frames) (free : List ℕ) → supply (map_kernel k i pt s) free ≡ supply s free
unfolding map_kernel
map_kernel-supply zero i pt s free = refl
map_kernel-supply (suc k) i pt s free =
    map_kernel-supply k (i + 1) pt (set_entry pt i (kernel_entry i) s) free
    ∙ set_entry-supply pt i (kernel_entry i) s free

-- While there is a supply of frames, `setup_kernel_paging` returns a table in a frame of its own
-- that maps each of the first 1024 pages to itself, writable, and open to user code exactly from
-- 0x7000 up to 0x80000, and the directory entry of that table. It takes one frame.
pub setup_kernel_paging-MapsKernel :
    {s : Frames} {free used : List ℕ}
    → IsPool s free used
    → 0 < supply s free
    → (pt : ℕ) × (s' : Frames) × (setup_kernel_paging s
        ≡ ok (pt, entry true true (pt / 0x1000), s'))
      × IsPool s' (rest free) (pt ∷ used)
      × MapsKernel s'.ram pt
      × (supply s' (rest free) + 1 ≡ supply s free)
unfolding setup_kernel_paging
setup_kernel_paging-MapsKernel {s} {free} {used} v h =
    let (pt, s1, e, v1, z, less) = calloc_page-supply v h in
    let frame = v1.used_frames.0 in
    (
      pt,
      map_kernel 1024 0 pt s1,
      rw e refl,
      map_kernel-IsPool 1024 0 pt s1 (rest free) (pt ∷ used) v1 (ground arith) (omega arith),
      λ i hi.
          map_kernel-entries 1024 0 pt s1 (omega (arith, frame)) (omega arith) (λ j hj. elim hj [ ])
            i (omega arith),
      omega (arith, map_kernel-supply 1024 0 pt s1 (rest free), less),
    )
