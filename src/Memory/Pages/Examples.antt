-- ===== src/Memory/Pages/Examples.antt =====
-- The theorems on the pool of page frames at its first states.
use ose.Prelude.{◌≡◌, refl, arith, [], ◌∷◌}
use ose.Memory.Pages.{Frames, malloc_page, free_page}
use ose.Memory.Pages.Pool.{IsPool, malloc_page-IsPool, free_page-IsPool}

abbrev fresh : Frames
fresh = record { ram = λ a. 0; frame_edge = 0x400000; frame_free_list = 0 }

abbrev one_used : Frames
one_used = record fresh { frame_edge = 0x401000 }

fresh-IsPool : IsPool fresh [] []
fresh-IsPool = record {
  edge_low = omega arith;
  edge_high = omega arith;
  edge_aligned = refl;
  chain = refl;
  free_frames = tt;
  used_frames = tt;
  free_distinct = tt;
  used_distinct = tt;
  apart = λ p h. refl;
  count = refl;
}

malloc_page-IsPool_example : IsPool one_used [] (0x400000 ∷ []) × (one_used.ram ≡ fresh.ram)
unfolding malloc_page
malloc_page-IsPool_example =
    malloc_page-IsPool {s = fresh} {s' = one_used} {free = []} {used = []} {p = 0x400000}
      fresh-IsPool refl

free_page-IsPool_example : IsPool (free_page 0x400000 one_used) (0x400000 ∷ []) []
unfolding malloc_page
free_page-IsPool_example =
    free_page-IsPool {s = one_used} {free = []} {used = 0x400000 ∷ []} 0x400000
      malloc_page-IsPool_example.0 refl
