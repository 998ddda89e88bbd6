-- ===== src/Paging/Exhausted.antt =====
-- `create_vas` without enough frames.
use ose.Prelude.{ℕ, ◌≡◌, ◌<◌, refl, arith, List}
use native.Mathlib.Decide.{ℕ_discrete}
use ose.Prelude.Outcome.{panic}
use ose.Memory.Pages.{Frames}
use ose.Memory.Pages.Pool.{IsPool, rest}
use ose.Memory.Pages.Supply.{
  supply, malloc_page-exhausted, calloc_page-exhausted, calloc_page-supply,
}
use ose.Paging.{set_entry, create_vas}
use ose.Paging.Space.{set_entry-IsPool, set_entry-supply}

-- With a supply of less than three frames it panics.
pub create_vas-exhausted :
    {s : Frames} {free used : List ℕ} (kernel_pde : ℕ)
    → IsPool s free used
    → supply s free < 3
    → create_vas kernel_pde s ≡ panic
unfolding create_vas
create_vas-exhausted {s} {free} {used} pde v h = elim (ℕ_discrete (supply s free) 0) [
  | yes z ↦ rw (calloc_page-exhausted v z) refl
  | no nz ↦
      let (p, s1, e1, v1, z1, c1) = calloc_page-supply v (omega arith) in
      let s2 = set_entry p 0 pde s1 in
      let v2 = set_entry-IsPool p 0 pde v1 (ground arith) (omega arith) in
      let c2 = set_entry-supply p 0 pde s1 (rest free) in
      elim (ℕ_discrete (supply s free) 1) [
        | yes o ↦ rw (e1, calloc_page-exhausted v2 (omega (arith, c1, c2))) refl
        | no no' ↦
            let (q, s3, e3, v3, z3, c3) = calloc_page-supply v2 (omega (arith, c1, c2)) in
            rw (e1, e3, malloc_page-exhausted v3 (omega (arith, c1, c2, c3))) refl
      ]
]
