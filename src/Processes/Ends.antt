-- ===== src/Processes/Ends.antt =====
-- What the end of a process does to the frames.
use ose.Prelude.{
  ℕ, zero, suc, ◌+◌, ◌/◌, ◌≤◌, ◌≡◌, ◌⊎◌, refl, ◌∙◌, arith, true, false, write, List, ◌∷◌, has,
  length,
}
use ose.Prelude.Outcome.{Outcome, ok, ◌>>=◌}
use ose.Memory.Pages.{Frames}
use ose.Memory.Pages.Pool.{IsPool}
use ose.Memory.Pages.Supply.{supply}
use ose.Paging.{entry, free_vas}
use ose.Paging.Kernel.{MapsKernel}
use ose.Paging.Create.{IsCreated}
use ose.Paging.Frees.{pushed, without}
use ose.Paging.Release.{owned_by, Owns, free_vas-IsPool}
use ose.Processes.{IntraContext, Kernel, end_process, exit}
use ose.Processes.Start.{HasRoom, IsStarted, switch_process-IsStarted}

-- When the current process owns the frames under its directory, the kernel's page table is held and
-- not among them, the frames that are left and these can give an address space, and the next process
-- in turn is the same one or has no address space, then the end of the process starts that next one
-- from its beginning in a new address space.
pub end_process-IsStarted :
    (k : Kernel) (free used : List ℕ) (kernel_pt node : ℕ)
    → let pdt = k.scheduler.first_word k.scheduler.current_process in
      Owns k.frames free used pdt
      → has kernel_pt used ≡ true
      → has kernel_pt (owned_by k.frames.ram pdt) ≡ false
      → MapsKernel k.frames.ram kernel_pt
      → k.kernel_pde ≡ entry true true (kernel_pt / 0x1000)
      → 3 ≤ supply k.frames free + length (owned_by k.frames.ram pdt)
      → k.scheduler.next k.scheduler.current_process ≡ node
      → (node ≡ k.scheduler.current_process) ⊎ (k.scheduler.first_word node ≡ 0)
      → (pdt' : ℕ) × (ctx : IntraContext) × (k' : Kernel) × (end_process k ≡ ok (pdt', ctx, k'))
        × IsStarted node (k.processes node).executable pdt' ctx k'
unfolding end_process
end_process-IsStarted k free used kt node o held apart maps pde room turn fresh =
    let s = k.scheduler in
    let pdt = s.first_word s.current_process in
    let ps = owned_by k.frames.ram pdt in
    let (v', more, same_held, same_entries, leak) = free_vas-IsPool pdt o in
    let k1 = record k {
      scheduler = record s { first_word = write s.first_word s.current_process 0 };
      frames = free_vas pdt k.frames;
      param = k.param + 1;
    } in
    let r : HasRoom k1 (pushed ps free) (without ps used) kt = record {
      pool = v';
      room = omega (arith, more);
      held = same_held kt apart ∙ held;
      maps = λ i hi. same_entries kt i held apart hi ∙ maps i hi;
      pde = pde;
    } in
    let cleared : write s.first_word s.current_process 0 node ≡ 0 = ground arith in
    switch_process-IsStarted k1 (pushed ps free) (without ps used) kt node
      (k.processes node).executable r turn cleared refl

-- A process that is alone, with the address space that it was started with.
pub record IsAlone (k : Kernel) (free used : List ℕ) (kernel_pt stack_pt page : ℕ) : Type 0 where
  pub alone : k.scheduler.next k.scheduler.current_process ≡ k.scheduler.current_process
  pub pool :
      IsPool k.frames free
        (page ∷ stack_pt ∷ k.scheduler.first_word k.scheduler.current_process ∷ used)
  pub created :
      IsCreated k.frames.ram
        (k.scheduler.first_word k.scheduler.current_process)
        stack_pt
        page
        kernel_pt
  pub held : has kernel_pt used ≡ true
  pub pde : k.kernel_pde ≡ entry true true (kernel_pt / 0x1000)

-- The frames after the release of the address space of a process that is alone.
module _ (k : Kernel) (free used : List ℕ) (kt st page : ℕ)
    (a : IsAlone k free used kt st page) where
  abbrev root : ℕ
  root = k.scheduler.first_word k.scheduler.current_process

  abbrev released : Frames
  released = free_vas root k.frames

-- A process that exits `n` times and is started again each time.
unfoldable pub exits : ℕ → Kernel → Outcome Kernel
exits zero k = ok k
exits (suc n) k = do (_, _, _, k') ← exit k; exits n k'
