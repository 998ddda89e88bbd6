-- ===== src/Processes/Examples.antt =====
-- The theorems on processes at a kernel with a process that is alone.
use ose.Prelude.{
  ℕ, ◌+◌, ◌*◌, ◌/◌, ◌<◌, ◌≤◌, ◌≡◌, refl, arith, true, false, inl, some, List, [], ◌∷◌, has, length,
}
use ose.Prelude.Outcome.{ok}
use ose.Memory.Pages.Pool.{IsPool}
use ose.Memory.Pages.Supply.{supply}
use ose.Paging.{entry, entry_at, is_mounted, free_vas}
use ose.Paging.Space.{IsSpace}
use ose.Paging.Frees.{pushed, without}
use ose.Paging.Release.{owned_by, Owns, free_vas-IsPool}
use ose.Paging.Created.{created-Owns}
use ose.Paging.Samples.{
  spaced, spaced-IsPool, spaced-IsCreated, empty, empty-IsSpace, empty-IsSmall,
}
use ose.Processes.{
  IntraContext, Kernel, initial_context, end_process, resumed, ended, pagefault_handler,
}
use ose.Processes.Start.{IsStarted}
use ose.Processes.Ends.{end_process-IsStarted}
use ose.Processes.Life.{IsRunning, faults, calls_exit, handle_all, handle_all-IsRunning}
use ose.Paging.Fresh.{created-IsOwner}
use ose.Processes.Faults.{message_for, pagefault_handler-resumed, pagefault_handler-ended}

-- A process at 0x100000, alone in its ring, with the address space at 0x401000.
abbrev running : Kernel
running = record {
  scheduler = record {
    start = 0x100000;
    front = 0x10006C;
    end = 0x100620;
    free_list = 0;
    current_process = 0x100000;
    next = λ a. 0x100000;
    prev = λ a. 0x100000;
    pid = λ a. 0;
    first_word = λ a. 0x401000;
  };
  processes = λ a. record {
    executable = 0x20000;
    argc = 0;
    argv = 0;
    ctx = initial_context 0x20000;
    lowest_stack_page = 0x7FF000;
  };
  frames = spaced;
  kernel_pde = entry true true (0x400000 / 0x1000);
  param = 0;
}

running-Owns :
    Owns spaced [] (0x403000 ∷ 0x402000 ∷ 0x401000 ∷ 0x400000 ∷ []) 0x401000
    × (owned_by spaced.ram 0x401000 ≡ 0x403000 ∷ 0x402000 ∷ [])
running-Owns = created-Owns 0x401000 0x402000 0x403000 0x400000 spaced-IsPool spaced-IsCreated

running-apart : has 0x400000 (owned_by spaced.ram 0x401000) ≡ false
running-apart = rw running-Owns.1 refl

free_vas-IsPool_example :
    let ps = owned_by spaced.ram 0x401000 in
    let used : List ℕ = 0x403000 ∷ 0x402000 ∷ 0x401000 ∷ 0x400000 ∷ [] in
    let s' = free_vas 0x401000 spaced in
    IsPool s' (pushed ps []) (without ps used)
    × (supply s' (pushed ps []) ≡ supply spaced [] + length ps)
    × ((q : ℕ) → has q ps ≡ false → has q (without ps used) ≡ has q used)
    × ((q j : ℕ)
        → has q used ≡ true
        → has q ps ≡ false
        → j < 1024
        → entry_at s'.ram q j ≡ entry_at spaced.ram q j)
    × (has 0x401000 (without ps used) ≡ true)
free_vas-IsPool_example = free_vas-IsPool 0x401000 running-Owns.0

-- The process ends and is started again.
end_process-IsStarted_example :
    (pdt' : ℕ) × (ctx : IntraContext) × (k' : Kernel) × (end_process running ≡ ok (pdt', ctx, k'))
    × IsStarted 0x100000 0x20000 pdt' ctx k'
end_process-IsStarted_example =
    end_process-IsStarted running [] (0x403000 ∷ 0x402000 ∷ 0x401000 ∷ 0x400000 ∷ []) 0x400000
      0x100000 running-Owns.0 refl running-apart spaced-IsCreated.shared refl (omega arith) refl
      (inl refl)

-- A write to a null pointer.
pagefault_handler-ended_example :
    (pdt' : ℕ) × (ctx : IntraContext) × (k' : Kernel) × (pagefault_handler 6 8 running
      ≡ ok (some (ended (message_for 8) pdt' ctx k')))
    × IsStarted 0x100000 0x20000 pdt' ctx k'
pagefault_handler-ended_example =
    pagefault_handler-ended 6 8 running [] (0x403000 ∷ 0x402000 ∷ 0x401000 ∷ 0x400000 ∷ []) 0x400000
      0x100000 refl (inl (omega arith)) running-Owns.0 refl running-apart spaced-IsCreated.shared
      refl (omega arith) refl (inl refl)

-- A process whose directory has no entries yet, and a push two pages below its stack.
abbrev stacked : Kernel
stacked = record running {
  scheduler = record running.scheduler { first_word = λ a. 0x400000 };
  frames = empty;
}

pagefault_handler-resumed_example :
    (k' : Kernel) × (free' : List ℕ) × (used' : List ℕ) × (pagefault_handler 6 0x7FD123 stacked
      ≡ ok (some (resumed k')))
    × IsSpace k'.frames free' used' 0x400000
    × (is_mounted 0x400000 0x7FD123 k'.frames ≡ true)
    × ((a : ℕ)
        → a < 4294967296
        → is_mounted 0x400000 a empty ≡ true
        → is_mounted 0x400000 a k'.frames ≡ true)
    × (k'.scheduler ≡ stacked.scheduler)
    × ((k'.processes 0x100000).lowest_stack_page ≡ 0x7FD000)
pagefault_handler-resumed_example =
    pagefault_handler-resumed 6 0x7FD123 2 stacked [] (0x400000 ∷ []) refl empty-IsSpace
      (empty-IsSmall 1) (omega arith) (omega arith) (omega arith) refl (omega arith) (omega arith)
      (omega arith)

-- A push below the stack, a null pointer, and an exit.
running-IsRunning : IsRunning running 0x400000
running-IsRunning = record {
  free = [];
  used = 0x403000 ∷ 0x402000 ∷ 0x401000 ∷ 0x400000 ∷ [];
  alone = refl;
  owner =
      created-IsOwner spaced [] (0x400000 ∷ []) 0x401000 0x402000 0x403000 0x400000 spaced-IsPool
        spaced-IsCreated refl;
  held = refl;
  kernel = spaced-IsCreated.kernel;
  maps = spaced-IsCreated.shared;
  pde = refl;
  aligned = refl;
  top = omega arith;
}

handle_all-IsRunning_example :
    (k' : Kernel) × (handle_all (faults 6 0x7FD123 ∷ faults 4 8 ∷ calls_exit ∷ []) running
      ≡ ok (some k'))
    × (n : IsRunning k' 0x400000) × (supply spaced running-IsRunning.free
        ≤ supply k'.frames n.free + 2048 * 3)
handle_all-IsRunning_example =
    handle_all-IsRunning (faults 6 0x7FD123 ∷ faults 4 8 ∷ calls_exit ∷ []) running 0x400000
      running-IsRunning (refl, (refl, (tt, tt))) (omega arith)
