-- ===== src/Processes/Start.antt =====
-- The first switch to a process.
use ose.Prelude.{
  ℕ, ◌+◌, ◌-◌, ◌/◌, ◌≤◌, ◌<◌, ◌≡◌, ◌≢◌, refl, arith, true, false, List, has, leb, ◌==◌, write, u32,
}
use ose.Prelude.Outcome.{ok}
use ose.Memory.Pages.Pool.{IsPool}
use ose.Memory.Pages.Supply.{supply}
use ose.Paging.{entry}
use ose.Paging.Translate.{translate}
use ose.Paging.Kernel.{MapsKernel}
use ose.Paging.Create.{new_mapping, create_vas-translate}
use ose.Scheduler.{
  Scheduler, schedule_process, alloc_process, link, scheduler_next_process, node_size,
}
use ose.Processes.{
  IntraContext, Kernel, initial_context, enqueue_process, switch_process, set_process,
}

-- The frames can give a process its address space.
pub record HasRoom (k : Kernel) (free used : List ℕ) (kernel_pt : ℕ) : Type 0 where
  pub pool : IsPool k.frames free used
  pub room : 3 ≤ supply k.frames free
  pub held : has kernel_pt used ≡ true
  pub maps : MapsKernel k.frames.ram kernel_pt
  pub pde : k.kernel_pde ≡ entry true true (kernel_pt / 0x1000)

-- What a first switch to `node` gives: a directory that is not null and maps the kernel and a page of
-- stack, and a context that starts the program with the stack at 8 MB; the process keeps both.
pub record IsStarted (node program pdt : ℕ) (ctx : IntraContext) (k' : Kernel) : Type 0 where
  pub not_null : pdt ≢ 0
  pub page : ℕ
  pub maps :
      (virtual : ℕ)
      → virtual < 4294967296
      → translate k'.frames.ram pdt virtual ≡ new_mapping page virtual
  pub entered : ctx ≡ initial_context program
  pub current : k'.scheduler.current_process ≡ node
  pub kept_pdt : k'.scheduler.first_word node ≡ pdt
  pub kept_ctx : (k'.processes node).ctx ≡ ctx

-- The first switch to the next process in turn.
pub switch_process-IsStarted :
    (k : Kernel) (free used : List ℕ) (kernel_pt node program : ℕ)
    → HasRoom k free used kernel_pt
    → k.scheduler.next k.scheduler.current_process ≡ node
    → k.scheduler.first_word node ≡ 0
    → (k.processes node).executable ≡ program
    → (pdt : ℕ) × (ctx : IntraContext) × (k' : Kernel) × (switch_process k ≡ ok (pdt, ctx, k'))
      × IsStarted node program pdt ctx k'
unfolding switch_process scheduler_next_process
switch_process-IsStarted k free used kernel_pt node program r turn h runs =
    let s = record k.scheduler { current_process = node } in
    let p = k.processes node in
    let ctx = initial_context p.executable in
    let new = create_vas-translate kernel_pt r.pool r.room r.held r.maps in
    let (pdt, stack_pt, page, frames, e, v', maps) = new in
    let frame = v'.used_frames.1.1.0 in
    let same : (node == node) ≡ true = ground arith in
    (
      pdt,
      ctx,
      record k {
        scheduler = record s { first_word = write s.first_word node pdt };
        processes =
            set_process node (record p { ctx = ctx; lowest_stack_page = 0x7FF000 }) k.processes;
        frames = frames;
      },
      rw (turn, h, r.pde, e, switch_process) refl,
      record {
        not_null = λ z. absurd (omega (arith, frame, z));
        page = page;
        maps = maps;
        entered = rw runs refl;
        current = refl;
        kept_pdt = rw same refl;
        kept_ctx = rw same refl;
      },
    )

-- The first node, a ring of its own.
pub schedule_process-first :
    (s : Scheduler)
    → s.current_process ≡ 0
    → s.free_list ≡ 0
    → s.front < s.end
    → let n = s.front in
      schedule_process s
      ≡ ok (
        n,
        record s {
          front = u32 (n + node_size);
          prev = write s.prev n n;
          next = write s.next n n;
          current_process = n;
          pid = write s.pid n ((n - s.start) / node_size);
        },
      )
unfolding schedule_process alloc_process link
schedule_process-first s none_current none_free room =
    let fits : leb s.end s.front ≡ false = ground arith in rw (none_free, fits, none_current) refl

-- When no process is scheduled yet and no node is free, the array has room, and the frames can give
-- an address space, a program that is enqueued is started by the next switch: it returns a directory
-- that is not null and maps the kernel and a page of stack, with a context that begins at the program
-- with the stack at 8 MB, and the process, now the current one, keeps both.
pub enqueue_process-IsStarted :
    (func argc argv : ℕ) (k : Kernel) (free used : List ℕ) (kernel_pt : ℕ)
    → HasRoom k free used kernel_pt
    → k.scheduler.current_process ≡ 0
    → k.scheduler.free_list ≡ 0
    → k.scheduler.front < k.scheduler.end
    → (k1 : Kernel) × (pdt : ℕ) × (ctx : IntraContext) × (k2 : Kernel) × (enqueue_process func argc
          argv k
        ≡ ok k1)
      × (switch_process k1 ≡ ok (pdt, ctx, k2))
      × IsStarted k.scheduler.front func pdt ctx k2
unfolding enqueue_process
enqueue_process-IsStarted func argc argv k free used kernel_pt r none_current none_free room =
    let s = k.scheduler in
    let n = s.front in
    let p = record (k.processes n) { executable = func; argc = argc; argv = argv } in
    let k1 = record k {
      scheduler = record s {
        front = u32 (n + node_size);
        prev = write s.prev n n;
        next = write s.next n n;
        current_process = n;
        pid = write s.pid n ((n - s.start) / node_size);
        first_word = write s.first_word n 0;
      };
      processes = set_process n p k.processes;
    } in
    let same : (n == n) ≡ true = ground arith in
    let room1 : HasRoom k1 free used kernel_pt = record {
      pool = r.pool;
      room = r.room;
      held = r.held;
      maps = r.maps;
      pde = r.pde;
    } in
    let (pdt, ctx, k2, e, started) =
      switch_process-IsStarted k1 free used kernel_pt n func room1 (rw same refl) (rw same refl)
        (rw same refl) in
    (k1, pdt, ctx, k2, rw (schedule_process-first s none_current none_free room) refl, e, started)
