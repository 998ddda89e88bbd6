-- ===== src/Processes/Life.antt =====
-- The life of a process that is alone: faults and exits one after another.
use ose.Prelude.{
  ℕ, ◌+◌, ◌-◌, ◌*◌, ◌/◌, ◌%◌, ◌≤◌, ◌<◌, ◌≡◌, ◌⊎◌, inl, inr, refl, ◌∙◌, arith, true, false, ◌==◌,
  ◌&&◌, leb, ltb, write, List, [], ◌∷◌, has, length, All, Option, none, some,
}
use native.Mathlib.Decide.{dec_lt}
use ose.Prelude.Outcome.{Outcome, ok, ◌>>=◌}
use ose.Memory.Pages.Pool.{IsPool, rest}
use ose.Memory.Pages.Supply.{supply, used-IsFrame}
use ose.Paging.{entry, entry_at, free_vas}
use ose.Paging.Entries.{entry_fields}
use ose.Paging.Kernel.{MapsKernel}
use ose.Paging.Space.{HasTable, table}
use ose.Paging.Create.{create_vas-IsCreated, frame_of-entry}
use ose.Paging.Owner.{IsOwner}
use ose.Paging.Owning.{owner-Owns, first-apart}
use ose.Paging.Fresh.{created-IsOwner}
use ose.Paging.Frees.{pushed, without}
use ose.Paging.Release.{owned_by, free_vas-IsPool}
use ose.Paging.Stack.{grow_stack-Grown}
use ose.Scheduler.{scheduler_next_process}
use ose.Processes.{
  IntraContext, Kernel, initial_context, set_process, switch_process, end_process, exit, Handled,
  Message, resumed, ended, user_flag, pagefault_handler,
}
use ose.Processes.Faults.{message_for, ended_eq}

-- A process that is alone in its ring, in an address space whose pages are its own and that has the
-- table of the kernel below 4 MB.
pub record IsRunning (k : Kernel) (kernel_pt : ℕ) : Type 0 where
  pub free : List ℕ
  pub used : List ℕ
  pub alone : k.scheduler.next k.scheduler.current_process ≡ k.scheduler.current_process
  pub owner : IsOwner k.frames free used (k.scheduler.first_word k.scheduler.current_process)
  pub held : has kernel_pt used ≡ true
  pub kernel :
      entry_at k.frames.ram (k.scheduler.first_word k.scheduler.current_process) 0
      ≡ entry true true (kernel_pt / 0x1000)
  pub maps : MapsKernel k.frames.ram kernel_pt
  pub pde : k.kernel_pde ≡ entry true true (kernel_pt / 0x1000)
  pub aligned : (k.processes k.scheduler.current_process).lowest_stack_page % 0x1000 ≡ 0
  pub top : (k.processes k.scheduler.current_process).lowest_stack_page ≤ 0x800000

-- The switch to a process that is alone and has no address space.
pub switched-IsRunning :
    (k : Kernel) (kt : ℕ) (free used : List ℕ)
    → k.scheduler.next k.scheduler.current_process ≡ k.scheduler.current_process
    → k.scheduler.first_word k.scheduler.current_process ≡ 0
    → IsPool k.frames free used
    → 3 ≤ supply k.frames free
    → has kt used ≡ true
    → MapsKernel k.frames.ram kt
    → k.kernel_pde ≡ entry true true (kt / 0x1000)
    → (pdt' : ℕ) × (ctx : IntraContext) × (k' : Kernel) × (switch_process k ≡ ok (pdt', ctx, k'))
      × (ctx ≡ initial_context (k.processes k.scheduler.current_process).executable)
      × (n : IsRunning k' kt) × (supply k'.frames n.free + 3 ≡ supply k.frames free)
unfolding switch_process scheduler_next_process
switched-IsRunning k kt free used alone none_yet v room held maps pde =
    let s = k.scheduler in
    let node = s.current_process in
    let p = k.processes node in
    let ctx = initial_context p.executable in
    let (pdt', st', page', frames, e, v', made, cost) = create_vas-IsCreated kt v room held maps in
    let self : (node == node) ≡ true = ground arith in
    let kept : write s.first_word node pdt' node ≡ pdt' = rw self refl in
    let k' = record k {
      scheduler = record s { current_process = node; first_word = write s.first_word node pdt' };
      processes =
          set_process node (record p { ctx = ctx; lowest_stack_page = 0x7FF000 }) k.processes;
      frames = frames;
    } in
    let owner =
      created-IsOwner frames (rest (rest (rest free))) used pdt' st' page' kt v' made held in
    (
      pdt',
      ctx,
      k',
      rw (alone, none_yet, pde, e) refl,
      refl,
      record {
        free = rest (rest (rest free));
        used = page' ∷ st' ∷ pdt' ∷ used;
        alone = alone;
        owner = rw kept owner;
        held = ground (arith, held);
        kernel = rw kept made.kernel;
        maps = made.shared;
        pde = pde;
        aligned = rw self refl;
        top = rw self (omega arith);
      },
      cost,
    )

module _ (k : Kernel) (kt : ℕ) (r : IsRunning k kt) where
  abbrev node : ℕ
  node = k.scheduler.current_process

  abbrev root : ℕ
  root = k.scheduler.first_word node

  has_first : HasTable k.frames.ram root 0
  has_first = let f = entry_fields true true (kt / 0x1000) in rw r.kernel (f.0, f.1)

  first_table : table k.frames.ram root 0 ≡ kt
  first_table =
      let v = r.owner.space.pool in
      let f = used-IsFrame kt v r.held in
      let high = v.edge_high in
      rw r.kernel (frame_of-entry kt (omega (arith, f)) (omega (arith, f, high)))

  -- The process ends, and starts again from its beginning.
  end_process-IsRunning :
      3 ≤ supply k.frames r.free
      → (pdt' : ℕ) × (ctx : IntraContext) × (k' : Kernel) × (end_process k ≡ ok (pdt', ctx, k'))
        × (n : IsRunning k' kt) × (supply k.frames r.free ≤ supply k'.frames n.free + 3)
  unfolding end_process
  end_process-IsRunning room =
      let s = k.scheduler in
      let ps = owned_by k.frames.ram root in
      let used' = without ps r.used in
      let (v, more, same_held, same, leak) =
        free_vas-IsPool root (owner-Owns k.frames r.free r.used root r.owner) in
      let apart : has kt ps ≡ false =
        rw first_table at (first-apart k.frames r.free r.used root r.owner has_first) in
      let held : has kt used' ≡ true = same_held kt apart ∙ r.held in
      let self : (node == node) ≡ true = ground arith in
      let k1 = record k {
        scheduler = record s { first_word = write s.first_word node 0 };
        frames = free_vas root k.frames;
        param = k.param + 1;
      } in
      let (pdt', ctx, k', e, entered, n, cost) =
        switched-IsRunning k1 kt (pushed ps r.free) used' r.alone (rw self refl) v
          (omega (arith, more)) held (λ i hi. same kt i r.held apart hi ∙ r.maps i hi) r.pde in
      (pdt', ctx, k', e, n, omega (arith, more, cost))

  -- The stack grows.
  grown-IsRunning :
      (error_code cr2 : ℕ)
      → user_flag error_code ≡ true
      → 0x400000 ≤ cr2
      → cr2 < 0x800000
      → 2048 ≤ supply k.frames r.free
      → (k' : Kernel) × (pagefault_handler error_code cr2 k ≡ ok (some (resumed k')))
        × (n : IsRunning k' kt) × (supply k.frames r.free ≤ supply k'.frames n.free + 2048)
  unfolding pagefault_handler
  grown-IsRunning error_code cr2 u lo hi room =
      let p = k.processes node in
      let i = p.lowest_stack_page in
      let v = r.owner.space in
      let (low, s', free', used', e, g) =
        grow_stack-Grown 1025 1024 k.frames r.free r.used root cr2 i v
          (r.owner.small 1 (omega arith)) room (omega arith) lo r.top r.aligned
          (omega (arith, r.top)) in
      let gs = g.grows in
      let not_null : ltb cr2 0x7000 ≡ false = ground arith in
      let not_kernel : (leb 0x80000 cr2 && ltb cr2 0x400000) ≡ false = ground arith in
      let stack : (leb 0x400000 cr2 && ltb cr2 0x800000) ≡ true = ground arith in
      let self : (node == node) ≡ true = ground arith in
      let high : low ≤ 0x800000 = omega (arith, g.below, r.top) in
      let pages : (i - low) / 0x1000 ≤ 1024 = elim g.near [
        | inl q ↦ omega arith
        | inr q ↦ omega (arith, r.top)
      ] in
      (
        record k {
          frames = s';
          processes = set_process node (record p { lowest_stack_page = low }) k.processes;
        },
        rw (u, not_null, not_kernel, stack, e) refl,
        record {
          free = free';
          used = used';
          alone = r.alone;
          owner = gs.owner r.owner;
          held = gs.held kt r.held;
          kernel = gs.directory 0 (omega arith) (λ z. absurd (omega arith)) ∙ r.kernel;
          maps = λ l hl.
              let kept = gs.kept 0 l (omega arith) hl (λ z. absurd (omega arith)) has_first in
              rw first_table at kept ∙ r.maps l hl;
          pde = r.pde;
          aligned = rw self g.aligned;
          top = rw self high;
        },
        omega (arith, g.cost, pages),
      )

  -- A fault outside the stack ends the process.
  ended-IsRunning :
      (error_code cr2 : ℕ)
      → user_flag error_code ≡ true
      → (cr2 < 0x400000) ⊎ (0x800000 ≤ cr2)
      → 3 ≤ supply k.frames r.free
      → (message : Message) × (pdt' : ℕ) × (ctx : IntraContext) × (k' : Kernel) × (pagefault_handler
            error_code cr2 k
          ≡ ok (some (ended message pdt' ctx k')))
        × (n : IsRunning k' kt) × (supply k.frames r.free ≤ supply k'.frames n.free + 3)
  unfolding pagefault_handler
  ended-IsRunning error_code cr2 u outside room =
      let (pdt', ctx, k', e, n, cost) = end_process-IsRunning room in
      (message_for cr2, pdt', ctx, k', ended_eq error_code cr2 k pdt' ctx k' u outside e, n, cost)

-- What happens to a process: a fault, with its error code and its address, or a system call.
pub data Event : Type 0 where
  faults : (error_code cr2 : ℕ) → Event
  calls_exit : Event

-- Faults of user code.
abbrev pub ByUser : Event → Type 0
ByUser (faults error_code cr2) = user_flag error_code ≡ true
ByUser calls_exit = Unit

abbrev after : Option Handled → Option Kernel
after none = none
after (some (resumed k)) = some k
after (some (ended message pdt ctx k)) = some k

-- `none` means that the fuel of the handler ran out.
unfoldable pub handle : Event → Kernel → Outcome (Option Kernel)
handle (faults error_code cr2) k = pagefault_handler error_code cr2 k >>= λ h. ok (after h)
handle calls_exit k = exit k >>= λ r. ok (some r.3)

unfoldable pub handle_all : List Event → Kernel → Outcome (Option Kernel)
handle_all [] k = ok (some k)
handle_all (e ∷ es) k = handle e k >>= λ r. elim r [ none ↦ ok none | some k' ↦ handle_all es k' ]

handle-IsRunning :
    (e : Event) (k : Kernel) (kt : ℕ) (r : IsRunning k kt)
    → ByUser e
    → 2048 ≤ supply k.frames r.free
    → (k' : Kernel) × (handle e k ≡ ok (some k'))
      × (n : IsRunning k' kt) × (supply k.frames r.free ≤ supply k'.frames n.free + 2048)
unfolding handle exit
handle-IsRunning calls_exit k kt r u room =
    let (pdt', ctx, k', e, n, cost) = end_process-IsRunning k kt r (omega arith) in
    (k', rw e refl, n, omega (arith, cost))
handle-IsRunning (faults error_code cr2) k kt r u room = elim (dec_lt cr2 0x400000) [
  | yes low ↦
      let (m, pdt', ctx, k', e, n, cost) =
        ended-IsRunning k kt r error_code cr2 u (inl low) (omega arith) in
      (k', rw e refl, n, omega (arith, cost))
  | no over ↦ elim (dec_lt cr2 0x800000) [
    | yes below ↦
        let (k', e, n, cost) = grown-IsRunning k kt r error_code cr2 u (omega arith) below room in
        (k', rw e refl, n, cost)
    | no above ↦
        let (m, pdt', ctx, k', e, n, cost) =
          ended-IsRunning k kt r error_code cr2 u (inr (omega arith)) (omega arith) in
        (k', rw e refl, n, omega (arith, cost))
  ]
]

-- For any sequence of faults of user code, at any addresses, and exits of a process that is alone,
-- with a supply of 2048 frames for each of them, the kernel does not panic and the handler does not
-- run out of fuel. Afterwards a process runs in an address space whose pages are its own, with the
-- table of the kernel below 4 MB, and no more frames than these were used up.
pub handle_all-IsRunning :
    (es : List Event) (k : Kernel) (kt : ℕ) (r : IsRunning k kt)
    → All ByUser es
    → 2048 * length es ≤ supply k.frames r.free
    → (k' : Kernel) × (handle_all es k ≡ ok (some k'))
      × (n : IsRunning k' kt) × (supply k.frames r.free
          ≤ supply k'.frames n.free + 2048 * length es)
unfolding handle_all
handle_all-IsRunning [] k kt r u room = (k, refl, r, omega arith)
handle_all-IsRunning (e ∷ es) k kt r u room =
    let (k1, eq, n1, cost) = handle-IsRunning e k kt r u.0 (omega arith) in
    let (k2, eq2, n2, cost2) = handle_all-IsRunning es k1 kt n1 u.1 (omega (arith, cost)) in
    (k2, rw eq eq2, n2, omega (arith, cost, cost2))
