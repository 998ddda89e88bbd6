-- ===== src/Processes/Boot/Running.antt =====
-- The first process, from the start of the kernel on.
use native.Mathlib.Nat.{div-eq_of_lt, pow-suc}
use native.Mathlib.Decide.{dec_lt}
use ose.Prelude.{
  lt→ltb, ltb, ℕ, ◌+◌, ◌-◌, ◌*◌, ◌/◌, ◌≤◌, ◌<◌, ◌≡◌, refl, ◌∙◌, ap, arith, true, false, ◌^◌, zero,
  suc, ◌==◌, List, ◌∷◌, length, All, some, write, u32,
}
use ose.Prelude.Outcome.{ok}
use ose.Memory.Immortal.{Immortal}
use ose.Memory.Immortal.Blocks.{InArena, malloc_immortal-room}
use ose.Memory.Pages.Pool.{IsPool, rest}
use ose.Memory.Pages.Supply.{supply}
use ose.Paging.{entry}
use ose.Paging.Kernel.{setup_kernel_paging-MapsKernel}
use ose.Scheduler.{Scheduler, init_scheduler, node_size}
use ose.Interrupts.{Interrupts, interrupt_gate, universal_interrupt_handler}
use ose.Interrupts.Pic.{Pic, disable_io_devices, device_code, system_timer}
use ose.Interrupts.Pic.Masks.{IsOperational, masked, selects, io_devices-masked}
use ose.Processes.Experiments.{Programs, experiment}
use ose.Interrupts.Dispatch.{IsReady, IsRegistered}
use ose.Interrupts.Handlers.{set_interrupt_handler-IsReady}
use ose.Processes.{Kernel, initial_context, set_process, enqueue_process}
use ose.Processes.Start.{schedule_process-first}
use ose.Processes.Life.{
  IsRunning, switched-IsRunning, Event, ByUser, handle_all, handle_all-IsRunning,
}
use ose.Processes.Boot.{register_syscalls, start_first}

start_first-IsRunning :
    (exit : ℕ) (programs : Programs) (pic : Pic) (tables : Interrupts) (k : Kernel)
    (free used : List ℕ)
    → IsPool k.frames free used
    → 4 ≤ supply k.frames free
    → InArena tables.immortal
    → tables.immortal.current 1 + 1576 ≤ 0x400000
    → k.scheduler.current_process ≡ 0
    → k.scheduler.free_list ≡ 0
    → (pdt : ℕ) × (immortal : Immortal) × (k' : Kernel) × (kt : ℕ) × (start_first exit programs pic
          tables k
        ≡ ok (
          pdt,
          initial_context programs.user_process,
          disable_io_devices (device_code system_timer) pic,
          register_syscalls exit (record tables { immortal = immortal }),
          k',
        ))
      × (n : IsRunning k' kt) × (supply k'.frames n.free + 4 ≡ supply k.frames free)
unfolding start_first experiment init_scheduler enqueue_process
start_first-IsRunning exit programs pic tables k free used v room arena space none_current
      none_free =
    let program = programs.user_process in
    let (kt, frames, e, v1, maps, one) = setup_kernel_paging-MapsKernel v (omega arith) in
    let (start, immortal, e2, lo, hi, arena', used_up) =
      malloc_immortal-room tables.immortal 1568 8 arena (omega arith, omega arith) (omega arith) in
    let s : Scheduler = record k.scheduler {
      start = start;
      front = start;
      end = u32 (start + 1568);
    } in
    let p = record (k.processes start) { executable = program; argc = 0; argv = 0 } in
    let k1 : Kernel = record k {
      scheduler = record s {
        front = u32 (start + node_size);
        prev = write s.prev start start;
        next = write s.next start start;
        current_process = start;
        pid = write s.pid start ((start - start) / node_size);
        first_word = write s.first_word start 0;
      };
      processes = set_process start p k.processes;
      frames = frames;
      kernel_pde = entry true true (kt / 0x1000);
    } in
    let self : (start == start) ≡ true = ground arith in
    let first = schedule_process-first s none_current none_free (omega (arith, lo, hi, space)) in
    let (pdt, ctx, k2, e3, entered, n, three) =
      switched-IsRunning k1 kt (rest free) (kt ∷ used) (rw self refl) (rw self refl) v1
        (omega (arith, one)) (ground arith) maps refl in
    let runs : (set_process start p k.processes start).executable ≡ program = rw self refl in
    let begins : ctx ≡ initial_context program = entered ∙ ap initial_context runs in
    let pic' = disable_io_devices (device_code system_timer) pic in
    let tables' = register_syscalls exit (record tables { immortal = immortal }) in
    (
      pdt,
      immortal,
      k2,
      kt,
      rw (e, e2, first, e3) (ap (λ x. ok (pdt, x, pic', tables', k2)) begins),
      n,
      omega (arith, one, three),
    )

-- The gate of the system call.
registered :
    (c exit : ℕ) (tables : Interrupts)
    → IsReady c tables
    → 0 < exit
    → exit < 4294967296
    → let tables' = register_syscalls exit tables in
      IsRegistered interrupt_gate 3 tables' 0x31
      × (universal_interrupt_handler 0x31 tables' ≡ ok exit)
unfolding register_syscalls
registered c exit tables v pos hl =
    let (_, r, _, called, _) =
      set_interrupt_handler-IsReady c 0x31 interrupt_gate 3 exit tables v (omega arith) pos hl in
    (r, called)

other_immortal :
    (c : ℕ) (tables : Interrupts) (immortal : Immortal)
    → IsReady c tables
    → IsReady c (record tables { immortal = immortal })
other_immortal c tables immortal v = record {
  trampolines_end = v.trampolines_end;
  idt_end = v.idt_end;
  table_end = v.table_end;
  code = v.code;
  offsets = v.offsets;
  selectors = v.selectors;
}

one_lt_pow : (n : ℕ) → 1 < 2 ^ suc n
one_lt_pow zero = omega arith
one_lt_pow (suc n) = omega (arith, pow-suc 2 (suc n), one_lt_pow n)

-- SYSTEM_TIMER stands for line 0 only.
timer_selects : (line : ℕ) → 0 < line → line < 16 → selects 1 line ≡ false
timer_selects zero lo hi = absurd (omega arith)
timer_selects (suc n) lo hi =
    let low : 1 / 2 ^ suc n ≡ 0 = div-eq_of_lt (one_lt_pow n) in
    elim (dec_lt (suc n) 8) [
      | yes p ↦ rw (lt→ltb (suc n) 8 p, low) refl
      | no p ↦ (let high : ltb (suc n) 8 ≡ false = ground arith in rw high refl)
    ]

-- Taking SYSTEM_TIMER away masks its line and leaves the others.
timer_masked :
    (pic : Pic)
    → IsOperational pic
    → let pic' = disable_io_devices (device_code system_timer) pic in
      (masked pic' 0 ≡ true)
      × ((line : ℕ) → 0 < line → line < 16 → masked pic' line ≡ masked pic line)
timer_masked pic v = (
  (io_devices-masked 1 0 pic v (omega arith)).1.1 ∙ ground arith,
  λ line lo hi.
      (io_devices-masked 1 line pic v hi).1.1 ∙ rw (timer_selects line lo hi) (ground arith),
)

-- When the interrupt tables and the interrupt controllers are ready, the address of `exit` is a
-- 32-bit word other than 0, no process is scheduled or free, arena 1 has room for the array of
-- processes, and the pool can give four frames and 2048 for each of the faults of user code and
-- exits to come, the last part of `kernel_entry` starts `user_process` from its beginning, with the
-- system call at vector 0x31 open to user code, the line of the timer masked and the other lines as
-- they were; then the kernel handles all these faults and exits without a panic, and a process runs
-- in an address space whose pages are its own, with the table of the kernel below 4 MB.
pub start_first-handle_all :
    (c exit : ℕ) (programs : Programs) (es : List Event) (pic : Pic) (tables : Interrupts)
    (k : Kernel) (free used : List ℕ)
    → IsPool k.frames free used
    → 4 + 2048 * length es ≤ supply k.frames free
    → InArena tables.immortal
    → tables.immortal.current 1 + 1576 ≤ 0x400000
    → k.scheduler.current_process ≡ 0
    → k.scheduler.free_list ≡ 0
    → IsOperational pic
    → IsReady c tables
    → 0 < exit
    → exit < 4294967296
    → All ByUser es
    → (pdt : ℕ) × (pic' : Pic) × (tables' : Interrupts) × (k' : Kernel) × (kt : ℕ) × (k'' : Kernel)
      × (start_first exit programs pic tables k
          ≡ ok (pdt, initial_context programs.user_process, pic', tables', k'))
      × (masked pic' 0 ≡ true)
      × ((line : ℕ) → 0 < line → line < 16 → masked pic' line ≡ masked pic line)
      × IsRegistered interrupt_gate 3 tables' 0x31
      × (universal_interrupt_handler 0x31 tables' ≡ ok exit)
      × (handle_all es k' ≡ ok (some k''))
      × IsRunning k'' kt
start_first-handle_all c exit programs es pic tables k free used v room arena space none_current
      none_free operational ready pos hl users =
    let (pdt, immortal, k', kt, e, n, four) =
      start_first-IsRunning exit programs pic tables k free used v (omega arith) arena space
        none_current none_free in
    let (gate, called) =
      registered c exit (record tables { immortal = immortal })
        (other_immortal c tables immortal ready) pos hl in
    let (k'', e2, n2, cost) = handle_all-IsRunning es k' kt n users (omega (arith, four)) in
    (
      pdt,
      disable_io_devices (device_code system_timer) pic,
      register_syscalls exit (record tables { immortal = immortal }),
      k',
      kt,
      k'',
      e,
      (timer_masked pic operational).0,
      (timer_masked pic operational).1,
      gate,
      called,
      e2,
      n2,
    )
