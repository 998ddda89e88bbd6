-- ===== src/Processes/Boot.antt =====
-- The last part of `kernel_entry` of src/entry.c, which starts the first process, and
-- `register_syscalls` of src/syscalls.c.
use ose.Prelude.{ℕ}
use ose.Prelude.Outcome.{Outcome, ok, ◌>>=◌}
use ose.Paging.{setup_kernel_paging}
use ose.Scheduler.{init_scheduler}
use ose.Interrupts.{Interrupts, interrupt_gate, set_interrupt_handler}
use ose.Interrupts.Pic.{Pic}
use ose.Processes.Experiments.{Programs, experiment}
use ose.Processes.{IntraContext, Kernel, enqueue_process, switch_process}
pub mod Running
mod Examples

-- USER_PL is 3.
unfoldable pub register_syscalls : (exit : ℕ) → Interrupts → Interrupts
register_syscalls exit tables = set_interrupt_handler 0x31 interrupt_gate 3 exit tables

-- `exit` is the address of the function of syscalls.c. The immortal allocator is the one of the
-- interrupt tables.
unfoldable pub start_first :
    (exit : ℕ)
    → Programs
    → Pic
    → Interrupts
    → Kernel
    → Outcome (ℕ × IntraContext × Pic × Interrupts × Kernel)
start_first exit programs pic tables k = do
  (kernel_pt, kernel_pde, frames) ← setup_kernel_paging k.frames
  (immortal, scheduler) ← init_scheduler tables.immortal k.scheduler
  let tables1 = register_syscalls exit (record tables { immortal = immortal })
  let (program, pic2, tables2) = experiment 1 programs pic tables1
  k1 ←
      enqueue_process program 0 0
        (record k { frames = frames; kernel_pde = kernel_pde; scheduler = scheduler })
  (pdt, ctx, k2) ← switch_process k1
  ok (pdt, ctx, pic2, tables2, k2)
