-- ===== src/Processes/Boot/Examples.antt =====
-- The theorem on the start of the first process at the state in which the kernel starts.
use ose.Prelude.{ℕ, ◌≡◌, ◌<◌, true, refl, arith, some, List, [], ◌∷◌}
use ose.Prelude.Outcome.{ok}
use ose.Memory.Pages.{Frames}
use ose.Memory.Pages.Pool.{IsPool}
use ose.Interrupts.{Interrupts, interrupt_gate, universal_interrupt_handler}
use ose.Interrupts.Dispatch.{IsRegistered}
use ose.Interrupts.Examples.{with_tables, with_tables-IsReady, ready}
use ose.Interrupts.Pic.{Pic}
use ose.Interrupts.Pic.Masks.{masked}
use ose.Processes.Experiments.{Programs}
use ose.Processes.{Kernel, initial_context}
use ose.Processes.Life.{IsRunning, Event, faults, calls_exit, handle_all}
use ose.Processes.Boot.{start_first}
use ose.Processes.Boot.Running.{start_first-handle_all}

-- No frame is held.
abbrev fresh : Frames
fresh = record { ram = λ a. 0; frame_edge = 0x400000; frame_free_list = 0 }

fresh-IsPool : IsPool fresh [] []
fresh-IsPool = record {
  edge_low = omega arith;
  edge_high = omega arith;
  edge_aligned = refl;
  chain = refl;
  free_frames = tt;
  used_frames = tt;
  free_distinct = tt;
  used_distinct = tt;
  apart = λ p h. refl;
  count = refl;
}

abbrev kernel : Kernel
kernel = record {
  scheduler = record {
    start = 0;
    front = 0;
    end = 0;
    free_list = 0;
    current_process = 0;
    next = λ a. 0;
    prev = λ a. 0;
    pid = λ a. 0;
    first_word = λ a. 0;
  };
  processes = λ a. record {
    executable = 0;
    argc = 0;
    argv = 0;
    ctx = initial_context 0;
    lowest_stack_page = 0;
  };
  frames = fresh;
  kernel_pde = 0;
  param = 0;
}

abbrev programs : Programs
programs = record { hack = 0x21000; clr = 0x22000; user_process = 0x20000; halt = 0x23000 }

-- The stack overflows, and the process exits.
abbrev events : List Event
events = faults 6 0x3FFFFC ∷ calls_exit ∷ []

start_first-handle_all_example :
    (pdt : ℕ) × (pic' : Pic) × (tables' : Interrupts) × (k' : Kernel) × (kt : ℕ) × (k'' : Kernel)
    × (start_first 0x13000 programs ready with_tables kernel
        ≡ ok (pdt, initial_context 0x20000, pic', tables', k'))
    × (masked pic' 0 ≡ true)
    × ((line : ℕ) → 0 < line → line < 16 → masked pic' line ≡ masked ready line)
    × IsRegistered interrupt_gate 3 tables' 0x31
    × (universal_interrupt_handler 0x31 tables' ≡ ok 0x13000)
    × (handle_all events k' ≡ ok (some k''))
    × IsRunning k'' kt
start_first-handle_all_example =
    start_first-handle_all 0x10000 0x13000 programs events ready with_tables kernel [] []
      fresh-IsPool (omega arith) (omega arith, omega arith) (omega arith) refl refl (refl, refl)
      with_tables-IsReady (omega arith) (omega arith) (refl, (tt, tt))
