-- ===== src/Processes.antt =====
-- Processes of src/processes/process.c: how one is enqueued, and what a switch restores.
use ose.Prelude.{
  ℕ, ◌+◌, ◌/◌, ◌%◌, write, ltb, leb, ◌==◌, not, ◌&&◌, Bool, true, false, Option, none, some,
  if◌then◌else◌,
}
use ose.Prelude.Outcome.{Outcome, ok, panic, ◌>>=◌}
use ose.Memory.Pages.{Frames}
use ose.Paging.{create_vas, free_vas, grow_stack}
use ose.Scheduler.{Scheduler, schedule_process, scheduler_next_process}
pub mod Experiments
pub mod Start
pub mod Ends
pub mod Faults
pub mod Life
pub mod Boot
mod Examples

abbrev pub app_code_segment : ℕ
app_code_segment = 0x18 + 3

abbrev pub app_data_segment : ℕ
app_data_segment = 0x20 + 3

-- `Context`, and `IntraContext` with the stack of the user code.
pub record Context : Type 0 where
  pub edi : ℕ
  pub esi : ℕ
  pub ebp : ℕ
  pub esp : ℕ
  pub ebx : ℕ
  pub edx : ℕ
  pub ecx : ℕ
  pub eax : ℕ
  pub gs : ℕ
  pub fs : ℕ
  pub es : ℕ
  pub ds : ℕ
  pub vector : ℕ
  pub error_code : ℕ
  pub eip : ℕ
  pub cs : ℕ
  pub eflags : ℕ

pub record IntraContext : Type 0 where
  pub context : Context
  pub ss : ℕ
  pub esp : ℕ

-- The fields of a process that the scheduler does not hold.
pub record Process : Type 0 where
  pub executable : ℕ
  pub argc : ℕ
  pub argv : ℕ
  pub ctx : IntraContext
  pub lowest_stack_page : ℕ

-- The processes by the addresses of their nodes; `first_word` of the scheduler is their `pdt`.
-- `param` counts the processes that have ended.
pub record Kernel : Type 0 where
  pub scheduler : Scheduler
  pub processes : ℕ → Process
  pub frames : Frames
  pub kernel_pde : ℕ
  pub param : ℕ

abbrev pub set_process : ℕ → Process → (ℕ → Process) → ℕ → Process
set_process node process processes x = if x == node then process else processes x

unfoldable pub enqueue_process : (func argc argv : ℕ) → Kernel → Outcome Kernel
enqueue_process func argc argv k = do
  (node, s) ← schedule_process k.scheduler
  let p = record (k.processes node) { executable = func; argc = argc; argv = argv }
  ok (record k {
    scheduler = record s { first_word = write s.first_word node 0 };
    processes = set_process node p k.processes;
  })

-- The context that a process starts with.
abbrev pub initial_context : (executable : ℕ) → IntraContext
initial_context executable = record {
  context = record {
    edi = 0;
    esi = 0;
    ebp = 0;
    esp = 0;
    ebx = 0;
    edx = 0;
    ecx = 0;
    eax = 0;
    gs = app_data_segment;
    fs = app_data_segment;
    es = app_data_segment;
    ds = app_data_segment;
    vector = 0;
    error_code = 0;
    eip = executable;
    cs = app_code_segment;
    eflags = 0x202;
  };
  ss = app_data_segment;
  esp = 0x800000;
}

-- The directory and the context that are loaded, and the state that is left.
unfoldable pub switch_process : Kernel → Outcome (ℕ × IntraContext × Kernel)
switch_process k =
    let (node, s) = scheduler_next_process k.scheduler in
    let p = k.processes node in
    if s.first_word node == 0
    then (do
      (pdt, frames) ← create_vas k.kernel_pde k.frames
      let ctx = initial_context p.executable
      let p' = record p { ctx = ctx; lowest_stack_page = 0x7FF000 }
      ok (
        pdt,
        ctx,
        record k {
          scheduler = record s { first_word = write s.first_word node pdt };
          processes = set_process node p' k.processes;
          frames = frames;
        },
      ))
    else ok (s.first_word node, p.ctx, record k { scheduler = s })

-- What `exit` and the page fault handler share: the address space of the current process is
-- released, and the next process runs.
unfoldable pub end_process : Kernel → Outcome (ℕ × IntraContext × Kernel)
end_process k =
    let current = k.scheduler.current_process in
    let s = k.scheduler in
    switch_process (record k {
      scheduler = record s { first_word = write s.first_word current 0 };
      frames = free_vas (s.first_word current) k.frames;
      param = k.param + 1;
    })

-- `exit`, with the number that it prints.
unfoldable pub exit : Kernel → Outcome (ℕ × ℕ × IntraContext × Kernel)
exit k = do
  (pdt, ctx, k') ← end_process k
  ok ((k.processes k.scheduler.current_process).lowest_stack_page, pdt, ctx, k')

-- The strings that the page fault handler prints.
pub data Message : Type 0 where
  npe : Message
  soe : Message
  ub : Message

-- A fault ends with the process going on, or with a message and another context.
pub data Handled : Type 0 where
  resumed : Kernel → Handled
  ended : Message → (pdt : ℕ) → IntraContext → Kernel → Handled

abbrev pub user_flag : ℕ → Bool
user_flag error_code = error_code / 4 % 2 == 1

abbrev give_up : Message → Kernel → Outcome (Option Handled)
give_up message k = do (pdt, ctx, k') ← end_process k; ok (some (ended message pdt ctx k'))

-- The new lowest page and the frames after the stack has grown.
abbrev grown : Kernel → Option (ℕ × Frames) → Option Handled
grown k none = none
grown k (some (lowest, frames)) =
    let node = k.scheduler.current_process in
    let p = record (k.processes node) { lowest_stack_page = lowest } in
    some (resumed (record k { frames = frames; processes = set_process node p k.processes }))

-- `cr2` is the register that `collect_cr` reads. The stack grows with fuel for each of its pages;
-- `none` means that the fuel ran out.
unfoldable pub pagefault_handler : (error_code cr2 : ℕ) → Kernel → Outcome (Option Handled)
pagefault_handler error_code cr2 k =
    let node = k.scheduler.current_process in
    let lowest = (k.processes node).lowest_stack_page in
    if not (user_flag error_code)
    then panic
    else if ltb cr2 0x7000
    then give_up npe k
    else if leb 0x80000 cr2 && ltb cr2 0x400000
    then give_up soe k
    else if leb 0x400000 cr2 && ltb cr2 0x800000
    then (grow_stack 1025 (k.scheduler.first_word node) cr2 lowest lowest k.frames >>= λ r.
        ok (grown k r))
    else give_up ub k
