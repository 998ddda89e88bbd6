-- ===== src/Scheduler.antt =====
-- The scheduler of src/processes/scheduler/scheduler.c: processes in a cyclic doubly linked list,
-- in an array of immortal memory. A field of the nodes is a map from the address of a node.
use ose.Prelude.{ℕ, zero, suc, ◌+◌, ◌-◌, ◌*◌, ◌/◌, leb, ◌==◌, if◌then◌else◌, Mem, write, u32}
use ose.Prelude.Outcome.{Outcome, ok, panic, ◌>>=◌}
use ose.Memory.Immortal.{Immortal, malloc_immortal}
pub mod Ring
pub mod Turns
pub mod Capacity
pub mod Examples

abbrev pub pid_max : ℕ
pid_max = 16

-- `sizeof(Process)` of processes/process.h: five words, the IntraContext and a word. All is packed:
-- the IntraContext has 74 bytes, a Context of 68, `esp` and the two bytes of `ss`.
abbrev pub process_size : ℕ
process_size = 98

-- `sizeof(SchedulerNode)`, which is not packed: the process, two bytes of padding and two pointers.
abbrev pub node_size : ℕ
node_size = 108

-- The variables of the scheduler and the fields of the nodes. `first_word` is the first word of a
-- node, the page directory of its process, in which a free node has its link.
pub record Scheduler : Type 0 where
  pub start : ℕ
  pub front : ℕ
  pub end : ℕ
  pub free_list : ℕ
  pub current_process : ℕ
  pub next : Mem
  pub prev : Mem
  pub pid : Mem
  pub first_word : Mem

unfoldable pub alloc_process : Scheduler → Outcome (ℕ × Scheduler)
alloc_process s =
    if s.free_list == 0
    then (if leb s.end s.front
        then panic
        else ok (s.front, record s { front = u32 (s.front + node_size) }))
    else ok (s.free_list, record s { free_list = s.first_word s.free_list })

unfoldable pub free_process : ℕ → Scheduler → Scheduler
free_process process s = record s {
  first_word = write s.first_word process s.free_list;
  free_list = process;
}

unfoldable pub init_scheduler : Immortal → Scheduler → Outcome (Immortal × Scheduler)
init_scheduler immortal s = do
  (start, immortal') ← malloc_immortal (pid_max * process_size) 8 immortal
  ok (
    immortal',
    record s { start = start; front = start; end = u32 (start + pid_max * process_size) },
  )

-- The node between the current process and the one before it, or a ring of its own.
unfoldable pub link : ℕ → Scheduler → Scheduler
link node s =
    let current = s.current_process in
    if current == 0
    then record s {
      prev = write s.prev node node;
      next = write s.next node node;
      current_process = node;
    }
    else (let prev' = write s.prev node (s.prev current) in
        record s {
          next = write (write s.next node current) (prev' current) node;
          prev = write prev' current node;
        })

unfoldable pub schedule_process : Scheduler → Outcome (ℕ × Scheduler)
schedule_process s = do
  (node, s') ← alloc_process s
  let linked = link node s'
  ok (node, record linked { pid = write linked.pid node ((node - linked.start) / node_size) })

unfoldable pub scheduler_next_process : Scheduler → ℕ × Scheduler
scheduler_next_process s =
    let current = s.next s.current_process in (current, record s { current_process = current })

abbrev pub scheduler_current_process : Scheduler → ℕ
scheduler_current_process s = s.current_process
