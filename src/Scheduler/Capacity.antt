-- ===== src/Scheduler/Capacity.antt =====
-- How many processes fit in the array that `init_scheduler` reserves.
use ose.Prelude.{ℕ, ◌+◌, ◌*◌, ◌≤◌, ◌<◌, ◌≡◌, refl, arith, true, ◌==◌, leb, List, length}
use ose.Prelude.Outcome.{ok, panic}
use ose.Scheduler.{Scheduler, pid_max, process_size, node_size, alloc_process, schedule_process}
use ose.Scheduler.Ring.{IsScheduler, schedule_process-node}

-- In an array of the size that `init_scheduler` reserves, a scheduler with 15 processes or more,
-- all in its ring, panics on the next `schedule_process`, although pid_max is 16.
pub schedule_process-panic :
    (s : Scheduler) (ring : List ℕ)
    → IsScheduler s ring
    → s.end ≡ s.start + pid_max * process_size
    → 15 ≤ length ring
    → schedule_process s ≡ panic
unfolding schedule_process alloc_process
schedule_process-panic s ring i e h =
    let free : (s.free_list == 0) ≡ true = ground (arith, i.none_free) in
    let no_room : leb s.end s.front ≡ true = ground (arith, i.array) in rw (free, no_room) refl

-- In an array of the size that `init_scheduler` reserves, a scheduler with 14 processes, all in its
-- ring, hands out a node that ends 52 bytes behind the end of the array.
pub schedule_process-overrun :
    (s : Scheduler) (ring : List ℕ)
    → IsScheduler s ring
    → s.end ≡ s.start + pid_max * process_size
    → length ring ≡ 14
    → (node : ℕ) × (s' : Scheduler) × (schedule_process s ≡ ok (node, s'))
      × (node + node_size ≡ s.end + 52)
schedule_process-overrun s ring i e h =
    let room : s.front < s.end = omega (arith, i.array) in
    let (s', p) = schedule_process-node s ring i room in (s.front, s', p, omega (arith, i.array))
