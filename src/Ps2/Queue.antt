-- ===== src/Ps2/Queue.antt =====
-- The command queues of src/drivers/ps2/ps2_device_general.c: a ring of 32 bytes for each channel.
pub mod Fifo
mod Examples
use ose.Prelude.{ℕ, ◌+◌, ◌%◌, Mem, write, u8, ◌==◌, if◌then◌else◌, Option, none, some}

abbrev pub command_queue_size : ℕ
command_queue_size = 32

-- `buffer` maps an index to its byte.
pub record CommandQueue : Type 0 where
  pub buffer : Mem
  pub head : ℕ
  pub tail : ℕ
  pub size : ℕ

-- `ps2_device_enqueue_command`: the write comes before the wrap of the index.
pub enqueue : ℕ → CommandQueue → CommandQueue
enqueue cmd q = record q { buffer = write q.buffer q.tail (u8 cmd); tail = (q.tail + 1) % q.size }

-- `ps2_device_queue_top`.
pub top : CommandQueue → ℕ
top q = q.buffer q.head

-- `ps2_device_queue_pop`.
pub pop : CommandQueue → CommandQueue
pop q = record q { head = (q.head + 1) % q.size }

-- The byte that `ps2_device_send_topqueue` hands to `ps2_device_send`; none if the queue is empty.
pub topqueue : CommandQueue → Option ℕ
topqueue q = if q.head == q.tail then none else some (q.buffer q.head)
