-- ===== src/Ps2/Queue/Examples.antt =====
-- The theorems on the command queues at concrete queues.
use ose.Prelude.{◌≡◌, arith, [], ◌∷◌}
use ose.Ps2.Queue.{CommandQueue, enqueue}
use ose.Ps2.Queue.Fifo.{contents, contents-enqueue}

-- Two commands, round the end of the ring.
abbrev wrapped : CommandQueue
wrapped = record { buffer = λ i. i; head = 31; tail = 1; size = 32 }

contents-enqueue_example : contents (enqueue 0xED wrapped) ≡ 31 ∷ 0 ∷ 0xED ∷ []
contents-enqueue_example = contents-enqueue wrapped 0xED (omega arith) (omega arith)
