-- ===== src/Ps2/Queue/Fifo.antt =====
-- A command queue as the list of the commands that wait in it.
use mathlib.Core.Path.{ap₂}
use ose.Prelude.{
  ℕ, zero, suc, ◌+◌, ◌-◌, ◌%◌, ◌<◌, ◌≡◌, ◌≢◌, refl, arith, ap, sym, ◌∙◌, Mem, write, u8,
}
use ose.Prelude.{List, [], ◌∷◌, ◌++◌, length, none, some}
use ose.Ps2.Queue.{CommandQueue, command_queue_size, enqueue, top, pop, topqueue}

pub record IsQueue (q : CommandQueue) : Type 0 where
  pub size_lem : q.size ≡ command_queue_size
  pub head_lt : q.head < command_queue_size
  pub tail_lt : q.tail < command_queue_size

-- `n` bytes from index `h` on, round the end of the ring.
abbrev pub window : Mem → ℕ → ℕ → List ℕ
window b h zero = []
window b h (suc n) = b h ∷ window b ((h + 1) % command_queue_size) n

abbrev pub count : CommandQueue → ℕ
count q = (q.tail + command_queue_size - q.head) % command_queue_size

abbrev pub contents : CommandQueue → List ℕ
contents q = window q.buffer q.head (count q)

window-write :
    (b : Mem) (h n t v : ℕ)
    → h < 32
    → n < 32
    → t ≡ (h + n) % 32
    → window (write b t v) h (suc n) ≡ window b h n ++ (v ∷ [])
window-write b h zero t v hh hn e = ground arith
window-write b h (suc n) t v hh hn e =
    ap₂ ◌∷◌ (ground arith)
      (window-write b ((h + 1) % 32) n t v (omega arith) (omega arith) (omega arith))

pub length-window : (b : Mem) (h n : ℕ) → length (window b h n) ≡ n
length-window b h zero = refl
length-window b h (suc n) = ap suc (length-window b ((h + 1) % 32) n)

window_cons :
    (b : Mem) (h n : ℕ) {x : ℕ} {xs : List ℕ}
    → window b h n ≡ x ∷ xs
    → (n ≢ 0) × (b h ≡ x) × (window b ((h + 1) % 32) (n - 1) ≡ xs)
window_cons b h zero e = absurd (cc)
window_cons b h (suc n) e =
    let same : suc n - 1 ≡ n = omega arith in
    (omega arith, cc, ap (window b ((h + 1) % 32)) same ∙ cc)

-- Every operation keeps the indices in the ring.
pub IsQueue-step :
    (q : CommandQueue) (cmd : ℕ) → IsQueue q → IsQueue (enqueue cmd q) × IsQueue (pop q)
unfolding enqueue pop
IsQueue-step q cmd v = ground arith

-- A command put into a queue of at most 30 goes behind those that wait.
pub contents-enqueue :
    (q : CommandQueue) (cmd : ℕ)
    → IsQueue q
    → count q < 31
    → contents (enqueue cmd q) ≡ contents q ++ (u8 cmd ∷ [])
unfolding enqueue
contents-enqueue q cmd v room =
    let step : (q.tail + 1) % q.size ≡ (q.tail + 1) % 32 = rw v.size_lem in
    let grown : ((q.tail + 1) % q.size + 32 - q.head) % 32 ≡ suc (count q) = omega arith in
    ap (window (write q.buffer q.tail (u8 cmd)) q.head) grown
    ∙ window-write q.buffer q.head (count q) q.tail (u8 cmd) v.head_lt (omega arith) (omega arith)

-- A command put into a queue of 31 empties the queue: all 32 are lost.
pub enqueue_overflow :
    (q : CommandQueue) (cmd : ℕ) → IsQueue q → count q ≡ 31 → contents (enqueue cmd q) ≡ []
unfolding enqueue
enqueue_overflow q cmd v full =
    let step : (q.tail + 1) % q.size ≡ (q.tail + 1) % 32 = rw v.size_lem in
    let none_left : ((q.tail + 1) % q.size + 32 - q.head) % 32 ≡ 0 = omega arith in
    ap (window (write q.buffer q.tail (u8 cmd)) q.head) none_left

-- The top is the oldest command, and a pop drops it.
pub contents-pop :
    (q : CommandQueue) {x : ℕ} {xs : List ℕ}
    → IsQueue q
    → contents q ≡ x ∷ xs
    → (top q ≡ x) × (topqueue q ≡ some x) × (contents (pop q) ≡ xs)
unfolding top topqueue pop
contents-pop q v e =
    let (n, front, back) = window_cons q.buffer q.head (count q) e in
    let step : (q.head + 1) % q.size ≡ (q.head + 1) % 32 = rw v.size_lem in
    let left : (q.tail + 32 - (q.head + 1) % q.size) % 32 ≡ count q - 1 = omega arith in
    (front, ground arith, ap₂ (window q.buffer) step left ∙ back)

-- A pop of an empty queue leaves 31 stale bytes waiting.
pub pop_empty : (q : CommandQueue) → IsQueue q → contents q ≡ [] → length (contents (pop q)) ≡ 31
unfolding pop
pop_empty q v e =
    let step : (q.head + 1) % q.size ≡ (q.head + 1) % 32 = rw v.size_lem in
    let empty : count q ≡ 0 =
      sym (length-window q.buffer q.head (count q)) ∙ ap (λ (l : List ℕ). length l) e in
    omega (
      arith,
      length-window q.buffer ((q.head + 1) % q.size) ((q.tail + 32 - (q.head + 1) % q.size) % 32),
    )

-- A queue with nothing in it is one whose indices meet.
pub topqueue-empty : (q : CommandQueue) → IsQueue q → contents q ≡ [] → topqueue q ≡ none
unfolding topqueue
topqueue-empty q v e =
    ground (arith, ap (λ (l : List ℕ). length l) e, length-window q.buffer q.head (count q))
