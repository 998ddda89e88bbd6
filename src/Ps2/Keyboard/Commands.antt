-- ===== src/Ps2/Keyboard/Commands.antt =====
-- The command side of the handler: acknowledgements and the initial commands.
use ose.Prelude.{ℕ, ◌+◌, ◌<◌, ◌≤◌, ◌≡◌, refl, arith, ap, ◌∙◌, u8, some}
use ose.Prelude.{List, [], ◌∷◌, ◌++◌, length, append_assoc, append-nil, length-append, sym}
use mathlib.Core.List.{map}
use ose.Ps2.Devices.{Bus, Poll}
use ose.Ps2.Queue
use ose.Ps2.Queue.{CommandQueue}
use ose.Ps2.Queue.Fifo.{length-window, count, IsQueue, contents, contents-enqueue, IsQueue-step}
use ose.Ps2.Keyboard.{World, enqueue_command, enqueue_commands, init_commands, init_ps2_keyboard}
use ose.Ps2.Keyboard.Sends.{waiting, Takes, log_byte, send_topqueue-taken}

-- The first of the commands, if any, has been sent behind `sent`, and the polls take the others.
abbrev HasSentFirst : ℕ → List ℕ → List Poll → List (ℕ × ℕ) → Bus → Type 0
HasSentFirst c [] rest sent bus = bus ≡ record { polls = rest; sent = sent }
HasSentFirst c (y ∷ ys) rest sent bus = Takes c bus.polls ys rest × (bus.sent ≡ log_byte c y sent)

enqueue_command_lem :
    (c cmd : ℕ) (w : World)
    → IsQueue (w.queues c)
    → length (waiting c w) < 31
    → IsQueue ((enqueue_command c cmd w).queues c)
      × (waiting c (enqueue_command c cmd w) ≡ waiting c w ++ (u8 cmd ∷ []))
unfolding enqueue_command
enqueue_command_lem c cmd w v room =
    let q = w.queues c in
    let self : (enqueue_command c cmd w).queues c ≡ Queue.enqueue cmd q = ground arith in
    let few : count q < 31 = omega (arith, length-window q.buffer q.head (count q)) in
    (rw self (IsQueue-step q cmd v).0, ap contents self ∙ contents-enqueue q cmd v few)

enqueue_commands_lem :
    (c : ℕ) (cs : List ℕ) (w : World)
    → IsQueue (w.queues c)
    → length (waiting c w) + length cs ≤ 31
    → IsQueue ((enqueue_commands c cs w).queues c)
      × (waiting c (enqueue_commands c cs w) ≡ waiting c w ++ map u8 cs)
unfolding enqueue_commands
enqueue_commands_lem c [] w v room = (v, sym (append-nil (waiting c w)))
enqueue_commands_lem c (x ∷ cs) w v room =
    let (v1, e1) = enqueue_command_lem c x w v (omega arith) in
    let more = ap (λ (l : List ℕ). length l) e1 ∙ length-append (waiting c w) (u8 x ∷ []) in
    let (v2, e2) = enqueue_commands_lem c cs (enqueue_command c x w) v1 (omega (arith, more)) in
    (
      v2,
      e2
          ∙ ap (λ (l : List ℕ). l ++ map u8 cs) e1
          ∙ append_assoc (waiting c w) (u8 x ∷ []) (map u8 cs),
    )

enqueue_commands-bus : (c : ℕ) (cs : List ℕ) (w : World) → (enqueue_commands c cs w).bus ≡ w.bus
unfolding enqueue_commands enqueue_command
enqueue_commands-bus c [] w = refl
enqueue_commands-bus c (x ∷ cs) w = enqueue_commands-bus c cs (enqueue_command c x w)

-- From an empty queue, all initial commands wait and the first has been sent.
pub init_ps2_keyboard_lem :
    (c : ℕ) (w : World) (bs : List ℕ) (rest : List Poll)
    → IsQueue (w.queues c)
    → waiting c w ≡ []
    → Takes c w.bus.polls (0xED ∷ bs) rest
    → (w' : World) × (init_ps2_keyboard c w ≡ some w')
      × IsQueue (w'.queues c)
      × (waiting c w' ≡ init_commands)
      × Takes c w'.bus.polls bs rest
      × (w'.bus.sent ≡ log_byte c 0xED w.bus.sent)
unfolding init_ps2_keyboard
init_ps2_keyboard_lem c w bs rest v e t =
    let w1 = enqueue_commands c init_commands w in
    let none_waits = ap (λ (l : List ℕ). length l) e in
    let (v1, e1) = enqueue_commands_lem c init_commands w v (omega (arith, none_waits)) in
    let all : waiting c w1 ≡ init_commands =
      e1 ∙ ap (λ (l : List ℕ). l ++ map u8 init_commands) e in
    let same = enqueue_commands-bus c init_commands w in
    let (next, more, sends) = send_topqueue-taken c w1 rest bs v1 all (rw same t) in
    (
      record w1 { bus = record { polls = next; sent = log_byte c 0xED w1.bus.sent } },
      sends,
      v1,
      all,
      more,
      ap (λ (b : Bus). log_byte c 0xED b.sent) same,
    )
