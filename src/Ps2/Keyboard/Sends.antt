-- ===== src/Ps2/Keyboard/Sends.antt =====
-- What `ps2_device_send_topqueue` of src/drivers/ps2/ps2_device_general.c sends when the controller
-- takes every byte in time, and the queue of the channel of an interrupt.
use ose.Prelude.{
  arith, ℕ, ◌≡◌, refl, ◌==◌, if◌then◌else◌, List, [], ◌∷◌, Bool-cases, inl, inr, some, ◌∙◌, ap,
}
use ose.Ps2.Devices.{Poll, data_port, command_port, select_channel}
use ose.Ps2.Devices.Exchanges.{Exchange, polls_of, IsTaken, device_send_lem}
use ose.Ps2.Queue
use ose.Ps2.Queue.Fifo.{IsQueue-step, IsQueue, contents, contents-pop, topqueue-empty}
use ose.Ps2.Controller.Talk.{Step, command, Follows, send_command-Follows}
use ose.Ps2.Keyboard.{World, keyboard_vector, queue_pop, send_topqueue}

-- The commands that wait for a channel.
abbrev pub waiting : ℕ → World → List ℕ
waiting c w = contents (w.queues c)

abbrev pub channel_of : ℕ → ℕ
channel_of vector = if vector == keyboard_vector then 0 else 1

-- A pop drops the command in front.
pub queue_pop_lem :
    (c : ℕ) (w : World) {x : ℕ} {xs : List ℕ}
    → IsQueue (w.queues c)
    → waiting c w ≡ x ∷ xs
    → IsQueue ((queue_pop c w).queues c) × (waiting c (queue_pop c w) ≡ xs)
unfolding queue_pop
queue_pop_lem c w v e =
    let popped : (queue_pop c w).queues c ≡ Queue.pop (w.queues c) = ground arith in
    (
      rw popped (IsQueue-step (w.queues c) 0 v).1,
      ap contents popped ∙ (contents-pop (w.queues c) v e).2,
    )

-- WRITE_CHANNEL1_DEVICE, with any number of polls, unless the channel is 0.
abbrev selection : (channel : ℕ) → List Step
selection channel = if channel == 0 then [] else command 0xD4 ∷ []

-- The polls are those of a controller that takes the bytes for a channel, each in time.
unfoldable pub Takes : (channel : ℕ) → List Poll → (bytes : List ℕ) → List Poll → Type 0
Takes channel polls [] rest = polls ≡ rest
Takes channel polls (b ∷ bs) rest =
    (e : Exchange) × (mid : List Poll) × (next : List Poll) × Follows polls (selection channel) mid
    × (mid ≡ polls_of e next)
    × IsTaken e
    × Takes channel next bs rest

-- What goes to the ports for a byte, and for several in order, the last one first.
abbrev pub log_byte : (channel byte : ℕ) → List (ℕ × ℕ) → List (ℕ × ℕ)
log_byte channel byte sent =
    (data_port, byte) ∷ (if channel == 0 then sent else (command_port, 0xD4) ∷ sent)

abbrev pub log_all : (channel : ℕ) → (bytes : List ℕ) → List (ℕ × ℕ) → List (ℕ × ℕ)
log_all channel [] sent = sent
log_all channel (b ∷ bs) sent = log_all channel bs (log_byte channel b sent)

select_channel_lem :
    (channel : ℕ) (polls mid : List Poll) (sent : List (ℕ × ℕ))
    → Follows polls (selection channel) mid
    → select_channel channel (record { polls = polls; sent = sent })
      ≡ some (record {
        polls = mid;
        sent = if channel == 0 then sent else (command_port, 0xD4) ∷ sent;
      })
unfolding Follows
select_channel_lem channel polls mid sent = elim (Bool-cases (channel == 0)) [
  | inl e ↦ rw e (λ same. ap (λ ps. some (record { polls = ps; sent = sent })) same)
  | inr e ↦ rw e (λ f.
      let (next, sends, same) = send_command-Follows [] mid polls sent 0xD4 f in
      sends ∙ ap (λ ps. some (record { polls = ps; sent = (command_port, 0xD4) ∷ sent })) same)
]

-- An empty queue sends nothing.
pub send_topqueue-empty :
    (c : ℕ) (w : World) → IsQueue (w.queues c) → waiting c w ≡ [] → send_topqueue c w ≡ some w
unfolding send_topqueue
send_topqueue-empty c w v e = rw (topqueue-empty (w.queues c) v e, send_topqueue) refl

-- The command in front goes to the device, and stays in the queue.
pub send_topqueue-taken :
    (c : ℕ) (w : World) (rest : List Poll) (bs : List ℕ) {x : ℕ} {xs : List ℕ}
    → IsQueue (w.queues c)
    → waiting c w ≡ x ∷ xs
    → Takes c w.bus.polls (x ∷ bs) rest
    → (next : List Poll) × Takes c next bs rest
      × (send_topqueue c w
          ≡ some (record w { bus = record { polls = next; sent = log_byte c x w.bus.sent } }))
unfolding send_topqueue Takes
send_topqueue-taken c w rest bs {x} v e (x1, mid, next, f, same, t, more) =
    let log = if c == 0 then w.bus.sent else (command_port, 0xD4) ∷ w.bus.sent in
    let selected = select_channel_lem c w.bus.polls mid w.bus.sent f in
    let taken = device_send_lem x1 next x log t in
    (next, more, rw ((contents-pop (w.queues c) v e).1, send_topqueue, selected, same, taken) refl)
