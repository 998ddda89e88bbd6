-- ===== src/Ps2/Devices/Exchanges.antt =====
-- What the code makes of a device that answers in time, and of one that does not.
use ose.Prelude.{
  ℕ, suc, ◌+◌, ◌*◌, ◌<◌, ◌≡◌, refl, sym, arith, Bool, true, false, none, some, List, [], ◌∷◌, ◌++◌,
  All,
}
use ose.Ps2.Devices.{
  Poll, deadline, before, send_loop, device_send_from, device_send, read_loop, device_read_from,
  device_read, send_command, command_loop, detect_loop, read_device_id, no_answer,
}

-- The polls of one call: the one for the deadline, those that find the port busy, and the last.
pub record Exchange : Type 0 where
  pub start : Poll
  pub waits : List Poll
  pub last : Poll

pub polls_of : Exchange → List Poll → List Poll
polls_of e rest = e.start ∷ (e.waits ++ e.last ∷ rest)

-- A poll of the given flag before the deadline.
abbrev InTime : ℕ × ℕ → (Poll → Bool) → Bool → Poll → Type 0
InTime limit flag b p = (before limit p ≡ true) × (flag p ≡ b)

abbrev pub input_full : Poll → Bool
input_full p = p.input_buffer_full

abbrev pub output_full : Poll → Bool
output_full p = p.output_buffer_full

-- The controller takes a byte in time; the device answers in time.
abbrev pub IsTaken : Exchange → Type 0
IsTaken e =
    All (InTime (deadline e.start) input_full true) e.waits
    × InTime (deadline e.start) input_full false e.last

abbrev pub IsAnswered : ℕ → Exchange → Type 0
IsAnswered answer e =
    All (InTime (deadline e.start) output_full false) e.waits
    × InTime (deadline e.start) output_full true e.last
    × (e.last.byte ≡ answer)

send_loop_waits :
    (ws : List Poll) (limit : ℕ × ℕ) (p : Poll) (rest : List Poll) (byte : ℕ) (sent : List (ℕ × ℕ))
    → All (InTime limit input_full true) ws
    → InTime limit input_full false p
    → send_loop (ws ++ p ∷ rest) limit byte sent
      ≡ some (0, record { polls = rest; sent = (0x60, byte) ∷ sent })
unfolding send_loop
send_loop_waits [] limit p rest byte sent w l = rw (l.0, l.1, send_loop) refl
send_loop_waits (q ∷ ws) limit p rest byte sent w l =
    rw (w.0.0, w.0.1, send_loop) (send_loop_waits ws limit p rest byte sent w.1 l)

pub device_send_lem :
    (e : Exchange) (rest : List Poll) (byte : ℕ) (sent : List (ℕ × ℕ))
    → IsTaken e
    → device_send byte (record { polls = polls_of e rest; sent = sent })
      ≡ some (0, record { polls = rest; sent = (0x60, byte) ∷ sent })
unfolding device_send device_send_from polls_of
device_send_lem e rest byte sent t =
    send_loop_waits e.waits (deadline e.start) e.last rest byte sent t.0 t.1

read_loop_waits :
    (ws : List Poll) (limit : ℕ × ℕ) (p : Poll) (rest : List Poll) (sent : List (ℕ × ℕ))
    → All (InTime limit output_full false) ws
    → InTime limit output_full true p
    → read_loop (ws ++ p ∷ rest) limit sent ≡ some (p.byte, record { polls = rest; sent = sent })
unfolding read_loop
read_loop_waits [] limit p rest sent w l = rw (l.0, l.1, read_loop) refl
read_loop_waits (q ∷ ws) limit p rest sent w l =
    rw (w.0.0, w.0.1, read_loop) (read_loop_waits ws limit p rest sent w.1 l)

pub device_read_lem :
    (e : Exchange) (rest : List Poll) (answer : ℕ) (sent : List (ℕ × ℕ))
    → IsAnswered answer e
    → device_read (record { polls = polls_of e rest; sent = sent })
      ≡ some (answer, record { polls = rest; sent = sent })
unfolding device_read device_read_from polls_of
device_read_lem e rest answer sent t =
    rw (sym t.2) (read_loop_waits e.waits (deadline e.start) e.last rest sent t.0 t.1)

pub answered : (b : ℕ) → b < 256 → no_answer b ≡ false
answered b h = ground arith

-- If the controller takes DISABLE_SCAN and IDENTIFY in time, and the device answers each with ACK
-- and then sends two bytes, all in time and after any number of polls, then the detection on
-- channel 0 notes the identification with the first byte below the second, and has sent the two
-- commands and nothing else.
pub detect_loop-id :
    (k : ℕ) (disable ack identify ack' low high : Exchange) (l h : ℕ) (rest : List Poll)
    (sent : List (ℕ × ℕ))
    → IsTaken disable
    → IsAnswered 0xFA ack
    → IsTaken identify
    → IsAnswered 0xFA ack'
    → IsAnswered l low
    → IsAnswered h high
    → l < 256
    → h < 256
    → detect_loop (suc k) 0 (record {
      polls =
          polls_of disable
            (polls_of ack (polls_of identify (polls_of ack' (polls_of low (polls_of high rest)))));
      sent = sent;
    })
      ≡ some
          (some (l + h * 256), record { polls = rest; sent = (0x60, 0xF2) ∷ (0x60, 0xF5) ∷ sent })
unfolding detect_loop read_device_id
detect_loop-id k disable ack identify ack' low high l h rest sent td ta ti ta' tl th hl hh =
    let s1 = (0x60, 0xF5) ∷ sent in
    let s2 = (0x60, 0xF2) ∷ s1 in
    let p5 = polls_of high rest in
    let p4 = polls_of low p5 in
    let p3 = polls_of ack' p4 in
    let p2 = polls_of identify p3 in
    let p1 = polls_of ack p2 in
    rw
      (
        device_send_lem disable p1 0xF5 sent td,
        device_read_lem ack p2 0xFA s1 ta,
        device_send_lem identify p3 0xF2 s1 ti,
        device_read_lem ack' p4 0xFA s2 ta',
        device_read_lem low p5 l s2 tl,
        answered l hl,
        device_read_lem high rest h s2 th,
        answered h hh,
      )
      refl

-- `ps2_send_command` waits for ever on a controller that stays busy.
pub send_command-busy :
    (cmd : ℕ) (ps : List Poll) (sent : List (ℕ × ℕ))
    → All (λ p. p.input_buffer_full ≡ true) ps
    → send_command cmd (record { polls = ps; sent = sent }) ≡ none
unfolding send_command command_loop
send_command-busy cmd [] sent h = refl
send_command-busy cmd (p ∷ ps) sent h = rw (h.0, command_loop) (send_command-busy cmd ps sent h.1)
