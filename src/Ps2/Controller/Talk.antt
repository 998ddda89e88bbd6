-- ===== src/Ps2/Controller/Talk.antt =====
-- Conversations with the controller: what is sent and answered, in any number of polls.
use ose.Prelude.{ℕ, ◌%◌, ◌≡◌, refl, sym, Bool, true, false, not, some, List, [], ◌∷◌, ◌++◌, All}
use ose.Ps2.Devices.{Poll, command_port, data_port, send_command, command_loop}
use ose.Ps2.Controller.{
  send_data, data_loop, read_data, answer_loop, read_command_byte, write_command_byte,
  update_command_byte, test_channel,
}

-- A byte sent to a port, or a byte that the controller answers with.
pub data Step : Type 0 where
  sends : (port byte : ℕ) → Step
  answers : (byte : ℕ) → Step

-- The bytes sent, the last one first.
unfoldable pub sent_by : List Step → List (ℕ × ℕ) → List (ℕ × ℕ)
sent_by [] sent = sent
sent_by (sends port byte ∷ ss) sent = sent_by ss ((port, byte) ∷ sent)
sent_by (answers byte ∷ ss) sent = sent_by ss sent

-- The polls of one wait: any number that find the port busy, and one that does not.
abbrev pub Waits : (Poll → Bool) → Bool → List Poll → Poll → Type 0
Waits flag ready ws last = All (λ p. flag p ≡ not ready) ws × (flag last ≡ ready)

-- The polls are those of a controller that takes each byte, and answers, after any number of polls.
unfoldable pub Follows : List Poll → List Step → List Poll → Type 0
Follows polls [] rest = polls ≡ rest
Follows polls (sends port byte ∷ ss) rest =
    (ws : List Poll) × (last : Poll) × (next : List Poll) × (polls ≡ ws ++ last ∷ next)
    × Waits (λ p. p.input_buffer_full) false ws last
    × Follows next ss rest
Follows polls (answers byte ∷ ss) rest =
    (ws : List Poll) × (last : Poll) × (next : List Poll) × (polls ≡ ws ++ last ∷ next)
    × Waits (λ p. p.output_buffer_full) true ws last
    × (last.byte ≡ byte)
    × Follows next ss rest

command_loop-Waits :
    (ws : List Poll) (p : Poll) (next : List Poll) (cmd : ℕ) (sent : List (ℕ × ℕ))
    → Waits (λ p. p.input_buffer_full) false ws p
    → command_loop (ws ++ p ∷ next) cmd sent
      ≡ some (record { polls = next; sent = (command_port, cmd) ∷ sent })
unfolding command_loop
command_loop-Waits [] p next cmd sent h = rw (h.1, command_loop) refl
command_loop-Waits (w ∷ ws) p next cmd sent h =
    rw (h.0.0, command_loop) (command_loop-Waits ws p next cmd sent (h.0.1, h.1))

data_loop-Waits :
    (ws : List Poll) (p : Poll) (next : List Poll) (byte : ℕ) (sent : List (ℕ × ℕ))
    → Waits (λ p. p.input_buffer_full) false ws p
    → data_loop (ws ++ p ∷ next) byte sent
      ≡ some (record { polls = next; sent = (data_port, byte) ∷ sent })
unfolding data_loop
data_loop-Waits [] p next byte sent h = rw (h.1, data_loop) refl
data_loop-Waits (w ∷ ws) p next byte sent h =
    rw (h.0.0, data_loop) (data_loop-Waits ws p next byte sent (h.0.1, h.1))

answer_loop-Waits :
    (ws : List Poll) (p : Poll) (next : List Poll) (sent : List (ℕ × ℕ))
    → Waits (λ p. p.output_buffer_full) true ws p
    → answer_loop (ws ++ p ∷ next) sent ≡ some (p.byte, record { polls = next; sent = sent })
unfolding answer_loop
answer_loop-Waits [] p next sent h = rw (h.1, answer_loop) refl
answer_loop-Waits (w ∷ ws) p next sent h =
    rw (h.0.0, answer_loop) (answer_loop-Waits ws p next sent (h.0.1, h.1))

-- A call follows its own steps and leaves the others.
abbrev Leaves : List Poll → List Step → List Poll → (List Poll → Type 0) → Type 0
Leaves polls ss rest result = (next : List Poll) × result next × Follows next ss rest

module _ (ss : List Step) (rest : List Poll) (polls : List Poll) (sent : List (ℕ × ℕ)) where
  pub send_command-Follows :
      (cmd : ℕ)
      → Follows polls (sends command_port cmd ∷ ss) rest
      → Leaves polls ss rest (λ next.
        send_command cmd (record { polls = polls; sent = sent })
        ≡ some (record { polls = next; sent = (command_port, cmd) ∷ sent }))
  unfolding send_command Follows
  send_command-Follows cmd (ws, last, next, e, h, f) =
      (next, rw e (command_loop-Waits ws last next cmd sent h), f)

  pub send_data-Follows :
      (byte : ℕ)
      → Follows polls (sends data_port byte ∷ ss) rest
      → Leaves polls ss rest (λ next.
        send_data byte (record { polls = polls; sent = sent })
        ≡ some (record { polls = next; sent = (data_port, byte) ∷ sent }))
  unfolding send_data Follows
  send_data-Follows byte (ws, last, next, e, h, f) =
      (next, rw e (data_loop-Waits ws last next byte sent h), f)

  pub read_data-Follows :
      (byte : ℕ)
      → Follows polls (answers byte ∷ ss) rest
      → Leaves polls ss rest (λ next.
        read_data (record { polls = polls; sent = sent })
        ≡ some (byte, record { polls = next; sent = sent }))
  unfolding read_data Follows
  read_data-Follows byte (ws, last, next, e, h, b, f) =
      (next, rw (e, sym b) (answer_loop-Waits ws last next sent h), f)

-- A round of the command byte, and a test of a channel.
abbrev pub command : ℕ → Step
command cmd = sends command_port cmd

abbrev pub update : (c w : ℕ) → List Step → List Step
update c w ss = command 0x20 ∷ answers c ∷ command 0x60 ∷ sends data_port w ∷ ss

module _ (ss : List Step) (rest : List Poll) (polls : List Poll) (sent : List (ℕ × ℕ)) where
  pub read_command_byte-Follows :
      (c : ℕ)
      → Follows polls (command 0x20 ∷ answers c ∷ ss) rest
      → Leaves polls ss rest (λ next.
        read_command_byte (record { polls = polls; sent = sent })
        ≡ some (c, record { polls = next; sent = (command_port, 0x20) ∷ sent }))
  unfolding read_command_byte
  read_command_byte-Follows c f =
      let (p1, e1, f1) = send_command-Follows (answers c ∷ ss) rest polls sent 0x20 f in
      let (p2, e2, f2) = read_data-Follows ss rest p1 ((command_port, 0x20) ∷ sent) c f1 in
      (p2, rw (e1, e2) refl, f2)

  pub update_command_byte-Follows :
      (change : ℕ → ℕ) (c : ℕ)
      → Follows polls (update c (change c) ss) rest
      → Leaves polls ss rest (λ next.
        update_command_byte change (record { polls = polls; sent = sent })
        ≡ some (record {
          polls = next;
          sent = (data_port, change c) ∷ (command_port, 0x60) ∷ (command_port, 0x20) ∷ sent;
        }))
  unfolding update_command_byte read_command_byte write_command_byte
  update_command_byte-Follows change c f =
      let write = command 0x60 ∷ sends data_port (change c) ∷ ss in
      let s1 = (command_port, 0x20) ∷ sent in
      let s2 = (command_port, 0x60) ∷ s1 in
      let (p1, e1, f1) = send_command-Follows (answers c ∷ write) rest polls sent 0x20 f in
      let (p2, e2, f2) = read_data-Follows write rest p1 s1 c f1 in
      let (p3, e3, f3) =
        send_command-Follows (sends data_port (change c) ∷ ss) rest p2 s1 0x60 f2 in
      let (p4, e4, f4) = send_data-Follows ss rest p3 s2 (change c) f3 in
      (p4, rw (e1, e2, e3, e4) refl, f4)

  pub test_channel-Follows :
      (cmd t : ℕ)
      → Follows polls (command cmd ∷ answers t ∷ ss) rest
      → Leaves polls ss rest (λ next.
        test_channel cmd (record { polls = polls; sent = sent })
        ≡ some (t % 16, record { polls = next; sent = (command_port, cmd) ∷ sent }))
  unfolding test_channel
  test_channel-Follows cmd t f =
      let (p1, e1, f1) = send_command-Follows (answers t ∷ ss) rest polls sent cmd f in
      let (p2, e2, f2) = read_data-Follows ss rest p1 ((command_port, cmd) ∷ sent) t f1 in
      (p2, rw (e1, e2) refl, f2)
