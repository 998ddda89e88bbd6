-- ===== src/Ps2/Startup/Delivery.antt =====
-- Whether the interrupts of a keyboard get to its handler.
use ose.Prelude.{
  ℕ, ◌<◌, ◌≡◌, ◌≢◌, inl, inr, refl, arith, not, ◌||◌, ◌==◌, Bool-cases, some, List, [], ◌∷◌,
  if◌then◌else◌,
}
use ose.Prelude.Outcome.{ok}
use ose.Interrupts.{interrupt_gate, set_interrupt_handler, universal_interrupt_handler}
use ose.Interrupts.Dispatch.{IsReady, IsRegistered, interrupt}
use ose.Interrupts.Handlers.{entered, set_interrupt_handler-IsReady}
use ose.Interrupts.Pic.{Pic, enable_io_devices, device_code, keyboard, mouse}
use ose.Interrupts.Pic.Masks.{IsOperational, masked, delivered, io_devices-masked}
use ose.Ps2.Devices.{Poll, command_port}
use mathlib.Core.Path.{ap₂}
use ose.Ps2.Queue.Fifo.{IsQueue}
use ose.Ps2.Keyboard.{init_commands, keyboard_vector}
use ose.Ps2.Keyboard.Sends.{waiting, Takes, log_byte}
use ose.Ps2.Keyboard.Commands.{init_ps2_keyboard_lem}
use ose.Ps2.Controller.Talk.{Follows, command, send_command-Follows}
use ose.Ps2.Startup.{Machine, mouse_vector, start_keyboard}

-- The line of the interrupt controllers and the vector of a channel.
abbrev pub line_of : (channel : ℕ) → ℕ
line_of channel = if channel == 0 then 1 else 12

abbrev pub vector_of : (channel : ℕ) → ℕ
vector_of channel = if channel == 0 then keyboard_vector else mouse_vector

abbrev pub command_of : (channel : ℕ) → ℕ
command_of channel = if channel == 0 then 0xAE else 0xA8

abbrev device_of : (channel : ℕ) → ℕ
device_of channel = if channel == 0 then device_code keyboard else device_code mouse

enable_io_devices-delivered :
    (channel : ℕ) (pic : Pic)
    → IsOperational pic
    → IsOperational (enable_io_devices (device_of channel) pic)
      × (delivered (enable_io_devices (device_of channel) pic) (line_of channel)
          ≡ (channel == 0 || not (masked pic 2)))
enable_io_devices-delivered channel pic v = elim (Bool-cases (channel == 0)) [
  | inl e ↦ rw e (
      let (o, m) = (io_devices-masked (device_code keyboard) 1 pic v (omega arith)).0 in
      (o, rw m (ground arith)))
  | inr e ↦ rw e (
      let (o, m) = (io_devices-masked (device_code mouse) 12 pic v (omega arith)).0 in
      let (_, cascade) = (io_devices-masked (device_code mouse) 2 pic v (omega arith)).0 in
      (o, rw (m, cascade) (ground arith)))
]

-- When the interrupt tables and the interrupt controllers are ready, the address of the handler is a
-- 32-bit word other than 0, the queue of the channel is empty, and the controller of the keyboard
-- takes its command and then, in time, the first byte for the device, `init_ps2_keyboard` returns.
-- Then an interrupt with the vector of the channel is taken and gets to the handler, all other
-- vectors are as before, and the line of the channel is delivered, for channel 1 only if line 2 of
-- the master was not masked before. The command and the first byte, for channel 1 behind a 0xD4, have
-- been sent and nothing else, and all initial commands wait in the queue.
pub start_keyboard-delivered :
    (channel c handler : ℕ) (m : Machine) (mid rest : List Poll)
    → IsReady c m.tables
    → IsOperational m.pic
    → 0 < handler
    → handler < 4294967296
    → let vector = vector_of channel in
      IsQueue (m.world.queues channel)
      → waiting channel m.world ≡ []
      → Follows m.world.bus.polls (command (command_of channel) ∷ []) mid
      → Takes channel mid (0xED ∷ []) rest
      → (m' : Machine) × (start_keyboard channel handler m ≡ some m')
        × IsReady c m'.tables
        × IsRegistered interrupt_gate 0 m'.tables vector
        × (interrupt m'.tables vector ≡ some (some (entered c vector)))
        × (universal_interrupt_handler vector m'.tables ≡ ok handler)
        × ((i : ℕ)
            → i < 256
            → i ≢ vector
            → (interrupt m'.tables i ≡ interrupt m.tables i)
              × (universal_interrupt_handler i m'.tables ≡ universal_interrupt_handler i m.tables))
        × IsOperational m'.pic
        × (delivered m'.pic (line_of channel) ≡ (channel == 0 || not (masked m.pic 2)))
        × (m'.world.bus ≡ record {
          polls = rest;
          sent = log_byte channel 0xED ((command_port, command_of channel) ∷ m.world.bus.sent);
        })
        × (waiting channel m'.world ≡ init_commands)
unfolding start_keyboard Follows Takes
start_keyboard-delivered channel c handler m mid rest v o pos hl q none_waits f t =
    let polls = m.world.bus.polls in
    let sent = m.world.bus.sent in
    let sent' = (command_port, command_of channel) ∷ sent in
    let (p1, e1, f1) = send_command-Follows [] mid polls sent (command_of channel) f in
    let w = record m.world { bus = record { polls = mid; sent = sent' } } in
    let (w', e2, _, all, same, log) = init_ps2_keyboard_lem channel w [] rest q none_waits t in
    let (v', r, taken, called, others) =
      set_interrupt_handler-IsReady c (vector_of channel) interrupt_gate 0 handler m.tables v
        (ground arith) pos hl in
    let (o', d) = enable_io_devices-delivered channel m.pic o in
    let m' : Machine = record {
      tables = set_interrupt_handler (vector_of channel) interrupt_gate 0 handler m.tables;
      pic = enable_io_devices (device_of channel) m.pic;
      world = w';
    } in
    let bus : w'.bus ≡ record { polls = rest; sent = log_byte channel 0xED sent' } =
      ap₂ (λ ps l. record { polls = ps; sent = l }) same log in
    (m', rw (e1, f1, e2) refl, v', r, taken, called, others, o', d, bus, all)
