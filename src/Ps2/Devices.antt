-- ===== src/Ps2/Devices.antt =====
-- Talking to the devices: src/drivers/ps2/ps2_device_general.c and the commands of
-- src/drivers/ps2/ps2_controller.c, on the list of what the polls of the ports will see.
use ose.Prelude.{
  ℕ, zero, suc, ◌+◌, ◌*◌, ◌/◌, ◌%◌, ◌≡◌, Bool, true, false, not, ◌&&◌, ◌||◌, Option, none, some,
  List, [], ◌∷◌, ltb, leb, ◌==◌, if◌then◌else◌, u32,
}
pub mod Exchanges
pub mod Reset
mod Examples

abbrev pub data_port : ℕ
data_port = 0x60

abbrev pub command_port : ℕ
command_port = 0x64

-- A round of a polling loop: the clock, the status register, and the data register.
pub record Poll : Type 0 where
  pub millis : ℕ
  pub millis_fractions : ℕ
  pub input_buffer_full : Bool
  pub output_buffer_full : Bool
  pub byte : ℕ

-- The polls to come, and the bytes sent to the ports, the last one first.
pub record Bus : Type 0 where
  pub polls : List Poll
  pub sent : List (ℕ × ℕ)

-- `none` means that the polls ran out while the code was waiting.
infixl 5 ◌>>=◌
abbrev pub ◌>>=◌ {ℓ κ} : {A : Type ℓ} {B : Type κ} → Option A → (A → Option B) → Option B
none >>= next = none
some a >>= next = next a

-- The time of the poll and half a millisecond, in 32.32 fixed point.
abbrev pub deadline : Poll → ℕ × ℕ
deadline p =
    let low = p.millis_fractions + 0x80000000 in
    (u32 (p.millis + 0 + (if ltb low 4294967296 then 0 else 1)), u32 low)

abbrev pub before : ℕ × ℕ → Poll → Bool
before (ms, msf) p = ltb p.millis ms || (ms == p.millis) && ltb p.millis_fractions msf

unfoldable pub send_loop :
    List Poll → (limit : ℕ × ℕ) → (byte : ℕ) → List (ℕ × ℕ) → Option (ℕ × Bus)
send_loop [] limit byte sent = none
send_loop (p ∷ ps) limit byte sent = elim (before limit p) [
  | false ↦ some (1, record { polls = ps; sent = sent })
  | true ↦ elim p.input_buffer_full [
    | true ↦ send_loop ps limit byte sent
    | false ↦ some (0, record { polls = ps; sent = (data_port, byte) ∷ sent })
  ]
]

unfoldable pub device_send_from : List Poll → (byte : ℕ) → List (ℕ × ℕ) → Option (ℕ × Bus)
device_send_from [] byte sent = none
device_send_from (p ∷ ps) byte sent = send_loop ps (deadline p) byte sent

unfoldable pub device_send : (byte : ℕ) → Bus → Option (ℕ × Bus)
device_send byte bus = device_send_from bus.polls byte bus.sent

unfoldable pub read_loop : List Poll → (limit : ℕ × ℕ) → List (ℕ × ℕ) → Option (ℕ × Bus)
read_loop [] limit sent = none
read_loop (p ∷ ps) limit sent = elim (before limit p) [
  | false ↦ some (0xFFFF, record { polls = ps; sent = sent })
  | true ↦ elim p.output_buffer_full [
    | false ↦ read_loop ps limit sent
    | true ↦ some (p.byte, record { polls = ps; sent = sent })
  ]
]

unfoldable pub device_read_from : List Poll → List (ℕ × ℕ) → Option (ℕ × Bus)
device_read_from [] sent = none
device_read_from (p ∷ ps) sent = read_loop ps (deadline p) sent

unfoldable pub device_read : Bus → Option (ℕ × Bus)
device_read bus = device_read_from bus.polls bus.sent

-- `ps2_send_command`, which waits without a limit.
unfoldable pub command_loop : List Poll → (cmd : ℕ) → List (ℕ × ℕ) → Option Bus
command_loop [] cmd sent = none
command_loop (p ∷ ps) cmd sent = elim p.input_buffer_full [
  | true ↦ command_loop ps cmd sent
  | false ↦ some (record { polls = ps; sent = (command_port, cmd) ∷ sent })
]

unfoldable pub send_command : (cmd : ℕ) → Bus → Option Bus
send_command cmd bus = command_loop bus.polls cmd bus.sent

abbrev pub reset_retry_count : ℕ
reset_retry_count = 3

abbrev pub detect_retry_count : ℕ
detect_retry_count = 3

-- CHANNEL_OK.
abbrev pub channel_ok : ℕ
channel_ok = 0

-- `PS2DeviceState`.
pub data DeviceState : Type 0 where
  device_ok : DeviceState
  timed_out : DeviceState
  bad_acknowledgement : DeviceState
  bat_failed : DeviceState
  communication_failed : DeviceState

-- `answer & 0xff00`.
abbrev pub no_answer : ℕ → Bool
no_answer answer = not (answer / 256 % 256 == 0)

-- WRITE_CHANNEL1_DEVICE before a byte for channel 1.
abbrev pub select_channel : (channel : ℕ) → Bus → Option Bus
select_channel channel bus = if channel == 0 then some bus else send_command 0xD4 bus

-- A round of the loop of `ps2_reset_device`: ACK is 0xFA and BAT is 0xAA.
unfoldable pub reset_round : (channel : ℕ) → Bus → Option (DeviceState × Bus)
reset_round channel bus = do
  b1 ← select_channel channel bus
  (busy, b2) ← device_send 0xFF b1
  if not (busy == 0) then some (communication_failed, b2) else do
    (answer, b3) ← device_read b2
    if no_answer answer
        then some (timed_out, b3)
        else if not (answer == 0xFA)
        then some (bad_acknowledgement, b3)
        else do
          (bat, b4) ← device_read b3
          some (
            if no_answer bat
                then timed_out
                else if not (bat == 0xAA)
                then bat_failed
                else device_ok,
            b4,
          )

-- The loop with `k` rounds left.
unfoldable pub reset_loop : (k : ℕ) → (channel : ℕ) → DeviceState → Bus → Option (DeviceState × Bus)
reset_loop zero channel status bus = some (status, bus)
reset_loop (suc k) channel status bus = elim (reset_round channel bus) [
  | none ↦ none
  | some (device_ok, b) ↦ some (device_ok, b)
  | some (failed, b) ↦ reset_loop k channel failed b
]

-- For a channel whose test succeeded; the last status is for the messages.
unfoldable pub reset_device : (channel : ℕ) → Bus → Option (DeviceState × Bus)
reset_device channel bus = do
  b ← send_command (if channel == 0 then 0xAE else 0xA8) bus
  reset_loop reset_retry_count channel device_ok b

-- `first | second << 8` for a byte `first`, whose upper byte is 0.
abbrev pub or16 : (first second : ℕ) → ℕ
or16 first second = first + second * 256

-- AT_KEYBOARD for a device that sends no identification.
unfoldable pub read_device_id : Bus → Option (ℕ × Bus)
read_device_id bus = do
  (first, b1) ← device_read bus
  if no_answer first then some (0x10000, b1) else do
    (second, b2) ← device_read b1
    some (if no_answer second then first else or16 first second, b2)

-- The loop of `ps2_detect_devices` for a channel, with `k` rounds left; `none` inside means that no
-- device was noted. DISABLE_SCAN is 0xF5 and IDENTIFY is 0xF2.
unfoldable pub detect_loop : (k : ℕ) → (channel : ℕ) → Bus → Option (Option ℕ × Bus)
detect_loop zero channel bus = some (none, bus)
detect_loop (suc k) channel bus =
    let again = detect_loop k channel in
    do
      b1 ← select_channel channel bus
      (_, b2) ← device_send 0xF5 b1
      (ack, b3) ← device_read b2
      elim (ack == 0xFA) [
        | false ↦ again b3
        | true ↦ do
          b4 ← select_channel channel b3
          (_, b5) ← device_send 0xF2 b4
          (ack', b6) ← device_read b5
          elim (ack' == 0xFA) [
            | false ↦ again b6
            | true ↦ do (id, b7) ← read_device_id b6; some (some id, b7)
          ]
      ]

-- `ps2_reset_device` for a channel with its status.
unfoldable pub reset_if_ok : (channel : ℕ) → (status : ℕ) → Bus → Option Bus
reset_if_ok channel status bus =
    if status == channel_ok then (reset_device channel bus >>= λ r. some r.1) else some bus

unfoldable pub reset_devices : (status0 status1 : ℕ) → Bus → Option Bus
reset_devices status0 status1 bus = do b ← reset_if_ok 0 status0 bus; reset_if_ok 1 status1 b

abbrev from_option : ℕ → Option ℕ → ℕ
from_option n none = n
from_option n (some m) = m

-- The entry of `devices` for a channel: the identification, or what was there.
unfoldable pub detect_if_ok : (channel : ℕ) → (status device : ℕ) → Bus → Option (ℕ × Bus)
detect_if_ok channel status device bus =
    if status == channel_ok
    then (detect_loop detect_retry_count channel bus >>= λ r. some (from_option device r.0, r.1))
    else some (device, bus)

unfoldable pub detect_devices : (status0 status1 device0 device1 : ℕ) → Bus → Option (ℕ × ℕ × Bus)
detect_devices status0 status1 device0 device1 bus = do
  (id0, b) ← detect_if_ok 0 status0 device0 bus
  (id1, b') ← detect_if_ok 1 status1 device1 b
  some (id0, id1, b')
