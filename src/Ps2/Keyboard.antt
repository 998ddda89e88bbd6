-- ===== src/Ps2/Keyboard.antt =====
-- `keyboard_handler` and `init_ps2_keyboard` of src/drivers/ps2/ps2_keyboard.c.
-- The bytes for a device go over the ports of the controller, which are polled; a character handed to
-- `cputc` and flushed is logged in `typed`, the latest first. `none` means that the polls ran out
-- while the code was waiting.
pub mod Events
pub mod Sends
pub mod Commands
pub mod Resends
pub mod Examples
use ose.Prelude.{ℕ, ◌+◌, ◌-◌, ◌*◌, u8, u32, ltb, ◌==◌, ◌||◌, if◌then◌else◌, Bool, true, false}
use ose.Prelude.{List, [], ◌∷◌, Option, none, some, get_or}
use ose.Ps2.Keys.{KeyCode, byte_to_code, make_char}
use ose.Ps2.Keys.{
  key_none, key_pause, key_alrgr, key_rctrl, key_lgui, key_rgui, key_apps, key_keypad_slash,
  key_keypad_enter, key_end, key_left_arrow, key_home, key_insert, key_delete, key_down_arrow,
  key_right_arrow, key_up_arrow, key_page_down, key_page_up, key_prtscr,
}
use ose.Ps2.Devices.{Bus, select_channel, device_send, ◌>>=◌}
use ose.Ps2.Queue
use ose.Ps2.Queue.{CommandQueue, topqueue}

abbrev pub keyboard_vector : ℕ
keyboard_vector = 0x21

abbrev pub command_resend_threshold : ℕ
command_resend_threshold = 3

-- The static variables of the handler; the flags BREAK, EXT_0 and EXT_1 are `released`, `ext0` and
-- `ext1`.
pub record Decoder : Type 0 where
  pub bytes_to_receive : ℕ
  pub fullcode : ℕ
  pub released : Bool
  pub ext0 : Bool
  pub ext1 : Bool

pub record World : Type 0 where
  pub decoder : Decoder
  pub fail_count : ℕ
  pub queues : ℕ → CommandQueue
  pub bus : Bus
  pub typed : List ℕ

abbrev pub set_queue : ℕ → CommandQueue → World → World
set_queue channel q w = record w { queues = λ c. if c == channel then q else w.queues c }

-- `ps2_device_send_topqueue`, which ignores whether `ps2_device_send` timed out.
unfoldable pub send_topqueue : (channel : ℕ) → World → Option World
send_topqueue channel w = elim (topqueue (w.queues channel)) [
  | none ↦ some w
  | some byte ↦ do
    selected ← select_channel channel w.bus
    (timed_out, bus) ← device_send byte selected
    some (record w { bus = bus })
]

pub queue_pop : ℕ → World → World
queue_pop channel w = set_queue channel (Queue.pop (w.queues channel)) w

-- `send_make_key`.
pub send_make_key : KeyCode → World → World
send_make_key code w = elim (make_char code) [
  | none ↦ w
  | some c ↦ record w { typed = c ∷ w.typed }
]

-- The key of a code behind EXT_0; `none` where the handler returns and waits for more.
pub ext0_key : ℕ → Option KeyCode
ext0_key fullcode =
    if fullcode == 0x11
    then some key_alrgr
    else if fullcode == 0x14
    then some key_rctrl
    else if fullcode == 0x1F
    then some key_lgui
    else if fullcode == 0x27
    then some key_rgui
    else if fullcode == 0x2F
    then some key_apps
    else if fullcode == 0x4A
    then some key_keypad_slash
    else if fullcode == 0x5A
    then some key_keypad_enter
    else if fullcode == 0x69
    then some key_end
    else if fullcode == 0x6B
    then some key_left_arrow
    else if fullcode == 0x6C
    then some key_home
    else if fullcode == 0x70
    then some key_insert
    else if fullcode == 0x71
    then some key_delete
    else if fullcode == 0x72
    then some key_down_arrow
    else if fullcode == 0x74
    then some key_right_arrow
    else if fullcode == 0x75
    then some key_up_arrow
    else if fullcode == 0x7A
    then some key_page_down
    else if fullcode == 0x7D
    then some key_page_up
    else if (fullcode == 0x12) || (fullcode == 0x7C)
    then none
    else if (fullcode == 0x127C) || (fullcode == 0x7C12)
    then some key_prtscr
    else some key_none

-- The key of the code received so far, by the flags.
pub keycode : Decoder → ℕ → Option KeyCode
keycode d code =
    if d.ext1
    then some (if d.fullcode == 0x1477 then key_pause else key_none)
    else if d.ext0
    then ext0_key d.fullcode
    else some (if ltb code 128 then get_or byte_to_code code key_none else key_none)

abbrev pub idle : Decoder
idle = record { bytes_to_receive = 0; fullcode = 0; released = false; ext0 = false; ext1 = false }

-- The default branch of the switch: a byte of a code.
pub receive_code : ℕ → World → World
receive_code code w =
    let d = record (w.decoder) {
      fullcode = u32 (w.decoder.fullcode * 256 + code);
      bytes_to_receive = w.decoder.bytes_to_receive - 1;
    } in
    if ltb 0 d.bytes_to_receive then record w { decoder = d } else elim (keycode d code) [
      | none ↦ record w { decoder = d }
      | some key ↦ record (if d.released then w else send_make_key key w) { decoder = idle }
    ]

-- The RSD branch.
pub resend : ℕ → World → Option World
resend channel w =
    let w' = record w { fail_count = u8 (w.fail_count + 1) } in
    if w'.fail_count == command_resend_threshold
    then some (queue_pop channel w')
    else send_topqueue channel w'

pub keyboard_handler : (vector code : ℕ) → World → Option World
keyboard_handler vector code w =
    let channel : ℕ = if vector == keyboard_vector then 0 else 1 in
    if code == 0xFA
    then send_topqueue channel (queue_pop channel (record w { fail_count = 0 }))
    else if code == 0xFE
    then resend channel w
    else if code == 0xF0
    then some (record w { decoder = record (w.decoder) { released = true } })
    else if code == 0xE0
    then some (record w { decoder = record (w.decoder) { ext0 = true } })
    else if code == 0xE1
    then some (record w { decoder = record (w.decoder) { ext1 = true; bytes_to_receive = 2 } })
    else some (receive_code code w)

-- `ps2_device_enqueue_command`.
pub enqueue_command : (channel cmd : ℕ) → World → World
enqueue_command channel cmd w = set_queue channel (Queue.enqueue cmd (w.queues channel)) w

-- The commands of `init_ps2_keyboard`: LEDs off, scan code set 2, a delay of half a second at 30
-- Hz, and scanning on.
abbrev pub init_commands : List ℕ
init_commands = 0xED ∷ 0 ∷ 0xF0 ∷ 2 ∷ 0xF3 ∷ 0x20 ∷ 0xF4 ∷ []

pub enqueue_commands : ℕ → List ℕ → World → World
enqueue_commands channel [] w = w
enqueue_commands channel (c ∷ cs) w = enqueue_commands channel cs (enqueue_command channel c w)

-- The queueing part of `init_ps2_keyboard`.
pub init_ps2_keyboard : (channel : ℕ) → World → Option World
init_ps2_keyboard channel w = send_topqueue channel (enqueue_commands channel init_commands w)
