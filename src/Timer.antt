-- ===== src/Timer.antt =====
-- The timer of src/pit.c: the reload value for a frequency, and what an interrupt adds to the clock.
use ose.Prelude.{
  ℕ, ◌+◌, ◌-◌, ◌*◌, ◌/◌, ◌%◌, ◌^◌, Bool, true, false, ltb, leb, ◌==◌, if◌then◌else◌, u8, u16, u32,
  List, [], ◌∷◌,
}
use ose.Interrupts.{Interrupts, direct_set_interrupt_handler, interrupt_gate}
pub mod Reload
pub mod Clock
mod Examples

abbrev pub pit_actual_frequency : ℕ
pit_actual_frequency = 3579545

abbrev pub pit_internal_divider : ℕ
pit_internal_divider = 3

abbrev pub pit_command_port : ℕ
pit_command_port = 0x43

abbrev pub pit_channel0 : ℕ
pit_channel0 = 0x40

abbrev pub system_timer_vector : ℕ
system_timer_vector = 0x20

-- The control word: binary, RATE_GENERATOR, LSB_MSB, COUNTER_0.
abbrev pub control_word : ℕ
control_word = 0 + 2 * 2 + 3 * 16 + 0 * 64

-- The variables of pit.c that init_timer sets, the bytes sent to the ports, the last one first, and
-- the interrupt tables.
pub record Timer : Type 0 where
  pub reload_value_channel0 : ℕ
  pub interrupt_frequency : ℕ
  pub interrupt_millis : ℕ
  pub interrupt_millis_fractions : ℕ
  pub sent : List (ℕ × ℕ)
  pub tables : Interrupts

-- A comparison as a number.
abbrev pub flag : Bool → ℕ
flag b = if b then 1 else 0

-- `a / b + (a % b > b >> 1)`.
abbrev pub rounded : ℕ → ℕ → ℕ
rounded a b = a / b + flag (ltb (b / 2) (a % b))

-- The reload value that `init_timer` passes on.
unfoldable pub reload_for : (frequency : ℕ) → ℕ
reload_for frequency =
    if leb (2 ^ 16) frequency
    then 0
    else if ltb frequency (pit_actual_frequency / 2 ^ 16 / pit_internal_divider)
    then 0xFFFF
    else u16 (rounded (u16 (rounded pit_actual_frequency frequency)) pit_internal_divider)

abbrev pub adjusted : ℕ → ℕ
adjusted reload_value =
    if reload_value == 1 then 2 else if reload_value == 0 then 0x10000 else reload_value

-- The frequency that the code notes; it rounds up from a remainder of 1 on.
unfoldable pub noted_frequency : ℕ → ℕ
noted_frequency reload =
    let f = rounded pit_actual_frequency reload in
    f / pit_internal_divider + flag (ltb (pit_internal_divider / 8) (f % pit_internal_divider))

unfoldable pub mils : ℕ → ℕ
mils reload = (pit_internal_divider * 1000 * 2 ^ 42 / pit_actual_frequency + 1) * reload / 2 ^ 10

unfoldable pub init_timer_with_reload_value : (timer_handler reload_value : ℕ) → Timer → Timer
init_timer_with_reload_value timer_handler reload_value s =
    let reload = adjusted reload_value in
    record {
      reload_value_channel0 = reload;
      interrupt_frequency = noted_frequency reload;
      interrupt_millis = u32 (mils reload / 2 ^ 32);
      interrupt_millis_fractions = u32 (mils reload);
      sent =
          (pit_channel0, u8 (reload / 256))
          ∷ (pit_channel0, u8 reload)
          ∷ (pit_command_port, control_word)
          ∷ s.sent;
      tables =
          direct_set_interrupt_handler system_timer_vector interrupt_gate 0 timer_handler s.tables;
    }

unfoldable pub init_timer : (timer_handler frequency : ℕ) → Timer → Timer
init_timer timer_handler frequency s =
    init_timer_with_reload_value timer_handler (reload_for frequency) s
