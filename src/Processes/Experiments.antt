-- ===== src/Processes/Experiments.antt =====
-- `experiment` of src/experiments.c, which chooses the first process; the programs are addresses.
use ose.Prelude.{ℕ, ◌==◌, if◌then◌else◌}
use ose.Interrupts.{Interrupts, interrupt_gate, set_interrupt_handler}
use ose.Interrupts.Pic.{Pic, enable_io_devices, disable_io_devices, device_code, system_timer}
use ose.Timer.{system_timer_vector}

-- The functions that `experiment` names.
pub record Programs : Type 0 where
  pub hack : ℕ
  pub clr : ℕ
  pub user_process : ℕ
  pub halt : ℕ

-- KERNEL_PL is 0.
unfoldable pub experiment : (n : ℕ) → Programs → Pic → Interrupts → ℕ × Pic × Interrupts
experiment n programs pic tables =
    let disabled = disable_io_devices (device_code system_timer) pic in
    if n == 0
    then (
      programs.hack,
      enable_io_devices (device_code system_timer) disabled,
      set_interrupt_handler system_timer_vector interrupt_gate 0 programs.clr tables,
    )
    else if n == 1
    then (programs.user_process, disabled, tables)
    else (programs.halt, disabled, tables)
