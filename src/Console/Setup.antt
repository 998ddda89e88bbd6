-- ===== src/Console/Setup.antt =====
-- `init_consoles` of src/console.c and `vga_init_printer` of src/drivers/vga/vga.c.
use ose.Prelude.{ℕ, ◌*◌, [], ◌∷◌}
use ose.Prelude.Outcome.{Outcome, ok, ◌>>=◌}
use ose.Memory.Immortal.{Immortal, malloc_immortal}
use ose.Console.Vga.{Vga, vga_clear_screen}
use ose.Console.Flush.{Console, clear_console}
use ose.Console.Print.{read_bytes}
pub mod Blank
mod Examples

unfoldable pub vga_init_printer : (rows columns : ℕ) → Vga → Immortal → Outcome (Vga × Immortal)
vga_init_printer rows columns v immortal = do
  (buffer, immortal') ← malloc_immortal (rows * columns * 2) 0 immortal
  ok (
    vga_clear_screen (record v { page_rows = rows; page_columns = columns; vga_buffer = buffer }),
    immortal',
  )

-- STDOUT_BUFFER_SIZE.
abbrev pub stdout_buffer_size : ℕ
stdout_buffer_size = 512

-- The address of the buffer, and `fullscreen`; the buffer has the bytes that were there.
unfoldable pub init_consoles : Console → Immortal → Outcome (ℕ × Console × Immortal)
init_consoles fullscreen immortal = do
  (base, immortal1) ← malloc_immortal stdout_buffer_size 8 immortal
  (vga, immortal2) ← vga_init_printer 24 80 fullscreen.vga immortal1
  ok (
    base,
    clear_console (record {
      vga = vga;
      buffer = [];
      stale = read_bytes fullscreen.vga.ram base stdout_buffer_size;
      buffer_size = stdout_buffer_size;
      position = record { x = 0; y = 0 };
      size = record { x = 80; y = 24 };
      cursor = record { x = 0; y = 0 };
      default_format = fullscreen.default_format;
      format = fullscreen.default_format;
    }),
    immortal2,
  )
