-- ===== src/Console/Vga/Examples.antt =====
-- A screen of 24 rows of 80 cells.
use ose.Prelude.{◌%◌, false}
use ose.Console.Vga.{Vga}

abbrev screen : Vga
screen = record {
  ram = λ a. a % 256;
  page_rows = 24;
  page_columns = 80;
  vga_buffer = 0x200000;
  buffer_sync = false;
}
