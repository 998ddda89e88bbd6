-- ===== src/Console/Flush/Examples.antt =====
-- A console of 80 by 24 cells as `init_consoles` sets it up.
use ose.Prelude.{◌+◌, ◌≡◌, refl, arith, [], ◌∷◌, true, inr}
use ose.Prelude.Int.{pos}
use ose.Console.Vga.{Vga}
use ose.Console.Ansi.{Format, process_graphic_escape_sequence}
use ose.Console.Ansi.Colours.{process_graphic_escape_sequence_lem}
use ose.Console.Vga.Screen.{IsVga}
use ose.Console.Flush.Scroll.{Covers, cscroll_lem}
use ose.Console.Flush.{Console, cscroll}
use ose.Console.Flush.Cursor.{Fits}

abbrev white : Format
white = record { foreground = 15; background = 0 }

process_graphic_escape_sequence_lem_example :
    process_graphic_escape_sequence white (pos 93) white
    ≡ record { foreground = 14; background = 0 }
process_graphic_escape_sequence_lem_example = process_graphic_escape_sequence_lem white white 93

abbrev screen : Vga
screen = record {
  ram = λ a. 0;
  page_rows = 24;
  page_columns = 80;
  vga_buffer = 0x200000;
  buffer_sync = true;
}

abbrev pub fullscreen : Console
fullscreen = record {
  vga = screen;
  buffer = b'H' ∷ b'i' ∷ 27 ∷ b'[' ∷ [];
  stale = [];
  buffer_size = 512;
  position = record { x = 0; y = 0 };
  size = record { x = 80; y = 24 };
  cursor = record { x = 79; y = 23 };
  default_format = white;
  format = white;
}

pub fullscreen-Fits : Fits 80 24 512 fullscreen
fullscreen-Fits = record {
  width = refl;
  bottom = refl;
  column = omega arith;
  row = omega arith;
  some_row = omega arith;
  capacity = refl;
  some_room = omega arith;
}

fullscreen-Covers : Covers fullscreen
fullscreen-Covers = record { left = refl; top = refl; width = refl; height = refl }

screen-IsVga : IsVga screen
screen-IsVga = record {
  apart = (omega arith, omega arith, omega arith, inr (omega arith));
  synced = λ e k h. refl;
}

cscroll_lem_example :
    ((cscroll fullscreen).vga.ram (0x200000 + 3681) ≡ 15)
    × ((cscroll fullscreen).cursor.x ≡ 79)
    × ((cscroll fullscreen).cursor.y ≡ 22)
cscroll_lem_example =
    cscroll_lem fullscreen 3681 fullscreen-Covers screen-IsVga (omega arith) (omega arith)
