-- ===== src/Console/Ansi.antt =====
-- The colours of src/console.c: a format, and what an escape sequence with a code does to it.
use ose.Prelude.{ℕ, ◌-◌, Bool, true, false, ◌&&◌, ◌||◌, List, [], ◌∷◌, leb, ◌==◌, if◌then◌else◌}
use ose.Prelude.Int.{ℤ, pos, negsuc}
pub mod Colours

-- `Format` of console.h.
pub record Format : Type 0 where
  pub foreground : ℕ
  pub background : ℕ

-- The colours that the cases of codes 30 to 37 and 40 to 47 name: BLACK, RED, GREEN, BROWN, BLUE,
-- MAGENTA, CYAN and LIGHT_GRAY of vga.h. There is no ninth.
unfoldable pub colour : ℕ → ℕ
colour k =
    if k == 0
    then 0
    else if k == 1
    then 4
    else if k == 2
    then 2
    else if k == 3
    then 6
    else if k == 4
    then 1
    else if k == 5
    then 5
    else if k == 6
    then 3
    else if k == 7
    then 7
    else 0

-- Those of codes 90 to 97 and 100 to 107: DARK_GRAY, LIGHT_RED, LIGHT_GREEN, YELLOW, LIGHT_BLUE,
-- LIGHT_MAGENTA, LIGHT_CYAN and WHITE.
unfoldable pub bright_colour : ℕ → ℕ
bright_colour k =
    if k == 0
    then 8
    else if k == 1
    then 12
    else if k == 2
    then 10
    else if k == 3
    then 14
    else if k == 4
    then 9
    else if k == 5
    then 13
    else if k == 6
    then 11
    else if k == 7
    then 15
    else 0

abbrev pub between : ℕ → ℕ → ℕ → Bool
between first last code = leb first code && leb code last

-- The switch over `ANSI_4_BIT_COLOR`; the codes of a run of eight index its colours.
unfoldable pub switch_colour : (default_format : Format) → ℕ → Format → Format
switch_colour default_format code f =
    if code == 39
    then record f { foreground = default_format.foreground }
    else if code == 49
    then record f { background = default_format.background }
    else if between 30 37 code
    then record f { foreground = colour (code - 30) }
    else if between 90 97 code
    then record f { foreground = bright_colour (code - 90) }
    else if between 40 47 code
    then record f { background = colour (code - 40) }
    else if between 100 107 code
    then record f { background = bright_colour (code - 100) }
    else f

-- `process_graphic_escape_sequence` on the format of the console; a negative code is in no range.
unfoldable pub process_graphic_escape_sequence : (default_format : Format) → ℤ → Format → Format
unfolding switch_colour
process_graphic_escape_sequence default_format (negsuc k) f = f
process_graphic_escape_sequence default_format (pos code) f =
    let f' = if code == 0 then default_format else f in
    if between 30 37 code || between 90 97 code || between 40 47 code || between 100 107 code
    then switch_colour default_format code f'
    else f'
