-- ===== src/Console/Flush.antt =====
-- The console of src/console.c: characters collect in a buffer, and `cflush` interprets them and
-- draws them on the screen.
use ose.Prelude.{
  ℕ, zero, suc, ◌+◌, ◌-◌, ◌/◌, Bool, true, false, ◌&&◌, List, [], ◌∷◌, ◌++◌, Option, none, some,
  leb, ltb, ◌==◌, if◌then◌else◌, length, u8,
}
use ose.Prelude.Int.{ℤ}
use ose.Console.Printf.{peek, next, is_digit, parse_int}
use ose.Console.Vga.{
  Point, VgaChar, Vga, vga_print_char, vga_get_character, vga_copy, vga_fill, vga_flush,
}
use ose.Console.Ansi.{Format, process_graphic_escape_sequence}
pub mod Total
pub mod Cursor
pub mod Buffer
pub mod Scroll
pub mod Examples

-- `Console` of console.h with the driver that it draws with. `buffer` is the characters below
-- `buffer_pos`, `stale` the bytes of the buffer from there on.
pub record Console : Type 0 where
  pub vga : Vga
  pub buffer : List ℕ
  pub stale : List ℕ
  pub buffer_size : ℕ
  pub position : Point
  pub size : Point
  pub cursor : Point
  pub default_format : Format
  pub format : Format

-- A character in the colours of the console.
abbrev pub coloured : ℕ → Console → VgaChar
coloured character c = record {
  character = character;
  fgcolor = c.format.foreground;
  bgcolor = c.format.background;
}

unfoldable pub clear_console : Console → Console
clear_console c = record c {
  vga = vga_flush (vga_fill c.position c.size (coloured b' ' c) c.vga);
  cursor = record { x = 0; y = 0 };
}

-- ESC has been read; `string` is what follows. The rest of the text and the new console.
unfoldable pub process_escape_sequence : (string : List ℕ) → Console → List ℕ × Console
process_escape_sequence string c =
    if peek string == b'['
    then (let p = next string in
        if is_digit (peek p)
        then (let (n, q) = parse_int p in
            (
              next q,
              if peek q == b'm'
                  then record c {
                    format = process_graphic_escape_sequence c.default_format n c.format;
                  }
                  else c,
            ))
        else (p, c))
    else (string, c)

unfoldable pub inplace_cwrite : ℕ → Console → Console
inplace_cwrite character c = record c {
  vga =
      vga_print_char (coloured character c) (c.position.x + c.cursor.x) (c.position.y + c.cursor.y)
        c.vga;
}

unfoldable pub cwrite : ℕ → Console → Console
cwrite character c =
    let c' = inplace_cwrite character c in
    record c' {
      cursor =
          if ltb 0 ((c'.cursor.x + 1) / c'.size.x)
          then record { x = 0; y = c'.cursor.y + 1 }
          else record { x = c'.cursor.x + 1; y = c'.cursor.y };
    }

unfoldable pub cget_char : Console → ℕ
cget_char c = vga_get_character (c.position.x + c.cursor.x) (c.position.y + c.cursor.y) c.vga

unfoldable pub cscroll : Console → Console
cscroll c =
    let v =
      vga_copy c.position (record { x = c.position.x; y = c.position.y + 1 })
        (record { x = c.size.x; y = c.size.y - 1 }) c.vga in
    record c {
      vga =
          vga_fill (record { x = c.position.x; y = c.position.y + c.size.y - 1 })
            (record { x = c.size.x; y = 1 }) (coloured b' ' c) v;
      cursor = record (c.cursor) { y = c.cursor.y - 1 };
    }

abbrev pub scroll_at : (bottom_bound : ℕ) → Console → Console
scroll_at bottom_bound c = if leb bottom_bound c.cursor.y then cscroll c else c

-- The loop of `\b` over blanks, from column `x`: the column where it stops and whether it moved.
unfoldable pub skip_blanks : (x : ℕ) → Bool → Console → ℕ × Bool
skip_blanks zero moved c = (0, moved)
skip_blanks (suc x) moved c =
    let rest = skip_blanks x true c in
    if cget_char (record c { cursor = record (c.cursor) { x = suc x } }) == b' '
    then rest
    else (suc x, moved)

unfoldable pub backspace : Console → Console
backspace c = inplace_cwrite b' ' (
    if c.cursor.x == 0
    then (let up = record c { cursor = record { x = c.size.x - 1; y = c.cursor.y - 1 } } in
        let (x, moved) = skip_blanks up.cursor.x false up in
        record up { cursor = record (up.cursor) { x = if moved then x + 1 else x } })
    else record c { cursor = record (c.cursor) { x = c.cursor.x - 1 } })

-- A character other than ESC.
unfoldable pub put_character : (bottom_bound : ℕ) → ℕ → Console → Console
put_character bottom_bound ch c =
    if ch == 10
    then (let c' =
          scroll_at bottom_bound (record c { cursor = record (c.cursor) { y = c.cursor.y + 1 } }) in
        record c' { cursor = record (c'.cursor) { x = 0 } })
    else if ch == 13
    then record c { cursor = record (c.cursor) { x = 0 } }
    else if ch == 8
    then backspace c
    else cwrite ch c

-- The loop of `cflush` from `text` on, where `beyond` bytes lie behind `end`; `none` means that the
-- fuel ran out.
unfoldable pub cflush_loop :
    ℕ → (bottom_bound beyond : ℕ) → (text : List ℕ) → Console → Option Console
cflush_loop zero bottom_bound beyond text c = none
cflush_loop (suc fuel) bottom_bound beyond text c = elim (ltb beyond (length text)) [
  | false ↦ some c
  | true ↦
      let c' = scroll_at bottom_bound c in
      elim (peek text == 27) [
        | true ↦
            let (rest, c'') = process_escape_sequence (next text) c' in
            cflush_loop fuel bottom_bound beyond rest c''
        | false ↦
            cflush_loop fuel bottom_bound beyond (next text)
              (put_character bottom_bound (peek text) c')
      ]
]

-- The end of `cflush`: the buffer is empty and its old bytes are stale.
abbrev pub flushed : List ℕ → Console → Console
flushed text c = record c { buffer = []; stale = text; vga = vga_flush c.vga }

abbrev pub flush_end : List ℕ → Option Console → Option Console
flush_end text none = none
flush_end text (some c) = some (flushed text c)

unfoldable pub cflush : Console → Option Console
cflush c =
    let text = c.buffer ++ c.stale in
    if length c.buffer == 0
    then some c
    else flush_end text
        (cflush_loop (length text + 1) (c.position.y + c.size.y) (length c.stale) text c)

abbrev pub append_char : ℕ → Console → Console
append_char character c = record c { buffer = c.buffer ++ u8 character ∷ []; stale = next c.stale }

abbrev pub then_append : ℕ → Option Console → Option Console
then_append character none = none
then_append character (some c) = some (append_char character c)

unfoldable pub cputc : ℕ → Console → Option Console
cputc character c =
    then_append character (if leb c.buffer_size (length c.buffer) then cflush c else some c)

-- `s` up to its terminator.
unfoldable pub cputs : List ℕ → Console → Option Console
cputs [] c = some c
cputs (ch ∷ s) c = elim (ch == 0) [
  | true ↦ some c
  | false ↦ elim (cputc ch c) [ none ↦ none | some c' ↦ cputs s c' ]
]
