-- ===== src/Console/Flush/Scroll.antt =====
-- What `cscroll` does to the text of a console that covers the screen.
use ose.Prelude.{ℕ, ◌+◌, ◌-◌, ◌*◌, ◌%◌, ◌<◌, ◌≡◌, refl, arith, if◌then◌else◌, ltb, ◌==◌}
use ose.Console.Vga.{attribute}
use ose.Console.Vga.Screen.{IsVga, screen_bytes, scroll_up_lem}
use ose.Console.Flush.{Console, coloured, cscroll}

-- The window of the console is the whole screen.
pub record Covers (c : Console) : Type 0 where
  pub left : c.position.x ≡ 0
  pub top : c.position.y ≡ 0
  pub width : c.size.x ≡ c.vga.page_columns
  pub height : c.size.y ≡ c.vga.page_rows

-- On a console that covers a screen of at least one row, whose buffer and screen do not overlap and
-- which shows its buffer where it is marked so, `cscroll` moves each row of the buffer up by one,
-- byte by byte, leaves a blank row in the colours of the console below them, and takes the cursor
-- one row up unless it is in the first.
pub cscroll_lem :
    (c : Console) (k : ℕ)
    → Covers c
    → IsVga c.vga
    → 0 < c.vga.page_rows
    → k < screen_bytes c.vga
    → ((cscroll c).vga.ram (c.vga.vga_buffer + k) ≡ (
        if ltb (k + c.vga.page_columns * 2) (screen_bytes c.vga)
        then c.vga.ram (c.vga.vga_buffer + (k + c.vga.page_columns * 2))
        else if k % 2 == 0
        then b' '
        else attribute (coloured b' ' c)))
      × ((cscroll c).cursor.x ≡ c.cursor.x)
      × ((cscroll c).cursor.y ≡ c.cursor.y - 1)
unfolding cscroll
cscroll_lem c k w i h hk =
    let v = c.vga in
    let below : 0 + v.page_rows - 1 ≡ v.page_rows - 1 = omega arith in
    (
      rw (w.left, w.top, w.width, w.height, below) (scroll_up_lem v (coloured b' ' c) k i h hk),
      refl,
      refl,
    )
