-- ===== src/Console/Vga.antt =====
-- The text mode driver of src/drivers/vga/vga.c: the cells of the screen at 0xB8000 and the buffer
-- behind it are bytes of one memory, a cell is a character and an attribute byte.
use ose.Prelude.{
  ℕ, ◌+◌, ◌*◌, ◌%◌, Bool, true, false, zero, suc, min, if◌then◌else◌, ltb, write, Mem, u8,
}
use ose.Memory.Bytes.{memmove, memzero}
pub mod Cells
pub mod Screen
pub mod Examples

abbrev pub text_base : ℕ
text_base = 0xB8000

-- `Point`.
pub record Point : Type 0 where
  pub x : ℕ
  pub y : ℕ

-- `VGACharS`: a byte and two fields of four bits.
pub record VgaChar : Type 0 where
  pub character : ℕ
  pub fgcolor : ℕ
  pub bgcolor : ℕ

-- The static variables of the driver and the memory.
pub record Vga : Type 0 where
  pub ram : Mem
  pub page_rows : ℕ
  pub page_columns : ℕ
  pub vga_buffer : ℕ
  pub buffer_sync : Bool

-- The address of cell `i` of an array of cells.
abbrev pub cell : ℕ → ℕ → ℕ
cell base i = base + i * 2

-- The second byte of a cell.
abbrev pub attribute : VgaChar → ℕ
attribute c = c.fgcolor % 16 + c.bgcolor % 16 * 16

unfoldable pub put_cell : ℕ → VgaChar → Mem → Mem
put_cell a c m = write (write m a (u8 c.character)) (a + 1) (attribute c)

unfoldable pub vga_flush : Vga → Vga
vga_flush v = if v.buffer_sync then v else record v {
  ram = memmove text_base v.vga_buffer (v.page_rows * v.page_columns * 2) v.ram;
  buffer_sync = true;
}

unfoldable pub vga_clear_screen : Vga → Vga
vga_clear_screen v = vga_flush (record v {
  ram = memzero v.vga_buffer (v.page_rows * v.page_columns * 2) v.ram;
  buffer_sync = false;
})

unfoldable pub vga_print_char : VgaChar → (x y : ℕ) → Vga → Vga
vga_print_char c x y v =
    let i = v.page_columns * y + x in
    record v { ram = put_cell (cell text_base i) c (put_cell (cell v.vga_buffer i) c v.ram) }

-- The character of `vga_get_char`.
unfoldable pub vga_get_character : (x y : ℕ) → Vga → ℕ
vga_get_character x y v = v.ram (cell text_base (v.page_columns * y + x))

-- The loop of `vga_copy` from row `i` on, with `k` rows left.
unfoldable pub copy_rows : ℕ → (i dest src columns length : ℕ) → Mem → Mem
copy_rows zero i dest src columns length m = m
copy_rows (suc k) i dest src columns length m =
    copy_rows k (i + 1) dest src columns length
      (memmove (cell dest (i * columns)) (cell src (i * columns)) length m)

unfoldable pub vga_copy : (dest src size : Point) → Vga → Vga
vga_copy dest src size v =
    let v' = vga_flush v in
    let dest_p = cell v'.vga_buffer (dest.y * v'.page_columns + dest.x) in
    let src_p = cell text_base (src.y * v'.page_columns + src.x) in
    let length = min (dest.x + size.x) v'.page_columns * 2 in
    record v' {
      ram = copy_rows size.y 0 dest_p src_p v'.page_columns length v'.ram;
      buffer_sync = false;
    }

-- The inner loop of `vga_fill` from cell `j` on, with `k` cells left.
unfoldable pub fill_row : ℕ → (j row : ℕ) → VgaChar → Mem → Mem
fill_row zero j row c m = m
fill_row (suc k) j row c m = fill_row k (j + 1) row c (put_cell (cell row j) c m)

-- The outer loop from row `i` on, with `k` rows left.
unfoldable pub fill_rows : ℕ → (i dest columns width : ℕ) → VgaChar → Mem → Mem
fill_rows zero i dest columns width c m = m
fill_rows (suc k) i dest columns width c m =
    fill_rows k (i + 1) dest columns width c (fill_row width 0 (cell dest (i * columns)) c m)

unfoldable pub vga_fill : (dest size : Point) → VgaChar → Vga → Vga
vga_fill dest size c v =
    let dest_p = cell v.vga_buffer (dest.y * v.page_columns + dest.x) in
    record v { ram = fill_rows size.y 0 dest_p v.page_columns size.x c v.ram; buffer_sync = false }
