-- ===== src/Console/Vga/Screen.antt =====
-- What the operations of the driver show on the screen.
use ose.Prelude.{
  ℕ, min, ◌+◌, ◌-◌, ◌*◌, ◌%◌, ◌<◌, ◌≡◌, refl, ap, ◌∙◌, arith, true, false, if◌then◌else◌, ltb, ◌==◌,
  Mem, u8, inl, inr, Bool-cases,
}
use ose.Memory.Bytes.{memmove}
use ose.Memory.Bytes.Copy.{within, memmove_lem}
use ose.Console.Vga.{
  VgaChar, Vga, text_base, cell, attribute, vga_flush, vga_copy, vga_fill, copy_rows, fill_rows,
}
use ose.Console.Vga.Cells.{Apart, mul_step, copy_rows_lem, fill_rows_lem}

-- How many bytes the screen takes.
abbrev pub screen_bytes : Vga → ℕ
screen_bytes v = v.page_rows * v.page_columns * 2

-- The screen shows the buffer.
abbrev pub Shows : Vga → Type 0
Shows v = (k : ℕ) → k < screen_bytes v → v.ram (text_base + k) ≡ v.ram (v.vga_buffer + k)

-- The buffer and the screen do not overlap, and the screen shows the buffer if it is marked so.
pub record IsVga (v : Vga) : Type 0 where
  pub apart : Apart v.vga_buffer text_base (screen_bytes v)
  pub synced : v.buffer_sync ≡ true → Shows v

-- The copy of `vga_flush`, byte by byte.
flush_bytes :
    (v : Vga)
    → IsVga v
    → (x : ℕ)
    → memmove text_base v.vga_buffer (screen_bytes v) v.ram x ≡ (
        if within text_base (screen_bytes v) x
        then v.ram (v.vga_buffer + (x - text_base))
        else v.ram x)
flush_bytes v i x =
    let (a, b, c, d) = i.apart in
    memmove_lem text_base v.vga_buffer (screen_bytes v) v.ram x (omega arith) (omega arith)
      (omega arith)

-- `vga_flush` keeps the driver well formed, shows the buffer on the screen, and changes no byte
-- outside the screen.
pub vga_flush_lem :
    (v : Vga)
    → IsVga v
    → IsVga (vga_flush v)
      × Shows (vga_flush v)
      × ((x : ℕ) → within text_base (screen_bytes v) x ≡ false → (vga_flush v).ram x ≡ v.ram x)
unfolding vga_flush
vga_flush_lem v i = elim (Bool-cases v.buffer_sync) [
  | inl e ↦
      rw (e, vga_flush)
        (record { apart = i.apart; synced = λ _. i.synced e }, i.synced e, λ x h. refl)
  | inr e ↦
      let (a, b, c, d) = i.apart in
      let m = memmove text_base v.vga_buffer (screen_bytes v) v.ram in
      let shows : (k : ℕ) → k < screen_bytes v → m (text_base + k) ≡ m (v.vga_buffer + k) = λ k h.
        ground (arith, flush_bytes v i (text_base + k), flush_bytes v i (v.vga_buffer + k)) in
      rw (e, vga_flush)
        (
          record { apart = i.apart; synced = λ _. shows },
          shows,
          λ x h. ground (arith, flush_bytes v i x),
        )
]

-- The fields that `vga_flush` leaves.
pub vga_flush_fields :
    (v : Vga)
    → ((vga_flush v).vga_buffer ≡ v.vga_buffer)
      × ((vga_flush v).page_rows ≡ v.page_rows)
      × ((vga_flush v).page_columns ≡ v.page_columns)
unfolding vga_flush
vga_flush_fields v = ground arith

-- After a flush the screen holds what the buffer held before.
pub shown_lem :
    (v : Vga) (j : ℕ)
    → IsVga v
    → j < screen_bytes v
    → (vga_flush v).ram (text_base + j) ≡ v.ram (v.vga_buffer + j)
shown_lem v j i h =
    let (i', shows, same) = vga_flush_lem v i in
    let (e, e1, e2) = vga_flush_fields v in
    let (a, b, c, d) = i.apart in
    shows j (rw (e1, e2) h) ∙ rw e (same (v.vga_buffer + j) (ground arith))

-- The bytes of the buffer after the rows behind the first, `r` of them, were copied up from the
-- screen at `text` and the row below them was filled.
scrolled_lem :
    (m : Mem) (buffer text r columns : ℕ) (c : VgaChar) (k : ℕ)
    → Apart buffer text (r * columns * 2 + columns * 2)
    → k < r * columns * 2 + columns * 2
    → fill_rows 1 0
        (cell buffer (r * columns + 0))
        columns
        columns
        c
        (copy_rows r 0
          (cell buffer (0 * columns + 0))
          (cell text (1 * columns + 0))
          columns
          (min (0 + columns) columns * 2)
          m)
        (buffer + k)
      ≡ (if ltb k (r * columns * 2)
          then m (text + (k + columns * 2))
          else if k % 2 == 0
          then u8 c.character
          else attribute c)
scrolled_lem m buffer text r columns c k apart h =
    let width : min (0 + columns) columns ≡ columns = omega arith in
    let (p, q, s, t) = apart in
    let m' =
      copy_rows r 0 (cell buffer (0 * columns + 0)) (cell text (1 * columns + 0)) columns
        (columns * 2) m in
    let copied =
      copy_rows_lem r 0 (cell buffer (0 * columns + 0)) (cell text (1 * columns + 0)) columns
        (r * columns * 2) m (buffer + k) (omega arith, omega arith, omega arith, ground arith)
        (omega arith) in
    let filled = fill_rows_lem 1 0 (cell buffer (r * columns + 0)) columns c m' (buffer + k) in
    rw width (ground (arith, copied, filled))

-- On a screen of at least one row, copying all rows but the first to the row above and filling the
-- last row with a cell leaves in the buffer each row moved up by one, and below them that cell.
pub scroll_up_lem :
    (v : Vga) (c : VgaChar) (k : ℕ)
    → IsVga v
    → 0 < v.page_rows
    → k < screen_bytes v
    → (vga_fill
          (record { x = 0; y = v.page_rows - 1 })
          (record { x = v.page_columns; y = 1 })
          c
          (vga_copy
            (record { x = 0; y = 0 })
            (record { x = 0; y = 1 })
            (record { x = v.page_columns; y = v.page_rows - 1 })
            v)).ram
        (v.vga_buffer + k)
      ≡ (if ltb (k + v.page_columns * 2) (screen_bytes v)
          then v.ram (v.vga_buffer + (k + v.page_columns * 2))
          else if k % 2 == 0
          then u8 c.character
          else attribute c)
unfolding vga_fill vga_copy
scroll_up_lem v c k i h hk =
    let (e, e1, e2) = vga_flush_fields v in
    let r = v.page_rows - 1 in
    let rows : v.page_rows * v.page_columns ≡ r * v.page_columns + v.page_columns =
      ap (λ n. n * v.page_columns) (omega arith) ∙ mul_step r v.page_columns in
    let (a, b, s, d) = i.apart in
    let moved =
      scrolled_lem (vga_flush v).ram v.vga_buffer text_base r v.page_columns c k
        (omega arith, omega arith, omega arith, ground arith) (omega arith) in
    rw (e, e2)
      (elim (Bool-cases (ltb k (r * v.page_columns * 2))) [
        | inl p ↦ ground (arith, moved, shown_lem v (k + v.page_columns * 2) i (ground arith))
        | inr p ↦ ground (arith, moved)
      ])
