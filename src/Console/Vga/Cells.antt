-- ===== src/Console/Vga/Cells.antt =====
-- What the loops of the driver write, byte by byte.
use ose.Prelude.{
  ℕ, zero, suc, ◌+◌, ◌-◌, ◌*◌, ◌≤◌, ◌≡◌, arith, if◌then◌else◌, ◌==◌, Mem, u8, ◌%◌, ◌⊎◌,
}
use ose.Memory.Bytes.{memmove}
use ose.Memory.Bytes.Copy.{within, memmove_lem}
use ose.Console.Vga.{VgaChar, cell, attribute, put_cell, copy_rows, fill_row, fill_rows}

-- Two areas of `n` bytes below 2 ^ 32 do not overlap.
abbrev pub Apart : ℕ → ℕ → ℕ → Type 0
Apart a b n =
    (a + n ≤ 4294967296) × (b + n ≤ 4294967296) × (n ≤ 2147483648) × ((a + n ≤ b) ⊎ (b + n ≤ a))

pub mul_step : (k c : ℕ) → suc k * c ≡ k * c + c
mul_step k c = grind arith

add_step : (k c : ℕ) → (k + 1) * c ≡ k * c + c
add_step k c = grind arith

-- The bytes of `k` rows from row `i` on come from the same rows of the source.
pub copy_rows_lem :
    (k i dest src columns total : ℕ) (m : Mem) (x : ℕ)
    → Apart dest src total
    → i * columns * 2 + k * columns * 2 ≤ total
    → copy_rows k i dest src columns (columns * 2) m x
      ≡ (if within (cell dest (i * columns)) (k * columns * 2) x then m (src + (x - dest)) else m x)
unfolding copy_rows
copy_rows_lem zero i dest src columns total m x apart h = ground arith
copy_rows_lem (suc k) i dest src columns total m x apart h =
    let m' = memmove (cell dest (i * columns)) (cell src (i * columns)) (columns * 2) m in
    let e = mul_step k columns in
    let e' = add_step i columns in
    let moved : (y : ℕ)
        → m' y ≡ (
            if within (cell dest (i * columns)) (columns * 2) y
            then m (cell src (i * columns) + (y - cell dest (i * columns)))
            else m y) =
      λ y.
        memmove_lem (cell dest (i * columns)) (cell src (i * columns)) (columns * 2) m y
          (omega arith) (omega arith) (omega arith) in
    let rest = copy_rows_lem k (i + 1) dest src columns total m' x apart (omega arith) in
    ground (arith, rest, moved x, moved (src + (x - dest)))

-- Cells `j` to `j + k - 1` of a row are filled.
fill_row_lem :
    (k j row : ℕ) (c : VgaChar) (m : Mem) (x : ℕ)
    → fill_row k j row c m x ≡ (
        if within (cell row j) (k * 2) x
        then (if (x - row) % 2 == 0 then u8 c.character else attribute c)
        else m x)
unfolding fill_row put_cell
fill_row_lem zero j row c m x = ground arith
fill_row_lem (suc k) j row c m x =
    let rest = fill_row_lem k (j + 1) row c (put_cell (cell row j) c m) x in ground (arith, rest)

-- Rows `i` to `i + k - 1` are filled, where a row is as wide as the screen.
pub fill_rows_lem :
    (k i dest columns : ℕ) (c : VgaChar) (m : Mem) (x : ℕ)
    → fill_rows k i dest columns columns c m x ≡ (
        if within (cell dest (i * columns)) (k * columns * 2) x
        then (if (x - dest) % 2 == 0 then u8 c.character else attribute c)
        else m x)
unfolding fill_rows
fill_rows_lem zero i dest columns c m x = ground arith
fill_rows_lem (suc k) i dest columns c m x =
    let row = cell dest (i * columns) in
    let m' = fill_row columns 0 row c m in
    let filled = fill_row_lem columns 0 row c m x in
    let rest = fill_rows_lem k (i + 1) dest columns c m' x in
    let e = mul_step k columns in let e' = add_step i columns in ground (arith, rest, filled)
