-- ===== src/Console/Flush/Cursor.antt =====
-- The cursor stays in the window of the console.
use ose.Prelude.{
  ℕ, zero, suc, ◌+◌, ◌-◌, ◌/◌, ◌≤◌, ◌<◌, ◌≡◌, arith, Bool, true, false, if◌then◌else◌, leb, ltb,
  ◌==◌, List, inl, inr, Bool-cases,
}
use native.Mathlib.Nat.{div-add-mod', mod-lt}
use ose.Console.Flush.{
  Console, process_escape_sequence, inplace_cwrite, cwrite, cscroll, scroll_at, skip_blanks,
  backspace, put_character,
}

-- The cursor is in a column of a console of `w` columns, and at most on the row below the last,
-- `b`, which the next character scrolls away; its buffer has room for
-- `n` characters.
pub record Fits (w b n : ℕ) (c : Console) : Type 0 where
  pub width : c.size.x ≡ w
  pub bottom : c.position.y + c.size.y ≡ b
  pub column : c.cursor.x < w
  pub row : c.cursor.y ≤ b
  pub some_row : 0 < b
  pub capacity : c.buffer_size ≡ n
  pub some_room : 0 < n

quotient_zero : (n w : ℕ) → n < w → ltb 0 ((n + 1) / w) ≡ false → n + 1 < w
quotient_zero n w h e = grind (arith, div-add-mod' (n + 1) w, mod-lt (n + 1) {m = w})

pub scroll_at-Fits :
    (w b n : ℕ) (c : Console)
    → Fits w b n c
    → Fits w b n (scroll_at b c) × ((scroll_at b c).cursor.y < b)
unfolding cscroll
scroll_at-Fits w b n c f = elim (Bool-cases (leb b c.cursor.y)) [
  | inl e ↦ rw e (
    record {
      width = f.width;
      bottom = f.bottom;
      column = f.column;
      row = omega (arith, f.row);
      some_row = f.some_row;
      capacity = f.capacity;
      some_room = f.some_room;
    },
    omega (arith, f.row, f.some_row),
  )
  | inr e ↦ rw e (f, ground arith)
]

-- An escape sequence does not move the cursor.
pub process_escape_sequence-Fits :
    (w b n : ℕ) (s : List ℕ) (c : Console)
    → Fits w b n c
    → Fits w b n (process_escape_sequence s c).1
unfolding process_escape_sequence
process_escape_sequence-Fits w b n s c f = ground arith

cwrite-Fits :
    (w b n ch : ℕ) (c : Console) → Fits w b n c → c.cursor.y < b → Fits w b n (cwrite ch c)
unfolding cwrite inplace_cwrite
cwrite-Fits w b n ch c f h = elim (Bool-cases (ltb 0 ((c.cursor.x + 1) / c.size.x))) [
  | inl e ↦ rw e (record {
    width = f.width;
    bottom = f.bottom;
    column = omega (arith, f.column);
    row = omega (arith, h);
    some_row = f.some_row;
    capacity = f.capacity;
    some_room = f.some_room;
  })
  | inr e ↦ rw e (record {
    width = f.width;
    bottom = f.bottom;
    column =
        omega
          (arith, f.width, quotient_zero c.cursor.x c.size.x (omega (arith, f.width, f.column)) e);
    row = f.row;
    some_row = f.some_row;
    capacity = f.capacity;
    some_room = f.some_room;
  })
]

skip_blanks_le : (x : ℕ) (moved : Bool) (c : Console) → (skip_blanks x moved c).0 ≤ x
unfolding skip_blanks
skip_blanks_le zero moved c = omega arith
skip_blanks_le (suc x) moved c = ground (arith, skip_blanks_le x true c)

-- The column behind the last character found, or the first column asked for.
skip_blanks_stop :
    (x : ℕ) (c : Console)
    → (if (skip_blanks x false c).1
        then (skip_blanks x false c).0 + 1
        else (skip_blanks x false c).0)
      ≤ x
unfolding skip_blanks
skip_blanks_stop zero c = omega arith
skip_blanks_stop (suc x) c = ground (arith, skip_blanks_le x true c)

backspace-Fits : (w b n : ℕ) (c : Console) → Fits w b n c → Fits w b n (backspace c)
unfolding backspace inplace_cwrite
backspace-Fits w b n c f = elim (Bool-cases (c.cursor.x == 0)) [
  | inl e ↦ rw e (record {
    width = f.width;
    bottom = f.bottom;
    column = omega (
      arith,
      f.width,
      f.column,
      skip_blanks_stop (c.size.x - 1)
          (record c { cursor = record { x = c.size.x - 1; y = c.cursor.y - 1 } }),
    );
    row = omega (arith, f.row);
    some_row = f.some_row;
    capacity = f.capacity;
    some_room = f.some_room;
  })
  | inr e ↦ rw e (record {
    width = f.width;
    bottom = f.bottom;
    column = omega (arith, f.column);
    row = f.row;
    some_row = f.some_row;
    capacity = f.capacity;
    some_room = f.some_room;
  })
]

-- Column 0 of a row that is in the window or just below it.
column_zero-Fits :
    (w b n y : ℕ) (c : Console)
    → Fits w b n c
    → y ≤ b
    → Fits w b n (record c { cursor = record { x = 0; y = y } })
column_zero-Fits w b n y c f h = record {
  width = f.width;
  bottom = f.bottom;
  column = omega (arith, f.column);
  row = h;
  some_row = f.some_row;
  capacity = f.capacity;
  some_room = f.some_room;
}

line_feed-Fits :
    (w b n : ℕ) (c : Console)
    → Fits w b n c
    → c.cursor.y < b
    → Fits w b n (scroll_at b (record c { cursor = record (c.cursor) { y = c.cursor.y + 1 } }))
line_feed-Fits w b n c f h =
    (scroll_at-Fits w b n (record c { cursor = record (c.cursor) { y = c.cursor.y + 1 } })
      (record {
        width = f.width;
        bottom = f.bottom;
        column = f.column;
        row = omega (arith, h);
        some_row = f.some_row;
        capacity = f.capacity;
        some_room = f.some_room;
      })).0

pub put_character-Fits :
    (w b n ch : ℕ) (c : Console) → Fits w b n c → c.cursor.y < b → Fits w b n (put_character b ch c)
unfolding put_character
put_character-Fits w b n ch c f h = elim (Bool-cases (ch == 10)) [
  | inl e ↦ rw e (
      let c' = scroll_at b (record c { cursor = record (c.cursor) { y = c.cursor.y + 1 } }) in
      let f' = line_feed-Fits w b n c f h in column_zero-Fits w b n c'.cursor.y c' f' f'.row)
  | inr e ↦ elim (Bool-cases (ch == 13)) [
    | inl p ↦ rw (e, p) (column_zero-Fits w b n c.cursor.y c f f.row)
    | inr p ↦ elim (Bool-cases (ch == 8)) [
      | inl q ↦ rw (e, p, q) (backspace-Fits w b n c f)
      | inr q ↦ rw (e, p, q) (cwrite-Fits w b n ch c f h)
    ]
  ]
]
