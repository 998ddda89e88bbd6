-- ===== src/Console/Flush/Buffer.antt =====
-- `cflush`, `cputc` and `cputs` return, and keep the cursor in the window and the buffer in its size.
use ose.Prelude.{
  ℕ, zero, suc, ◌+◌, ◌≤◌, ◌<◌, ◌≡◌, refl, arith, true, leb, ltb, ◌==◌, List, [], ◌∷◌, ◌++◌, some,
  inl, inr, Bool-cases, length, length-append, ◌⊎◌, u8,
}
use ose.Console.Printf.{peek, next}
use ose.Console.Flush.Total.{shorter, length-process_escape_sequence}
use ose.Console.Flush.{
  Console, process_escape_sequence, scroll_at, put_character, cflush_loop, flushed, cflush,
  append_char, cputc, cputs,
}
use ose.Console.Flush.Cursor.{
  Fits, scroll_at-Fits, process_escape_sequence-Fits, put_character-Fits,
}

cflush_loop-Fits :
    (fuel w b n beyond : ℕ) (text : List ℕ) (c : Console)
    → length text < fuel
    → Fits w b n c
    → (c' : Console) × (cflush_loop fuel b beyond text c ≡ some c') × Fits w b n c'
unfolding cflush_loop
cflush_loop-Fits zero w b n beyond text c h f = elim h [ ]
cflush_loop-Fits (suc fuel) w b n beyond text c h f = elim (Bool-cases (ltb beyond (length text))) [
  | inr e ↦ rw (e, cflush_loop) (c, refl, f)
  | inl e ↦
      let c' = scroll_at b c in
      let (f', below) = scroll_at-Fits w b n c f in
      let less = shorter text beyond e in
      elim (Bool-cases (peek text == 27)) [
        | inl p ↦
            rw (e, p, cflush_loop)
              (let r = process_escape_sequence (next text) c' in
                cflush_loop-Fits fuel w b n beyond r.0 r.1
                  (omega (arith, less, length-process_escape_sequence (next text) c'))
                  (process_escape_sequence-Fits w b n (next text) c' f'))
        | inr p ↦
            rw (e, p, cflush_loop)
              (cflush_loop-Fits fuel w b n beyond (next text) (put_character b (peek text) c')
                (omega (arith, less)) (put_character-Fits w b n (peek text) c' f' below))
      ]
]

empty : (xs : List ℕ) → (length xs == 0) ≡ true → xs ≡ []
empty [] e = refl
empty (x ∷ xs) e = ground arith

-- For a console whose cursor stands in its window, of width `w` and with `b` the row below its
-- last, `cflush` returns, whatever the buffer holds; then the buffer is empty and the cursor is
-- still in a column of the window and at most on row `b`.
pub cflush-Fits :
    (w b n : ℕ) (c : Console)
    → Fits w b n c
    → (c' : Console) × (cflush c ≡ some c') × Fits w b n c' × (c'.buffer ≡ [])
unfolding cflush
cflush-Fits w b n c f = elim (Bool-cases (length c.buffer == 0)) [
  | inl e ↦ rw e (c, refl, f, empty c.buffer e)
  | inr e ↦
      let text = c.buffer ++ c.stale in
      let (c', p, f') =
        cflush_loop-Fits (length text + 1) w b n (length c.stale) text c (omega arith) f in
      rw (e, f.bottom, p)
        (
          flushed text c',
          refl,
          record {
            width = f'.width;
            bottom = f'.bottom;
            column = f'.column;
            row = f'.row;
            some_row = f'.some_row;
            capacity = f'.capacity;
            some_room = f'.some_room;
          },
          refl,
        )
]

append_char-Fits :
    (w b n ch : ℕ) (c : Console)
    → Fits w b n c
    → length c.buffer < n
    → Fits w b n (append_char ch c) × (length (append_char ch c).buffer ≤ n)
append_char-Fits w b n ch c f h = (
  record {
    width = f.width;
    bottom = f.bottom;
    column = f.column;
    row = f.row;
    some_row = f.some_row;
    capacity = f.capacity;
    some_room = f.some_room;
  },
  omega (arith, length-append c.buffer (u8 ch ∷ [])),
)

-- For such a console, whose buffer has a size of `n` characters and holds at most as many, `cputc`
-- returns; it keeps all this, the character is the last of the buffer, and what stood in the buffer
-- still stands before it or has been flushed.
pub cputc-Fits :
    (w b n ch : ℕ) (c : Console)
    → Fits w b n c
    → length c.buffer ≤ n
    → (c' : Console) × (rest : List ℕ) × (cputc ch c ≡ some c')
      × Fits w b n c'
      × (length c'.buffer ≤ n)
      × (c'.buffer ≡ rest ++ u8 ch ∷ [])
      × ((rest ≡ c.buffer) ⊎ (rest ≡ []))
unfolding cputc
cputc-Fits w b n ch c f h = elim (Bool-cases (leb c.buffer_size (length c.buffer))) [
  | inr e ↦
      let (f', room) = append_char-Fits w b n ch c f (ground (arith, f.capacity)) in
      rw e (append_char ch c, c.buffer, refl, f', room, refl, inl refl)
  | inl e ↦
      let (d, p, g, q) = cflush-Fits w b n c f in
      let (f', room) = append_char-Fits w b n ch d g (rw q (omega (arith, f.some_room))) in
      rw (e, p) (append_char ch d, d.buffer, refl, f', room, refl, inr q)
]

-- For such a console, `cputs` returns for every text, and keeps all this.
pub cputs-Fits :
    (w b n : ℕ) (s : List ℕ) (c : Console)
    → Fits w b n c
    → length c.buffer ≤ n
    → (c' : Console) × (cputs s c ≡ some c') × Fits w b n c' × (length c'.buffer ≤ n)
unfolding cputs
cputs-Fits w b n [] c f h = (c, refl, f, h)
cputs-Fits w b n (ch ∷ s) c f h = elim (Bool-cases (ch == 0)) [
  | inl e ↦ rw (e, cputs) (c, refl, f, h)
  | inr e ↦
      let (d, rest, p, g, k, last, kept) = cputc-Fits w b n ch c f h in
      rw (e, p, cputs) (cputs-Fits w b n s d g k)
]
