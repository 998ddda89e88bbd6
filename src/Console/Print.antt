-- ===== src/Console/Print.antt =====
-- The printf functions of src/console.c that write to a console: `vcprintf`, which puts the output of
-- `vsnprintf` behind the characters of the buffer and flushes it.
use ose.Prelude.{
  ℕ, zero, suc, ◌+◌, ◌-◌, Bool, true, false, List, [], ◌∷◌, ◌++◌, Option, none, some, Mem, leb, ltb,
  if◌then◌else◌, length, get_or, sub32,
}
use ose.Console.Printf.Vsnprintf.{vsnprintf, vsprintf}
use ose.Console.Flush.{Console, cflush, cputc, cputs}
pub mod Text
mod Examples

-- The buffer in memory, from the address `base` on.
abbrev pub buffer_at : (base : ℕ) → Console → Mem
buffer_at base c a = if leb base a then get_or (c.buffer ++ c.stale) (a - base) 0 else 0

unfoldable pub read_bytes : Mem → (a k : ℕ) → List ℕ
read_bytes m a zero = []
read_bytes m a (suc k) = m a ∷ read_bytes m (a + 1) k

-- The console with `pos` as its buffer_pos, when memory holds its buffer.
abbrev pub with_buffer : Mem → (base pos : ℕ) → Console → Console
with_buffer m base pos c = record c {
  buffer = read_bytes m base pos;
  stale = read_bytes m (base + pos) (c.buffer_size - pos);
}

abbrev pub with_count : ℕ → Option Console → Option (ℕ × Console)
with_count ret none = none
with_count ret (some c) = some (ret, c)

-- What follows the call of `vsnprintf`; `ret` is the bits of an `int`.
unfoldable pub after_vsnprintf : (base size : ℕ) → Console → Option (Mem × ℕ) → Option (ℕ × Console)
after_vsnprintf base size c none = none
after_vsnprintf base size c (some (m, ret)) =
    let pos = length c.buffer in
    if ltb ret 0x80000000
    then with_count ret (cflush (with_buffer m base (pos + (if ltb ret size then ret else size)) c))
    else some (ret, with_buffer m base pos c)

-- `base` is the address of the buffer.
unfoldable pub vcprintf :
    (text_at : ℕ → List ℕ) → (base : ℕ) → (format args : List ℕ) → Console → Option (ℕ × Console)
vcprintf text_at base format args c =
    let size = sub32 c.buffer_size (length c.buffer) in
    after_vsnprintf base size c
      (vsnprintf text_at (buffer_at base c) (base + length c.buffer) size format args)

-- The functions that pass their arguments on; a call has the console `stdout` as its last argument.
unfoldable pub cprintf :
    (text_at : ℕ → List ℕ) → (base : ℕ) → (format args : List ℕ) → Console → Option (ℕ × Console)
cprintf text_at base format args console = vcprintf text_at base format args console

unfoldable pub vprintf :
    (text_at : ℕ → List ℕ) → (base : ℕ) → (format args : List ℕ) → Console → Option (ℕ × Console)
vprintf text_at base format args stdout = vcprintf text_at base format args stdout

unfoldable pub printf :
    (text_at : ℕ → List ℕ) → (base : ℕ) → (format args : List ℕ) → Console → Option (ℕ × Console)
printf text_at base format args stdout = vcprintf text_at base format args stdout

unfoldable pub sprintf :
    (text_at : ℕ → List ℕ) → Mem → (s : ℕ) → (format args : List ℕ) → Option (Mem × ℕ)
sprintf text_at m s format args = vsprintf text_at m s format args

unfoldable pub snprintf :
    (text_at : ℕ → List ℕ) → Mem → (s n : ℕ) → (format args : List ℕ) → Option (Mem × ℕ)
snprintf text_at m s n format args = vsnprintf text_at m s n format args

unfoldable pub putchar : ℕ → Console → Option Console
putchar character stdout = cputc character stdout

unfoldable pub puts : List ℕ → Console → Option Console
puts s stdout = elim (cputs s stdout) [ none ↦ none | some c ↦ putchar b'\n' c ]
