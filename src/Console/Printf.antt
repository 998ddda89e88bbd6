-- ===== src/Console/Printf.antt =====
-- `vsnprintf` and its helpers of src/console.c. `Sink` is the state that they share: the memory and
-- the pointer at which the next character goes.
pub mod Emit
pub mod Number
pub mod Integer
pub mod Directive
pub mod Vsnprintf
mod Examples
use ose.Prelude.{ℕ, zero, suc, ◌+◌, ◌*◌, ◌-◌, Mem, write, u8, u32, ltb, ◌==◌, leb, ◌&&◌}
use ose.Prelude.{if◌then◌else◌, Bool, true, false, List, [], ◌∷◌}
use ose.Prelude.Int.{ℤ, pos, negsuc, signed32}

pub record Sink : Type 0 where
  pub mem : Mem
  pub string : ℕ

-- Writes only below `end`, and counts the character in any case.
pub bound_string_putchar : (end c : ℕ) → Sink → Sink
bound_string_putchar end c o = record {
  mem = if ltb o.string end then write o.mem o.string (u8 c) else o.mem;
  string = u32 (o.string + 1);
}

-- `*p` and `p + 1` for a pointer into a text: the list holds the memory from `p` on, and all that
-- follows is zero.
abbrev pub peek : List ℕ → ℕ
peek [] = 0
peek (c ∷ cs) = c

abbrev pub next : List ℕ → List ℕ
next [] = []
next (c ∷ cs) = cs

pub bound_string_length : List ℕ → ℕ → ℕ
bound_string_length [] count = 0
bound_string_length (c ∷ cs) zero = 0
bound_string_length (c ∷ cs) (suc count) =
    let more = bound_string_length cs count in if c == 0 then 0 else more + 1

abbrev pub is_digit : ℕ → Bool
is_digit c = leb b'0' c && leb c b'9'

-- `result` is the bit pattern of the `int`.
pub parse_int_loop : ℕ → List ℕ → ℕ × List ℕ
parse_int_loop result [] = (result, [])
parse_int_loop result (c ∷ cs) = elim (is_digit c) [
  | true ↦ parse_int_loop (u32 (result * 10 + (c - b'0'))) cs
  | false ↦ (result, c ∷ cs)
]

-- The number read, and the text behind it.
pub parse_int : List ℕ → ℤ × List ℕ
unfolding parse_int_loop
parse_int string = let (result, rest) = parse_int_loop 0 string in (signed32 result, rest)

-- The bits of `flags`.
pub record Flags : Type 0 where
  pub left : Bool
  pub plus : Bool
  pub space : Bool
  pub alt : Bool
  pub zero_pad : Bool
  pub upper : Bool
  pub signed : Bool

-- `n` rounds of putting one character.
pub pad : (end c n : ℕ) → Sink → Sink
pad end c zero o = o
pad end c (suc n) o = pad end c n (bound_string_putchar end c o)

-- `while (width-- > 0)`: the sink and the width after the loop.
pub pad_width : (end c : ℕ) → ℤ → Sink → Sink × ℤ
pad_width end c (pos n) o = (pad end c n o, negsuc 0)
pad_width end c (negsuc n) o = (o, negsuc (suc n))

-- `while (--width > 0)`.
pub pad_predecrement : (end c : ℕ) → ℤ → Sink → Sink × ℤ
pad_predecrement end c (pos zero) o = (o, negsuc 0)
pad_predecrement end c (pos (suc n)) o = (pad end c n o, pos 0)
pad_predecrement end c (negsuc n) o = (o, negsuc (suc n))

-- `for (i = 0; i < length; i++) *str++`.
pub put_string : (end length : ℕ) → List ℕ → Sink → Sink
put_string end zero str o = o
put_string end (suc n) str o = put_string end n (next str) (bound_string_putchar end (peek str) o)
