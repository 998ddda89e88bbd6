-- ===== src/Memory/Bytes.antt =====
-- The byte routines of src/memmgnt.c: `memmove`, `memset`, `memzero`, `strlen` and `memcmp`,
-- over a memory that maps an address to its byte.
pub mod Copy
pub mod Compare
mod Examples
use ose.Prelude.{ℕ, zero, suc, ◌+◌, ◌-◌, ◌&&◌, Mem, write, u8, sub32, ltb, ◌==◌, if◌then◌else◌}
use ose.Prelude.{Option, none, some, Bool, true, false}
use ose.Prelude.Int.{ℤ, pos, negsuc, ◌-ℤ◌}

-- The loop for a destination that overlaps from above: bytes `count - 1` down to 0.
pub copy_backward : ℕ → ℕ → ℕ → Mem → Mem
copy_backward dest src zero m = m
copy_backward dest src (suc k) m = copy_backward dest src k (write m (dest + k) (m (src + k)))

-- The loop over `i`, with `k` rounds left.
pub copy_forward : ℕ → ℕ → ℕ → ℕ → Mem → Mem
copy_forward dest src i zero m = m
copy_forward dest src i (suc k) m =
    copy_forward dest src (i + 1) k (write m (dest + i) (m (src + i)))

-- `distance` is a signed difference: it is positive from 1 to 2 ^ 31 - 1.
pub memmove : (dest src count : ℕ) → Mem → Mem
memmove dest src count m =
    let distance = sub32 dest src in
    if ltb 0 distance && ltb distance 2147483648 && ltb distance count
    then copy_backward dest src count m
    else copy_forward dest src 0 count m

pub memset_loop : ℕ → ℕ → ℕ → ℕ → Mem → Mem
memset_loop dest ch i zero m = m
memset_loop dest ch i (suc k) m = memset_loop dest ch (i + 1) k (write m (dest + i) (u8 ch))

pub memset : (dest ch count : ℕ) → Mem → Mem
memset dest ch count m = memset_loop dest ch 0 count m

unfoldable pub memzero : (dest count : ℕ) → Mem → Mem
memzero dest count m = memset dest 0 count m

-- `none` means that the fuel ran out before a zero byte was met.
pub strlen_loop : ℕ → Mem → ℕ → ℕ → Option ℕ
strlen_loop zero m r str = none
strlen_loop (suc fuel) m r str = elim (m str == 0) [
  | true ↦ some r
  | false ↦ strlen_loop fuel m (r + 1) (str + 1)
]

pub strlen : (fuel : ℕ) → Mem → (str : ℕ) → Option ℕ
strlen fuel m str = strlen_loop fuel m 0 str

-- `int8_t` of a byte.
abbrev pub signed8 : ℕ → ℤ
signed8 b = if ltb b 128 then pos b else negsuc (255 - b)

-- `while (num-- && *p1++ == *p2++) {}`: the pointers after the loop.
unfoldable pub memcmp_loop : ℕ → Mem → ℕ → ℕ → ℕ × ℕ
memcmp_loop zero m p1 p2 = (p1, p2)
memcmp_loop (suc num) m p1 p2 = elim (m p1 == m p2) [
  | true ↦ memcmp_loop num m (p1 + 1) (p2 + 1)
  | false ↦ (p1 + 1, p2 + 1)
]

unfoldable pub memcmp : Mem → (ptr1 ptr2 num : ℕ) → ℤ
memcmp m ptr1 ptr2 num =
    let (p1, p2) = memcmp_loop num m ptr1 ptr2 in
    if num == 0 then pos 0 else signed8 (m (p1 - 1)) -ℤ signed8 (m (p2 - 1))
