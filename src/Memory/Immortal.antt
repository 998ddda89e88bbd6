-- ===== src/Memory/Immortal.antt =====
-- The immortal allocator of src/memmgnt.c: a bump pointer in each arena. Only arena 1 is searched.
-- Parameters: none. The interrupt flag is part of the state, since the allocator masks interrupts.
pub mod Blocks
mod Examples
use ose.Prelude.{ℕ, zero, suc, ◌+◌, ◌-◌, ◌*◌, ◌/◌, ◌&&◌, Mem, write, u32, ltb, leb, ◌==◌}
use ose.Prelude.{if◌then◌else◌, Bool, true, false, List, [], ◌∷◌, get_or}
use ose.Prelude.Outcome.{Outcome, ok, panic, ◌>>=◌}
use ose.Memory.Bytes.{memzero}

abbrev pub arena_count : ℕ
arena_count = 2

abbrev pub arena_start : List ℕ
arena_start = 0 ∷ 0x100000 ∷ []

abbrev pub arena_end : List ℕ
arena_end = 0x80000 ∷ 0x400000 ∷ []

-- `current` is the array of the arenas' next free addresses.
pub record Immortal : Type 0 where
  pub current : Mem
  pub interrupts : Bool

-- The state before `init_immortal_allocator`.
abbrev pub initial : Immortal
initial = record { current = λ i. get_or arena_start i 0; interrupts = false }

pub init_immortal_allocator : (kernel_code_end : ℕ) → Immortal → Immortal
init_immortal_allocator kernel_code_end s = record s { current = write s.current 0 kernel_code_end }

-- `cur` of the search, in `size_t`.
abbrev pub align_up : ℕ → ℕ → ℕ
align_up current alignment = u32 (current + (alignment - 1)) / alignment * alignment

-- The search from arena `i` on, `k` arenas left; `flags` is what `pushfd` saved.
pub search_arenas : ℕ → ℕ → (size alignment : ℕ) → Bool → Immortal → Outcome (ℕ × Immortal)
search_arenas zero i size alignment flags s = panic
search_arenas (suc k) i size alignment flags s =
    let cur = align_up (s.current i) alignment in
    let end = get_or arena_end i 0 in
    let next = search_arenas k (i + 1) size alignment flags s in
    if ltb cur end && leb size (end - cur)
    then ok (cur, record s { current = write s.current i (u32 (cur + size)); interrupts = flags })
    else next

pub malloc_immortal : (size alignment : ℕ) → Immortal → Outcome (ℕ × Immortal)
unfolding search_arenas
malloc_immortal size alignment s =
    let alignment' = if alignment == 0 then 1 else alignment in
    if size == 0
    then ok (0, s)
    else search_arenas (arena_count - 1) 1 size alignment' s.interrupts
        (record s { interrupts = false })

unfoldable pub calloc_immortal :
    (size alignment : ℕ) → Mem → Immortal → Outcome (ℕ × Mem × Immortal)
calloc_immortal size alignment m s = do
  (result, s') ← malloc_immortal size alignment s
  ok (result, memzero result size m, s')
