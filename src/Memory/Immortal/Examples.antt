-- ===== src/Memory/Immortal/Examples.antt =====
-- The theorems on the immortal allocator at the state after `init_immortal_allocator`.
use ose.Prelude.{ℕ, ◌+◌, ◌%◌, ◌≤◌, ◌≡◌, refl, arith, true, write, get_or, ap}
use ose.Prelude.Outcome.{ok}
use ose.Memory.Immortal.{Immortal, initial, arena_start, init_immortal_allocator, malloc_immortal}
use ose.Memory.Immortal.Blocks.{effective, malloc_immortal-block}

abbrev booted : Immortal
booted = record { current = write (λ i. get_or arena_start i 0) 0 0x9000; interrupts = true }

abbrev served : Immortal
served = record booted { current = write booted.current 1 0x100200 }

booted_lem :
    init_immortal_allocator 0x9000 initial ≡ record booted { interrupts = initial.interrupts }
unfolding init_immortal_allocator
booted_lem = refl

malloc_immortal-block_example :
    (0x100000 % effective 8 ≡ 0)
    × (booted.current 1 ≤ 0x100000)
    × (0x100000 + 512 ≤ 0x400000)
    × (served.current 1 ≡ 0x100000 + 512)
    × (served.current 0 ≡ booted.current 0)
    × (served.interrupts ≡ booted.interrupts)
unfolding malloc_immortal
malloc_immortal-block_example =
    malloc_immortal-block booted 512 8 {p = 0x100000} {s' = served} (omega arith) (omega arith)
      (ap (λ (m : ℕ → ℕ). ok (0x100000, record booted { current = m })) refl)
