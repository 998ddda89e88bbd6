-- ===== src/Memory/Bytes/Examples.antt =====
-- The theorems on the byte routines at concrete memories.
use ose.Prelude.{ℕ, ◌+◌, ◌≡◌, arith, ltb, if◌then◌else◌}
use ose.Memory.Bytes.{memmove}
use ose.Memory.Bytes.Copy.{memmove_lem}

-- The block 0 .. 2 moved up by two: address 4 holds what 2 held.
memmove_lem_example : memmove 2 0 3 (λ x. x) 4 ≡ 2
memmove_lem_example = memmove_lem 2 0 3 (λ x. x) 4 (omega arith) (omega arith) (omega arith)

abbrev abc : ℕ → ℕ
abc x = if ltb x 3 then x + 97 else 0
