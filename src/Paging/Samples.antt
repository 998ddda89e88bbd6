-- ===== src/Paging/Samples.antt =====
-- Concrete frames: one held, with the page table of the kernel, and four, with an address space.
use ose.Prelude.{
  ℕ, ◌+◌, ◌-◌, ◌*◌, ◌/◌, ◌%◌, ◌<◌, ◌≡◌, refl, arith, true, ◌&&◌, ◌==◌, [], ◌∷◌, Mem, if◌then◌else◌,
  leb, ltb, ◌∙◌, inl, inr, Bool-cases,
}
use mathlib.Core.Bool.{false≢true}
use ose.Memory.Words.{load32}
use ose.Memory.Pages.{Frames}
use ose.Memory.Pages.Pool.{IsPool}
use ose.Paging.{entry, entry_at}
use ose.Paging.Space.{HasTable, IsSmall, IsSpace}
use ose.Paging.Create.{IsCreated}
use ose.Paging.Entries.{entry_fields}
use ose.Paging.Kernel.{kernel_entry, MapsKernel}

-- One frame is held, with the given memory.
abbrev pub holding : Mem → Frames
holding m = record { ram = m; frame_edge = 0x401000; frame_free_list = 0 }

pub holding-IsPool : (m : Mem) → IsPool (holding m) [] (0x400000 ∷ [])
holding-IsPool m = record {
  edge_low = omega arith;
  edge_high = omega arith;
  edge_aligned = refl;
  chain = refl;
  free_frames = tt;
  used_frames = ((omega arith, omega arith, refl), tt);
  free_distinct = tt;
  used_distinct = (refl, tt);
  apart = λ p h. absurd (false≢true h);
  count = refl;
}

-- A memory with a table of words at 0x400000, and the table of the kernel.
abbrev byte_of : ℕ → ℕ → ℕ
byte_of e j =
    if j == 0
    then e % 256
    else if j == 1
    then e / 256 % 256
    else if j == 2
    then e / 65536 % 256
    else e / 16777216 % 256

abbrev table_ram : (ℕ → ℕ) → Mem
table_ram f a = byte_of (f ((a - 0x400000) / 4)) (a % 4)

load32-table_ram :
    (f : ℕ → ℕ) (i : ℕ) → f i < 4294967296 → load32 (table_ram f) (0x400000 + i * 4) ≡ f i
unfolding load32
load32-table_ram f i h =
    let a = 0x400000 + i * 4 in
    let q0 : (a - 0x400000) / 4 ≡ i = omega arith in
    let q1 : (a + 1 - 0x400000) / 4 ≡ i = omega arith in
    let q2 : (a + 2 - 0x400000) / 4 ≡ i = omega arith in
    let q3 : (a + 3 - 0x400000) / 4 ≡ i = omega arith in
    let r0 : a % 4 ≡ 0 = omega arith in
    let r1 : (a + 1) % 4 ≡ 1 = omega arith in
    let r2 : (a + 2) % 4 ≡ 2 = omega arith in
    let r3 : (a + 3) % 4 ≡ 3 = omega arith in rw (q0, q1, q2, q3, r0, r1, r2, r3) (omega arith)

abbrev pub kernel_ram : Mem
kernel_ram = table_ram kernel_entry

pub kernel_ram-MapsKernel : MapsKernel kernel_ram 0x400000
unfolding entry_at
kernel_ram-MapsKernel i hi =
    load32-table_ram kernel_entry i (entry_fields true (leb 0x7 i && ltb i 0x80) i).5

-- A directory without entries.
abbrev pub empty : Frames
empty = holding (λ a. 0)

no_table : (i : ℕ) → ¬ HasTable empty.ram 0x400000 i
unfolding entry_at load32
no_table i h = false≢true h.0

pub empty-IsSpace : IsSpace empty [] (0x400000 ∷ []) 0x400000
empty-IsSpace = record {
  pool = holding-IsPool (λ a. 0);
  root = refl;
  tables_held = λ i hi h. absurd (no_table i h);
  tables_apart = λ i hi h. absurd (no_table i h);
  distinct = λ i j hi hj ne h k. absurd (no_table i h);
}

pub empty-IsSmall : (i : ℕ) → IsSmall empty.ram 0x400000 i
unfolding entry_at load32
empty-IsSmall i = refl

-- The memory after a first address space: the directory at 0x401000, the table of the stack behind
-- it, and the page of the stack at 0x403000.
abbrev spaced_entry : ℕ → ℕ
spaced_entry i =
    if ltb i 1024
    then kernel_entry i
    else if i == 1024
    then entry true true 0x400
    else if i == 1025
    then entry true true 0x402
    else if i == 3071
    then entry true true 0x403
    else 0

abbrev pub spaced : Frames
spaced = record { ram = table_ram spaced_entry; frame_edge = 0x404000; frame_free_list = 0 }

spaced_entry_small : (i : ℕ) → spaced_entry i < 4294967296
spaced_entry_small i = elim (Bool-cases (ltb i 1024)) [
  | inl h ↦ rw h (entry_fields true (leb 0x7 i && ltb i 0x80) i).5
  | inr h ↦ rw h (ground arith)
]

spaced_at :
    (t i : ℕ)
    → t < 4
    → i < 1024
    → entry_at spaced.ram (0x400000 + t * 4096) i ≡ spaced_entry (t * 1024 + i)
unfolding entry_at
spaced_at t i ht hi =
    let q : 0x400000 + t * 4096 + i * 4 ≡ 0x400000 + (t * 1024 + i) * 4 = omega arith in
    rw q (load32-table_ram spaced_entry (t * 1024 + i) (spaced_entry_small (t * 1024 + i)))

pub spaced-IsPool : IsPool spaced [] (0x403000 ∷ 0x402000 ∷ 0x401000 ∷ 0x400000 ∷ [])
spaced-IsPool = record {
  edge_low = omega arith;
  edge_high = omega arith;
  edge_aligned = refl;
  chain = refl;
  free_frames = tt;
  used_frames = (
    (omega arith, omega arith, refl),
    (
      (omega arith, omega arith, refl),
      ((omega arith, omega arith, refl), ((omega arith, omega arith, refl), tt)),
    ),
  );
  free_distinct = tt;
  used_distinct = (refl, (refl, (refl, (refl, tt))));
  apart = λ p h. absurd (false≢true h);
  count = refl;
}

pub spaced-IsCreated : IsCreated spaced.ram 0x401000 0x402000 0x403000 0x400000
spaced-IsCreated = record {
  kernel = spaced_at 1 0 (omega arith) (omega arith);
  stack = spaced_at 1 1 (omega arith) (omega arith);
  empty = λ i lo hi. spaced_at 1 i (omega arith) hi ∙ ground arith;
  top = spaced_at 2 1023 (omega arith) (omega arith);
  below = λ i hi. spaced_at 2 i (omega arith) (omega arith) ∙ ground arith;
  shared = λ i hi. spaced_at 0 i (omega arith) hi ∙ ground arith;
}
