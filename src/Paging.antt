-- ===== src/Paging.antt =====
-- Virtual memory of src/paging.c: page directories and page tables in the memory of the frames.
use ose.Prelude.{
  ℕ, zero, suc, ◌+◌, ◌-◌, ◌*◌, ◌/◌, ◌%◌, Bool, true, false, not, ◌&&◌, ◌||◌, Option, none, some,
  Mem, leb, ltb, ◌==◌, if◌then◌else◌, u32,
}
use ose.Prelude.Outcome.{Outcome, ok, panic, ◌>>=◌}
use ose.Memory.Words.{load32, store32}
use ose.Memory.Pages.{Frames, malloc_page, calloc_page, free_page}
pub mod Entries
pub mod Translate
pub mod Space
pub mod Table
pub mod Mount
pub mod Owner
pub mod Owning
pub mod Fresh
pub mod Stack
pub mod Kernel
pub mod Create
pub mod Frees
pub mod Owned
pub mod Members
pub mod Release
pub mod Created
pub mod Exhausted
pub mod Samples
mod Examples

-- An entry of a page table or a page directory, with `present` set and the fields that the code
-- leaves out zero; `address` has 20 bits.
abbrev pub entry : (writable user : Bool) → (address : ℕ) → ℕ
entry writable user address =
    1 + (if writable then 2 else 0) + (if user then 4 else 0) + address % 0x100000 * 0x1000

abbrev pub present : ℕ → Bool
present e = e % 2 == 1

abbrev pub page_size_flag : ℕ → Bool
page_size_flag e = e / 128 % 2 == 1

-- The field `address`, shifted back.
abbrev pub frame_of : ℕ → ℕ
frame_of e = e / 0x1000 * 0x1000

-- `table[i]`.
pub entry_at : Mem → (table i : ℕ) → ℕ
entry_at m table i = load32 m (table + i * 4)

pub set_entry : (table i e : ℕ) → Frames → Frames
set_entry table i e s = record s { ram = store32 s.ram (table + i * 4) e }

abbrev pub directory_index : ℕ → ℕ
directory_index virtual = virtual / 0x400000

abbrev pub table_index : ℕ → ℕ
table_index virtual = virtual / 0x1000 % 1024

-- The loop of `setup_kernel_paging` from entry `i` on, with `k` entries left.
unfoldable pub map_kernel : ℕ → (i kernel_pt : ℕ) → Frames → Frames
map_kernel zero i kernel_pt s = s
map_kernel (suc k) i kernel_pt s =
    map_kernel k (i + 1) kernel_pt
      (set_entry kernel_pt i (entry true (leb 0x7 i && ltb i 0x80) i) s)

-- `kernel_pt` and `kernel_pde`.
unfoldable pub setup_kernel_paging : Frames → Outcome (ℕ × ℕ × Frames)
setup_kernel_paging s = do
  (kernel_pt, s') ← calloc_page s
  ok (kernel_pt, entry true true (kernel_pt / 0x1000), map_kernel 1024 0 kernel_pt s')

unfoldable pub is_mounted : (pdt virtual : ℕ) → Frames → Bool
is_mounted pdt virtual s =
    let pde = entry_at s.ram pdt (directory_index virtual) in
    present pde
    && (page_size_flag pde || present (entry_at s.ram (frame_of pde) (table_index virtual)))

-- The first part of `mount_page`: a page table for the directory entry.
unfoldable pub ensure_table : (pdt i : ℕ) → Frames → Outcome Frames
ensure_table pdt i s =
    if present (entry_at s.ram pdt i)
    then ok s
    else do (page, s') ← calloc_page s; ok (set_entry pdt i (entry true true (page / 0x1000)) s')

unfoldable pub mount_page :
    (pdt virtual physical : ℕ) → (writable user : Bool) → Frames → Outcome Frames
mount_page pdt virtual physical writable user s = do
  s' ← ensure_table pdt (directory_index virtual) s
  let pde = entry_at s'.ram pdt (directory_index virtual)
  let e = entry writable user (physical / 0x1000)
  ok (if page_size_flag pde then s' else set_entry (frame_of pde) (table_index virtual) e s')

unfoldable pub create_vas : (kernel_pde : ℕ) → Frames → Outcome (ℕ × Frames)
create_vas kernel_pde s = do
  (pdt, s1) ← calloc_page s
  let s2 = set_entry pdt 0 kernel_pde s1
  (stack_pt, s3) ← calloc_page s2
  (page, s4) ← malloc_page s3
  let s5 = set_entry stack_pt 1023 (entry true true (page / 0x1000)) s4
  ok (pdt, set_entry pdt 1 (entry true true (stack_pt / 0x1000)) s5)

-- The loop from entry `i` on, with `k` entries left.
unfoldable pub free_entries : ℕ → (i pt : ℕ) → Frames → Frames
free_entries zero i pt s = s
free_entries (suc k) i pt s =
    let e = entry_at s.ram pt i in
    free_entries k (i + 1) pt (if present e then free_page (frame_of e) s else s)

unfoldable pub free_pagetable : ℕ → Frames → Frames
free_pagetable pt s = free_entries 1024 0 pt s

unfoldable pub free_tables : ℕ → (i pdt : ℕ) → Frames → Frames
free_tables zero i pdt s = s
free_tables (suc k) i pdt s =
    let e = entry_at s.ram pdt i in
    let pt = frame_of e in
    free_tables k (i + 1) pdt
      (if present e && not (page_size_flag e) then free_page pt (free_pagetable pt s) else s)

unfoldable pub free_vas : ℕ → Frames → Frames
free_vas pdt s = free_tables 1023 1 pdt s

-- The loop of the page fault handler over `i` for the stack, which also moves lowest_stack_page;
-- `ok none` means that the fuel ran out.
unfoldable pub grow_stack :
    ℕ → (pdt cr2 i lowest_stack_page : ℕ) → Frames → Outcome (Option (ℕ × Frames))
grow_stack zero pdt cr2 i lowest s = ok none
grow_stack (suc fuel) pdt cr2 i lowest s = elim (ltb cr2 i) [
  | false ↦ ok (some (lowest, s))
  | true ↦
      let i' = i - 0x1000 in
      (if is_mounted pdt i' s
        then ok s
        else do (page, s') ← malloc_page s; mount_page pdt (frame_of i') page true true s')
      >>= λ s'. grow_stack fuel pdt cr2 i' i' s'
]
