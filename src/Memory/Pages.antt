-- ===== src/Memory/Pages.antt =====
-- The page-frame allocator of src/memmgnt.c: a list of freed frames threaded through the first
-- word of each, and the edge of the frames never handed out.
pub mod Pool
pub mod Supply
mod Examples
use ose.Prelude.{ℕ, ◌+◌, ◌-◌, Mem, u32, leb, ◌==◌, if◌then◌else◌}
use ose.Prelude.Outcome.{Outcome, ok, panic, ◌>>=◌}
use ose.Memory.Bytes.{memzero}
use ose.Memory.Words.{load32, store32}

abbrev pub page_space_start : ℕ
page_space_start = 0x400000

abbrev pub page_space_end : ℕ
page_space_end = 0x40000000

abbrev pub page_size : ℕ
page_size = 0x1000

-- `ram` is all of memory, by bytes.
pub record Frames : Type 0 where
  pub ram : Mem
  pub frame_edge : ℕ
  pub frame_free_list : ℕ

pub malloc_page : Frames → Outcome (ℕ × Frames)
malloc_page s =
    if s.frame_free_list == 0
    then (if leb (page_space_end - page_size) s.frame_edge
        then panic
        else ok (s.frame_edge, record s { frame_edge = s.frame_edge + page_size }))
    else ok (s.frame_free_list, record s { frame_free_list = load32 s.ram s.frame_free_list })

pub calloc_page : Frames → Outcome (ℕ × Frames)
calloc_page s = do
  (page, s') ← malloc_page s
  ok (page, record s' { ram = memzero page page_size s'.ram })

unfoldable pub free_page : ℕ → Frames → Frames
free_page page s = record s { ram = store32 s.ram page s.frame_free_list; frame_free_list = page }
