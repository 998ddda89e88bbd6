-- ===== src/Paging/Entries.antt =====
-- The fields of an entry, and what a store of one leaves.
use ose.Prelude.{ℕ, ◌+◌, ◌*◌, ◌/◌, ◌%◌, ◌<◌, ◌≡◌, ◌≢◌, ◌⊎◌, arith, Bool, true, false, ◌==◌}
use ose.Memory.Words.{load32-store32_self, load32-store32_ne}
use ose.Memory.Pages.{Frames}
use ose.Paging.{entry, present, page_size_flag, frame_of, entry_at, set_entry}

abbrev pub writable : ℕ → Bool
writable e = e / 2 % 2 == 1

abbrev pub user : ℕ → Bool
user e = e / 4 % 2 == 1

-- The fields read back are those that were put, the address without its bits above 20.
pub entry_fields :
    (w u : Bool) (a : ℕ)
    → (present (entry w u a) ≡ true)
      × (page_size_flag (entry w u a) ≡ false)
      × (writable (entry w u a) ≡ w)
      × (user (entry w u a) ≡ u)
      × (frame_of (entry w u a) ≡ a % 0x100000 * 0x1000)
      × (entry w u a < 4294967296)
entry_fields true true a =
    (ground arith, ground arith, ground arith, ground arith, omega arith, omega arith)
entry_fields true false a =
    (ground arith, ground arith, ground arith, ground arith, omega arith, omega arith)
entry_fields false true a =
    (ground arith, ground arith, ground arith, ground arith, omega arith, omega arith)
entry_fields false false a =
    (ground arith, ground arith, ground arith, ground arith, omega arith, omega arith)

pub entry_at-set_entry :
    (t i e : ℕ) (s : Frames) → e < 4294967296 → entry_at (set_entry t i e s).ram t i ≡ e
unfolding entry_at set_entry
entry_at-set_entry t i e s h = load32-store32_self s.ram (t + i * 4) e h

-- Entries of other tables, and other entries of the same table, stay.
pub entry_at-set_entry_other :
    (t i t' j e : ℕ) (s : Frames)
    → t % 4096 ≡ 0
    → t' % 4096 ≡ 0
    → i < 1024
    → j < 1024
    → (t ≢ t') ⊎ (i ≢ j)
    → entry_at (set_entry t i e s).ram t' j ≡ entry_at s.ram t' j
unfolding entry_at set_entry
entry_at-set_entry_other t i t' j e s ht ht' hi hj ne =
    load32-store32_ne s.ram (t + i * 4) (t' + j * 4) e (omega arith) (omega arith) (ground arith)
