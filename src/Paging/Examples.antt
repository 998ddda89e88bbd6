-- ===== src/Paging/Examples.antt =====
-- The theorems on address spaces at a directory without entries and at the kernel's page table.
use ose.Prelude.{ℕ, ◌+◌, ◌*◌, ◌/◌, ◌%◌, ◌<◌, ◌≡◌, ◌≢◌, refl, arith, true, ◌&&◌, some, List, [], ◌∷◌}
use ose.Prelude.Outcome.{ok}
use ose.Memory.Pages.{Frames}
use ose.Memory.Pages.Pool.{IsPool}
use ose.Paging.{entry, entry_at, directory_index, mount_page, create_vas}
use ose.Paging.Entries.{writable, user}
use ose.Paging.Translate.{translate}
use ose.Paging.Mount.{Extends, mount_page-translate}
use ose.Paging.Create.{new_mapping, create_vas-translate}
use ose.Paging.Samples.{
  holding, holding-IsPool, kernel_ram, kernel_ram-MapsKernel, empty, empty-IsSpace, empty-IsSmall,
}

mount_page-translate_example :
    (s' : Frames) × (free' : List ℕ) × (used' : List ℕ) × (mount_page 0x400000 0x500123 0x7000 true
        true empty
      ≡ ok s')
    × Extends empty [] (0x400000 ∷ []) 0x400000 (directory_index 0x500123) s' free' used'
    × (translate s'.ram 0x400000 0x500123
        ≡ some (record {
          physical = 0x7000 / 0x1000 * 0x1000 + 0x500123 % 0x1000;
          may_write = writable (entry_at s'.ram 0x400000 1) && true;
          may_access = user (entry_at s'.ram 0x400000 1) && true;
        }))
    × ((other : ℕ)
        → other < 4294967296
        → other / 0x1000 ≢ 0x500123 / 0x1000
        → translate s'.ram 0x400000 other ≡ translate empty.ram 0x400000 other)
mount_page-translate_example =
    mount_page-translate {s = empty} {free = []} {used = 0x400000 ∷ []} 0x400000 0x500123 0x7000
      true true empty-IsSpace (omega arith) (omega arith) (omega arith) (empty-IsSmall 1)

create_vas-translate_example :
    (pdt : ℕ) × (stack_pt : ℕ) × (page : ℕ) × (s' : Frames) × (create_vas
        (entry true true (0x400000 / 0x1000))
        (holding kernel_ram)
      ≡ ok (pdt, s'))
    × IsPool s' [] (page ∷ stack_pt ∷ pdt ∷ 0x400000 ∷ [])
    × ((virtual : ℕ)
        → virtual < 4294967296
        → translate s'.ram pdt virtual ≡ new_mapping page virtual)
create_vas-translate_example =
    create_vas-translate {s = holding kernel_ram} {free = []} {used = 0x400000 ∷ []} 0x400000
      (holding-IsPool kernel_ram) (omega arith) refl kernel_ram-MapsKernel
