-- ===== src/Paging/Create.antt =====
-- What a new address space maps.
use ose.Prelude.{
  ℕ, ◌+◌, ◌*◌, ◌/◌, ◌%◌, ◌≤◌, ◌<◌, ◌≡◌, ◌≢◌, ◌⊎◌, inl, inr, refl, sym, ◌∙◌, ap, arith, true, false,
  leb, ltb, ◌&&◌, Mem, List, ◌∷◌, has, if◌then◌else◌, Option, none, some,
}
use ose.Prelude.Outcome.{ok}
use native.Mathlib.Decide.{ℕ_discrete}
use ose.Memory.Pages.{Frames}
use ose.Memory.Pages.Pool.{IsPool, rest}
use ose.Memory.Pages.Supply.{used-IsFrame, supply, malloc_page-supply, calloc_page-supply, IsZeroed}
use ose.Paging.{entry, entry_at, set_entry, frame_of, directory_index, table_index, create_vas}
use ose.Paging.Entries.{entry_fields, entry_at-set_entry, entry_at-set_entry_other}
use ose.Paging.Translate.{Mapping, walk, translate, walk_absent, walk_unmapped, walk_entries}
use ose.Paging.Space.{set_entry-IsPool, set_entry-supply}
use ose.Paging.Table.{fresh_ne, entry_at-others, entry_at-zeroed}
use ose.Paging.Kernel.{MapsKernel, kernel_entry}

-- The directory and the table of the stack, entry by entry.
pub record IsCreated (m : Mem) (pdt stack_pt page kernel_pt : ℕ) : Type 0 where
  pub kernel : entry_at m pdt 0 ≡ entry true true (kernel_pt / 0x1000)
  pub stack : entry_at m pdt 1 ≡ entry true true (stack_pt / 0x1000)
  pub empty : (i : ℕ) → 1 < i → i < 1024 → entry_at m pdt i ≡ 0
  pub top : entry_at m stack_pt 1023 ≡ entry true true (page / 0x1000)
  pub below : (i : ℕ) → i < 1023 → entry_at m stack_pt i ≡ 0
  pub shared : MapsKernel m kernel_pt

-- The entries after the stores of `create_vas`, on three fresh frames.
module _ (m0 : Mem) (s1 s3 s4 : Frames) (p q g kt : ℕ) (z1 : IsZeroed m0 s1.ram p)
    (z3 : IsZeroed (set_entry p 0 (entry true true (kt / 0x1000)) s1).ram s3.ram q)
    (same : s4.ram ≡ s3.ram) (pa : p % 4096 ≡ 0) (qa : q % 4096 ≡ 0) (ka : kt % 4096 ≡ 0)
    (pq : p ≢ q) (kp : kt ≢ p) (kq : kt ≢ q) (maps : MapsKernel m0 kt) where
  abbrev kernel_pde : ℕ
  kernel_pde = entry true true (kt / 0x1000)

  abbrev top_entry : ℕ
  top_entry = entry true true (g / 0x1000)

  abbrev stack_pde : ℕ
  stack_pde = entry true true (q / 0x1000)

  abbrev s5 : Frames
  s5 = set_entry q 1023 top_entry s4

  abbrev final : Frames
  final = set_entry p 1 stack_pde s5

  -- The entries of frames other than `q`, before the last two stores.
  early :
      (t j : ℕ)
      → t % 4096 ≡ 0
      → j < 1024
      → t ≢ q
      → entry_at s5.ram t j ≡ entry_at (set_entry p 0 kernel_pde s1).ram t j
  early t j ta hj tq =
      entry_at-set_entry_other q 1023 t j top_entry s4 qa ta (omega arith) hj
        (inl (λ e. tq (sym e)))
      ∙ ap (λ m. entry_at m t j) same
      ∙ entry_at-others (set_entry p 0 kernel_pde s1).ram s3.ram q t j z3 qa ta hj tq

  late :
      (t j : ℕ)
      → t % 4096 ≡ 0
      → j < 1024
      → (p ≢ t) ⊎ (1 ≢ j)
      → entry_at final.ram t j ≡ entry_at s5.ram t j
  late t j ta hj ne = entry_at-set_entry_other p 1 t j stack_pde s5 pa ta (omega arith) hj ne

  created : IsCreated final.ram p q g kt
  created = record {
    kernel =
        late p 0 pa (omega arith) (inr (omega arith))
        ∙ early p 0 pa (omega arith) pq
        ∙ entry_at-set_entry p 0 kernel_pde s1 (entry_fields true true (kt / 0x1000)).5;
    stack = entry_at-set_entry p 1 stack_pde s5 (entry_fields true true (q / 0x1000)).5;
    empty = λ i lo hi.
        late p i pa hi (inr (omega arith))
        ∙ early p i pa hi pq
        ∙ entry_at-set_entry_other p 0 p i kernel_pde s1 pa pa (omega arith) hi (inr (omega arith))
        ∙ entry_at-zeroed m0 s1.ram p i z1 hi;
    top =
        late q 1023 qa (omega arith) (inl pq)
        ∙ entry_at-set_entry q 1023 top_entry s4 (entry_fields true true (g / 0x1000)).5;
    below = λ i hi.
        late q i qa (omega arith) (inl pq)
        ∙ entry_at-set_entry_other q 1023 q i top_entry s4 qa qa (omega arith) (omega arith)
            (inr (omega arith))
        ∙ ap (λ m. entry_at m q i) same
        ∙ entry_at-zeroed (set_entry p 0 kernel_pde s1).ram s3.ram q i z3 (omega arith);
    shared = λ i hi.
        late kt i ka hi (inl (λ e. kp (sym e)))
        ∙ early kt i ka hi kq
        ∙ entry_at-set_entry_other p 0 kt i kernel_pde s1 pa ka (omega arith) hi
            (inl (λ e. kp (sym e)))
        ∙ entry_at-others m0 s1.ram p kt i z1 pa ka hi kp
        ∙ maps i hi;
  }

has_third : (p q g : ℕ) (used : List ℕ) → has p (g ∷ q ∷ p ∷ used) ≡ true
has_third p q g used = ground arith

-- While there is a supply of three frames, `create_vas` returns; the directory, the table of the
-- stack and its first page are frames of their own, the kernel's table is shared, and the entries
-- are as `IsCreated` says.
pub create_vas-IsCreated :
    {s : Frames} {free used : List ℕ} (kernel_pt : ℕ)
    → IsPool s free used
    → 3 ≤ supply s free
    → has kernel_pt used ≡ true
    → MapsKernel s.ram kernel_pt
    → (pdt : ℕ) × (stack_pt : ℕ) × (page : ℕ) × (s' : Frames) × (create_vas
          (entry true true (kernel_pt / 0x1000))
          s
        ≡ ok (pdt, s'))
      × IsPool s' (rest (rest (rest free))) (page ∷ stack_pt ∷ pdt ∷ used)
      × IsCreated s'.ram pdt stack_pt page kernel_pt
      × (supply s' (rest (rest (rest free))) + 3 ≡ supply s free)
unfolding create_vas
create_vas-IsCreated {s} {free} {used} kt v h hk maps =
    let kpde = entry true true (kt / 0x1000) in
    let (p, s1, e1, v1, z1, c1) = calloc_page-supply v (omega arith) in
    let s2 = set_entry p 0 kpde s1 in
    let v2 = set_entry-IsPool p 0 kpde v1 (ground arith) (omega arith) in
    let (q, s3, e3, v3, z3, c3) =
      calloc_page-supply v2 (omega (arith, c1, set_entry-supply p 0 kpde s1 (rest free))) in
    let (g, s4, e4, v4, same, c4) =
      malloc_page-supply v3 (omega (arith, c1, c3, set_entry-supply p 0 kpde s1 (rest free))) in
    let cost : supply s4 (rest (rest (rest free))) + 3 ≡ supply s free =
      omega (arith, c1, c3, c4, set_entry-supply p 0 kpde s1 (rest free)) in
    let p-IsFrame = v1.used_frames.0 in
    let q_frame = v3.used_frames.0 in
    let k_frame = used-IsFrame kt v hk in
    let kp = fresh_ne used p kt v1.used_distinct.0 hk in
    let kq = fresh_ne (p ∷ used) q kt v3.used_distinct.0 (ground arith) in
    let pq = fresh_ne (p ∷ used) q p v3.used_distinct.0 (ground arith) in
    let top = entry true true (g / 0x1000) in
    let v5 = set_entry-IsPool q 1023 top v4 (ground arith) (omega arith) in
    rw (e1, e3, e4)
      (
        p,
        q,
        g,
        final s.ram s1 s3 s4 p q g kt z1 z3 same (omega (arith, p-IsFrame)) (omega (arith, q_frame))
            (omega (arith, k_frame)) pq kp kq maps,
        refl,
        set_entry-IsPool p 1 (entry true true (q / 0x1000)) v5 (has_third p q g used) (omega arith),
        created s.ram s1 s3 s4 p q g kt z1 z3 same (omega (arith, p-IsFrame))
            (omega (arith, q_frame)) (omega (arith, k_frame)) pq kp kq maps,
        ap (λ n. n + 3)
              (set_entry-supply p 1 (entry true true (q / 0x1000)) (set_entry q 1023 top s4)
                  (rest (rest (rest free)))
                ∙ set_entry-supply q 1023 top s4 (rest (rest (rest free))))
            ∙ cost,
      )

-- What an address of a new space is mapped to: the first 4 MB to themselves as the kernel's table
-- says, the highest page of the next 4 MB to the page of the stack, and nothing else.
abbrev pub new_mapping : (page virtual : ℕ) → Option Mapping
new_mapping page virtual =
    if ltb virtual 0x400000
    then some (record {
      physical = virtual;
      may_write = true;
      may_access = leb 0x7000 virtual && ltb virtual 0x80000;
    })
    else if leb 0x7FF000 virtual && ltb virtual 0x800000
    then some (record { physical = page + virtual % 0x1000; may_write = true; may_access = true })
    else none

kernel_mapping :
    (kt page virtual : ℕ)
    → virtual < 0x400000
    → walk (entry true true kt) (kernel_entry (table_index virtual)) virtual
      ≡ new_mapping page virtual
kernel_mapping kt page virtual h =
    let i = table_index virtual in
    let low : ltb virtual 0x400000 ≡ true = ground arith in
    let address : i % 0x100000 * 0x1000 + virtual % 0x1000 ≡ virtual = omega arith in
    let access : leb 0x7 i && ltb i 0x80 ≡ leb 0x7000 virtual && ltb virtual 0x80000 =
      ground arith in
    rw low (walk_entries true (leb 0x7 i && ltb i 0x80) kt i virtual ∙ rw (address, access) refl)

stack_mapping :
    (q page virtual : ℕ)
    → virtual / 0x1000 ≡ 0x7FF
    → page % 4096 ≡ 0
    → page < 4294967296
    → walk (entry true true q) (entry true true (page / 0x1000)) virtual ≡ new_mapping page virtual
stack_mapping q page virtual h pa pl =
    let high : ltb virtual 0x400000 ≡ false = ground arith in
    let top : (leb 0x7FF000 virtual && ltb virtual 0x800000) ≡ true = ground arith in
    let address : page / 0x1000 % 0x100000 * 0x1000 ≡ page = omega arith in
    rw (high, top) (walk_entries true true q (page / 0x1000) virtual ∙ rw address refl)

none_mapped :
    (page virtual : ℕ)
    → 0x400000 ≤ virtual
    → virtual / 0x1000 ≢ 0x7FF
    → none ≡ new_mapping page virtual
none_mapped page virtual h ne =
    let high : ltb virtual 0x400000 ≡ false = ground arith in
    let off : (leb 0x7FF000 virtual && ltb virtual 0x800000) ≡ false = ground arith in
    rw (high, off) refl

pub frame_of-entry :
    (t : ℕ) → t % 4096 ≡ 0 → t < 4294967296 → frame_of (entry true true (t / 0x1000)) ≡ t
frame_of-entry t ta tl = omega (arith, entry_fields true true (t / 0x1000))

pub IsCreated-translate :
    (m : Mem) (pdt stack_pt page kernel_pt virtual : ℕ)
    → IsCreated m pdt stack_pt page kernel_pt
    → (stack_pt % 4096 ≡ 0) × (stack_pt < 4294967296)
    → (page % 4096 ≡ 0) × (page < 4294967296)
    → (kernel_pt % 4096 ≡ 0) × (kernel_pt < 4294967296)
    → virtual < 4294967296
    → translate m pdt virtual ≡ new_mapping page virtual
IsCreated-translate m pdt st g kt virtual c sa ga ka h =
    let k = table_index virtual in
    elim (ℕ_discrete (directory_index virtual) 0) [
      | yes z ↦
          rw (z, c.kernel, frame_of-entry kt ka.0 ka.1, c.shared k (omega arith))
            (kernel_mapping (kt / 0x1000) g virtual (omega arith))
      | no nz ↦ elim (ℕ_discrete (directory_index virtual) 1) [
        | yes o ↦
            let (x, y, w, u, f, l) = entry_fields true true (st / 0x1000) in
            elim (ℕ_discrete k 1023) [
              | yes t ↦
                  rw (o, c.stack, frame_of-entry st sa.0 sa.1, t, c.top)
                    (stack_mapping (st / 0x1000) g virtual (omega arith) ga.0 ga.1)
              | no nt ↦
                  rw (o, c.stack, frame_of-entry st sa.0 sa.1, c.below k (omega arith))
                    (walk_unmapped _ _ virtual x y refl
                      ∙ none_mapped g virtual (omega arith) (λ e. nt (omega arith)))
            ]
        | no no' ↦
            walk_absent _ _ virtual
              (rw (c.empty (directory_index virtual) (omega arith) (omega arith)) refl)
            ∙ none_mapped g virtual (omega arith) (λ e. no' (omega arith))
      ]
    ]

-- While there is a supply of three frames and a frame that is held is the table of the kernel,
-- `create_vas` returns a directory in a frame of its own. It maps the addresses below 4 MB to
-- themselves, open to user code from 0x7000 up to 0x80000, the page below 8 MB to a frame of its own
-- for the stack, writable and open to user code, and no other address.
pub create_vas-translate :
    {s : Frames} {free used : List ℕ} (kernel_pt : ℕ)
    → IsPool s free used
    → 3 ≤ supply s free
    → has kernel_pt used ≡ true
    → MapsKernel s.ram kernel_pt
    → (pdt : ℕ) × (stack_pt : ℕ) × (page : ℕ) × (s' : Frames) × (create_vas
          (entry true true (kernel_pt / 0x1000))
          s
        ≡ ok (pdt, s'))
      × IsPool s' (rest (rest (rest free))) (page ∷ stack_pt ∷ pdt ∷ used)
      × ((virtual : ℕ)
          → virtual < 4294967296
          → translate s'.ram pdt virtual ≡ new_mapping page virtual)
create_vas-translate kt v h hk maps =
    let (p, q, g, s', e, v', c, cost) = create_vas-IsCreated kt v h hk maps in
    let k_frame = used-IsFrame kt v hk in
    let g_frame = v'.used_frames.0 in
    let q_frame = v'.used_frames.1.0 in
    let high = v'.edge_high in
    let high_before = v.edge_high in
    (
      p,
      q,
      g,
      s',
      e,
      v',
      λ virtual hv.
          IsCreated-translate s'.ram p q g kt virtual c (omega (arith, q_frame))
            (omega (arith, g_frame)) (omega (arith, k_frame)) hv,
    )
