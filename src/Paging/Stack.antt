-- ===== src/Paging/Stack.antt =====
-- The growth of the stack on a page fault.
use ose.Prelude.{
  ℕ, zero, suc, ◌+◌, ◌-◌, ◌*◌, ◌/◌, ◌%◌, ◌≤◌, ◌<◌, ◌≡◌, ◌≢◌, ◌⊎◌, inl, inr, refl, sym, ◌∙◌, ap,
  arith, true, ltb, List, ◌∷◌, has, if◌then◌else◌, Bool-cases, some,
}
use ose.Prelude.Outcome.{ok, ◌>>=◌}
use native.Mathlib.Decide.{dec_lt, ℕ_discrete}
use ose.Memory.Pages.{Frames, malloc_page}
use ose.Memory.Pages.Pool.{rest}
use ose.Memory.Pages.Supply.{supply, malloc_page-supply}
use ose.Paging.{
  frame_of, entry_at, directory_index, table_index, mount_page, is_mounted, grow_stack,
}
use ose.Paging.Translate.{is_some, is_mounted-translate}
use ose.Paging.Owner.{IsOwner, mounted-IsOwner}
use ose.Paging.Space.{HasTable, table, IsSmall, IsSpace, same_directory-IsSpace}
use ose.Paging.Mount.{mount_page-translate}

-- Addresses of the same page are mounted together.
is_mounted-page :
    (pdt a b : ℕ) (s : Frames) → a / 0x1000 ≡ b / 0x1000 → is_mounted pdt a s ≡ is_mounted pdt b s
unfolding is_mounted
is_mounted-page pdt a b s e =
    let d : directory_index a ≡ directory_index b = omega arith in
    let t : table_index a ≡ table_index b = omega arith in rw (d, t) refl

is_mounted-same :
    (pdt a : ℕ) (s s' : Frames) → s'.ram ≡ s.ram → is_mounted pdt a s' ≡ is_mounted pdt a s
unfolding is_mounted entry_at
is_mounted-same pdt a s s' e = rw e refl

-- A later state in which everything that was mounted still is, and all but the table under directory
-- entry 1 is as before.
pub record Grows (s : Frames) (free used : List ℕ) (pdt : ℕ) (s' : Frames) (free' used' : List ℕ)
    : Type 0 where
  pub space : IsSpace s' free' used' pdt
  pub small : IsSmall s'.ram pdt 1
  pub keeps : (a : ℕ) → a < 4294967296 → is_mounted pdt a s ≡ true → is_mounted pdt a s' ≡ true
  pub held : (p : ℕ) → has p used ≡ true → has p used' ≡ true
  pub directory : (j : ℕ) → j < 1024 → j ≢ 1 → entry_at s'.ram pdt j ≡ entry_at s.ram pdt j
  pub kept :
      (j l : ℕ)
      → j < 1024
      → l < 1024
      → j ≢ 1
      → HasTable s.ram pdt j
      → entry_at s'.ram (table s.ram pdt j) l ≡ entry_at s.ram (table s.ram pdt j) l
  pub owner : IsOwner s free used pdt → IsOwner s' free' used' pdt

-- Nothing has changed, or one growth follows another.
Grows-refl :
    {s : Frames} {free used : List ℕ} (pdt : ℕ)
    → IsSpace s free used pdt
    → IsSmall s.ram pdt 1
    → Grows s free used pdt s free used
Grows-refl pdt v small = record {
  space = v;
  small = small;
  keeps = λ a ha m. m;
  held = λ p h. h;
  directory = λ j hj ne. refl;
  kept = λ j l hj hl ne t. refl;
  owner = λ o. o;
}

Grows-trans :
    {s s1 s2 : Frames} {free used free1 used1 free2 used2 : List ℕ} (pdt : ℕ)
    → Grows s free used pdt s1 free1 used1
    → Grows s1 free1 used1 pdt s2 free2 used2
    → Grows s free used pdt s2 free2 used2
Grows-trans {s} {s1} {s2} pdt g h = record {
  space = h.space;
  small = h.small;
  keeps = λ a ha o. h.keeps a ha (g.keeps a ha o);
  held = λ p i. h.held p (g.held p i);
  directory = λ j hj ne. h.directory j hj ne ∙ g.directory j hj ne;
  kept = λ j l hj hl ne t.
      let e = g.directory j hj ne in
      let t1 : HasTable s1.ram pdt j = rw e t in
      let k1 = h.kept j l hj hl ne t1 in rw e at k1 ∙ g.kept j l hj hl ne t;
  owner = λ o. h.owner (g.owner o);
}

-- One round: a page that is not mounted gets a frame.
mount_fresh :
    {s : Frames} {free used : List ℕ} (pdt i : ℕ)
    → IsSpace s free used pdt
    → IsSmall s.ram pdt 1
    → 2 ≤ supply s free
    → 0x400000 ≤ i
    → i < 0x800000
    → i % 0x1000 ≡ 0
    → (s' : Frames) × (free' : List ℕ) × (used' : List ℕ) × ((do
      (page, s1) ← malloc_page s
      mount_page pdt (frame_of i) page true true s1)
        ≡ ok s')
      × Grows s free used pdt s' free' used'
      × (is_mounted pdt i s' ≡ true)
      × (supply s free ≤ supply s' free' + 2)
mount_fresh {s} {free} {used} pdt i v small h lo hi al =
    let (p, s1, e, pool, same, less) = malloc_page-supply v.pool (omega arith) in
    let directory : directory_index i ≡ 1 = omega arith in
    let whole : frame_of i ≡ i = omega arith in
    let v1 : IsSpace s1 (rest free) (p ∷ used) pdt =
      same_directory-IsSpace pdt v pool (λ q hq. ground arith)
        (λ j hj. ap (λ m. entry_at m pdt j) same) in
    let frame = pool.used_frames.0 in
    let small1 : IsSmall s1.ram pdt (directory_index i) = rw (directory, same) small in
    let (s2, free2, used2, e2, x, t, others) =
      mount_page-translate pdt i p true true v1 (omega arith) (omega arith)
        (omega (arith, frame, pool.edge_high)) small1 in
    let physical_page : p / 0x1000 * 0x1000 + i % 0x1000 ≡ p = omega (arith, frame) in
    let mounted : is_mounted pdt i s2 ≡ true = is_mounted-translate pdt i s2 ∙ ap is_some t in
    (
      s2,
      free2,
      used2,
      rw (e, whole) e2,
      record {
        space = x.space;
        small = x.small 1 (omega arith) (rw same small);
        keeps = λ a ha m. elim (ℕ_discrete (a / 0x1000) (i / 0x1000)) [
          | yes q ↦ is_mounted-page pdt a i s2 q ∙ mounted
          | no ne ↦
              is_mounted-translate pdt a s2
              ∙ ap is_some (others a ha ne)
              ∙ sym (is_mounted-translate pdt a s1)
              ∙ is_mounted-same pdt a s s1 same
              ∙ m
        ];
        held = λ q h. x.held q (ground arith);
        directory = λ j hj ne. x.directory j hj (rw directory ne) ∙ ap (λ r. entry_at r pdt j) same;
        kept = λ j l hj hl ne t.
            let k = x.kept j l hj hl (rw directory ne) (rw same t) in rw same at k;
        owner = λ o.
            mounted-IsOwner s s1 s2 free used (rest free) free2 used2 pdt p i _ o
              pool.used_distinct.0 (lo, omega arith, al) same x t physical_page others;
      },
      mounted,
      omega (arith, less, x.cost),
    )

-- What the growth of a stack down from `i` leaves, with `low` as the lowest page.
pub record Grown (s : Frames) (free used : List ℕ) (pdt cr2 i low : ℕ) (s' : Frames)
    (free' used' : List ℕ) : Type 0 where
  pub grows : Grows s free used pdt s' free' used'
  pub below : low ≤ i
  pub cost : supply s free ≤ supply s' free' + 2 * ((i - low) / 0x1000)
  pub reached : low ≤ cr2
  pub near : (low ≡ i) ⊎ (cr2 < low + 0x1000)
  pub aligned : low % 0x1000 ≡ 0
  pub mounted : (a : ℕ) → low ≤ a → a < i → is_mounted pdt a s' ≡ true

-- One round of the loop before the next.
round :
    {s : Frames} {free used : List ℕ} (pdt i : ℕ)
    → IsSpace s free used pdt
    → IsSmall s.ram pdt 1
    → 2 ≤ supply s free
    → 0x400000 ≤ i
    → i < 0x800000
    → i % 0x1000 ≡ 0
    → (s' : Frames) × (free' : List ℕ) × (used' : List ℕ) × ((if is_mounted pdt i s
          then ok s
          else do (page, s1) ← malloc_page s; mount_page pdt (frame_of i) page true true s1)
        ≡ ok s')
      × Grows s free used pdt s' free' used'
      × (is_mounted pdt i s' ≡ true)
      × (supply s free ≤ supply s' free' + 2)
round {s} {free} {used} pdt i v small h lo hi al = elim (Bool-cases (is_mounted pdt i s)) [
  | inl e ↦ rw e (s, free, used, refl, Grows-refl pdt v small, e, omega arith)
  | inr e ↦ rw e (mount_fresh pdt i v small h lo hi al)
]

-- For a fault at an address of the stack, in an address space whose second directory entry is not a
-- page of 4 MB, with a page-aligned lowest page `i` not above 8 MB that is at most `n` pages above
-- the address, with more fuel than that and a supply of two frames for each page, the loop of the
-- page fault handler returns without running out of fuel or frames. Then the space is well formed,
-- what was mounted still is, every address from the new lowest page up to `i` is mounted, the
-- new lowest page is the page of the address, or `i` if the address was not below it, and at most
-- two frames were taken for each page in between.
pub grow_stack-Grown :
    (fuel n : ℕ) (s : Frames) (free used : List ℕ) (pdt cr2 i : ℕ)
    → IsSpace s free used pdt
    → IsSmall s.ram pdt 1
    → 2 * n ≤ supply s free
    → n < fuel
    → 0x400000 ≤ cr2
    → i ≤ 0x800000
    → i % 0x1000 ≡ 0
    → i ≤ cr2 + n * 0x1000
    → (low : ℕ) × (s' : Frames) × (free' : List ℕ) × (used' : List ℕ) × (grow_stack fuel pdt cr2 i i
          s
        ≡ ok (some (low, s')))
      × Grown s free used pdt cr2 i low s' free' used'
unfolding grow_stack
grow_stack-Grown zero n s free used pdt cr2 i v small h hf lo hi al room = elim hf [ ]
grow_stack-Grown (suc fuel) n s free used pdt cr2 i v small h hf lo hi al room =
    elim (Bool-cases (ltb cr2 i)) [
      | inr e ↦
          rw (e, grow_stack)
            (
              i,
              s,
              free,
              used,
              refl,
              record {
                grows = Grows-refl pdt v small;
                below = omega arith;
                cost = omega arith;
                reached = ground arith;
                near = inl refl;
                aligned = al;
                mounted = λ a p q. absurd (omega arith);
              },
            )
      | inl e ↦
          let i' = i - 0x1000 in
          let above : cr2 < i = ground arith in
          let (s1, free1, used1, eq, g, m, cost) =
            round pdt i' v small (omega arith) (omega arith) (omega arith) (omega arith) in
          let (low, s2, free2, used2, eq2, x) =
            grow_stack-Grown fuel (n - 1) s1 free1 used1 pdt cr2 i' g.space g.small
              (omega (arith, cost)) (omega arith) lo (omega arith) (omega arith) (omega arith) in
          rw (e, eq, grow_stack)
            (
              low,
              s2,
              free2,
              used2,
              eq2,
              record {
                grows = Grows-trans pdt g x.grows;
                below = omega (arith, x.below);
                cost = omega (arith, x.cost, x.below, cost);
                reached = x.reached;
                near = elim x.near [ inl q ↦ inr (omega arith) | inr q ↦ inr q ];
                aligned = x.aligned;
                mounted = λ a p q. elim (dec_lt a i') [
                  | yes below ↦ x.mounted a p below
                  | no over ↦
                      x.grows.keeps a (omega arith) (is_mounted-page pdt a i' s1 (omega arith) ∙ m)
                ];
              },
            )
    ]
