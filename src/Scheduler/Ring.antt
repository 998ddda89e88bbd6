-- ===== src/Scheduler/Ring.antt =====
-- The list of processes is a ring, and a new process joins it behind all others.
use ose.Prelude.{
  ℕ, ◌+◌, ◌-◌, ◌*◌, ◌/◌, ◌≤◌, ◌<◌, ◌≡◌, ◌≢◌, refl, ◌∙◌, arith, true, false, ◌==◌, leb,
  if◌then◌else◌, List, [], ◌∷◌, ◌++◌, Mem, write, All, has, Distinct, length, length-append, u32,
}
use ose.Prelude.Outcome.{ok}
use ose.Scheduler.{Scheduler, node_size, alloc_process, link, schedule_process}

-- From `a` by `next` over `xs` to `b`, and back by `prev`.
abbrev pub Links : (next prev : Mem) → ℕ → List ℕ → ℕ → Type 0
Links next prev a [] b = (next a ≡ b) × (prev b ≡ a)
Links next prev a (x ∷ xs) b = (next a ≡ x) × (prev x ≡ a) × Links next prev x xs b

-- The ring from the current process on.
abbrev pub Ring : Scheduler → List ℕ → Type 0
Ring s [] = s.current_process ≡ 0
Ring s (c ∷ rest) = (s.current_process ≡ c) × Links s.next s.prev c rest c

-- The ring holds every node of the array once, and no node was freed.
pub record IsScheduler (s : Scheduler) (ring : List ℕ) : Type 0 where
  pub linked : Ring s ring
  pub distinct : Distinct ring
  pub nodes : All (λ a. (0 < a) × (a < s.front)) ring
  pub none_free : s.free_list ≡ 0
  pub array : s.front ≡ s.start + length ring * node_size
  pub not_null : 0 < s.start
  pub small : s.end + node_size < 4294967296

All-mono :
    (f g : ℕ) (xs : List ℕ)
    → All (λ a. (0 < a) × (a < f)) xs
    → f ≤ g
    → All (λ a. (0 < a) × (a < g)) xs
All-mono f g [] h fg = tt
All-mono f g (x ∷ xs) (h, hs) fg = ((h.0, omega (arith, h)), All-mono f g xs hs fg)

-- Process numbers are no part of the ring.
Ring-same :
    (s : Scheduler) (pid : Mem) (ring : List ℕ) → Ring s ring → Ring (record s { pid = pid }) ring
Ring-same s pid [] h = h
Ring-same s pid (c ∷ rest) h = h

has-edge : (f : ℕ) (xs : List ℕ) → All (λ a. (0 < a) × (a < f)) xs → has f xs ≡ false
has-edge f [] h = refl
has-edge f (x ∷ xs) (h, hs) = ground (arith, has-edge f xs hs)

-- The last of a segment.
abbrev pub last : ℕ → List ℕ → ℕ
last a [] = a
last a (x ∷ xs) = last x xs

Links-last : (next prev : Mem) (a b : ℕ) (xs : List ℕ) → Links next prev a xs b → prev b ≡ last a xs
Links-last next prev a b [] h = h.1
Links-last next prev a b (x ∷ xs) h = Links-last next prev x b xs h.2

has-last : (a : ℕ) (xs : List ℕ) (y : ℕ) → has y (a ∷ xs) ≡ false → y ≢ last a xs
has-last a [] y h = ground arith
has-last a (x ∷ xs) y h = has-last x xs y (ground arith)

-- The insertion of a node `n` between the last node and `b`, in any order of the stores.
Links-insert :
    (next prev next' prev' : Mem) (a b n : ℕ) (xs : List ℕ)
    → ((y : ℕ) → next' y ≡ (if y == last a xs then n else if y == n then b else next y))
    → ((y : ℕ) → prev' y ≡ (if y == b then n else if y == n then last a xs else prev y))
    → Links next prev a xs b
    → has n (a ∷ xs) ≡ false
    → n ≢ b
    → has b xs ≡ false
    → Distinct (a ∷ xs)
    → Links next' prev' a (xs ++ n ∷ []) b
Links-insert next prev next' prev' a b n [] hn hp h fresh nb bx d =
    (ground (arith, hn a), ground (arith, hp n), (ground (arith, hn n), ground (arith, hp b)))
Links-insert next prev next' prev' a b n (x ∷ xs) hn hp h fresh nb bx d = (
  ground (arith, hn a, has-last x xs a d.0),
  ground (arith, hp x),
  Links-insert next prev next' prev' x b n xs hn hp h.2 (ground arith) nb (ground arith) d.1,
)

pub All-append_one :
    (f g n : ℕ) (xs : List ℕ)
    → All (λ a. (0 < a) × (a < f)) xs
    → f ≤ g
    → 0 < n
    → n < g
    → All (λ a. (0 < a) × (a < g)) (xs ++ n ∷ [])
All-append_one f g n [] h fg p q = ((p, q), tt)
All-append_one f g n (x ∷ xs) (h, hs) fg p q =
    ((h.0, omega (arith, h)), All-append_one f g n xs hs fg p q)

pub has-append_one :
    (a n : ℕ) (xs : List ℕ) → has a xs ≡ false → a ≢ n → has a (xs ++ n ∷ []) ≡ false
has-append_one a n [] h p = ground arith
has-append_one a n (x ∷ xs) h p = ground (arith, has-append_one a n xs)

pub Distinct-append_one :
    (n : ℕ) (xs : List ℕ) → Distinct xs → has n xs ≡ false → Distinct (xs ++ n ∷ [])
Distinct-append_one n [] d h = (refl, tt)
Distinct-append_one n (x ∷ xs) (p, d) h =
    (has-append_one x n xs p (ground arith), Distinct-append_one n xs d (ground arith))

link-Ring :
    (n : ℕ) (s : Scheduler) (ring : List ℕ)
    → Ring s ring
    → Distinct ring
    → All (λ a. (0 < a) × (a < s.front)) ring
    → has n ring ≡ false
    → Ring (link n s) (ring ++ n ∷ [])
unfolding link
link-Ring n s [] h d p f = rw h (refl, (ground arith, ground arith))
link-Ring n s (c ∷ rest) (e, h) d p f =
    let before = Links-last s.next s.prev c c rest h in
    let used : (s.current_process == 0) ≡ false = ground arith in
    rw (used, e)
      (
        refl,
        Links-insert s.next s.prev (write (write s.next n c) (write s.prev n (s.prev c) c) n)
            (write (write s.prev n (s.prev c)) c n) c c n rest (λ y. ground (arith, before))
            (λ y. ground (arith, before)) h f (ground arith) d.0 d,
      )

-- The fields that `link` leaves.
link_fields :
    (n : ℕ) (s : Scheduler)
    → ((link n s).start ≡ s.start)
      × ((link n s).front ≡ s.front)
      × ((link n s).end ≡ s.end)
      × ((link n s).free_list ≡ s.free_list)
unfolding link
link_fields n s = ground arith

-- For a scheduler whose processes form a ring of all nodes handed out so far, with no node freed,
-- and with room left, `schedule_process` returns a node; the ring is then the old one with that
-- node behind its last, all its links in both directions included, and the process number of the
-- node is the number of processes that there were.
pub schedule_process-IsScheduler :
    (s : Scheduler) (ring : List ℕ)
    → IsScheduler s ring
    → s.front < s.end
    → (node : ℕ) × (s' : Scheduler) × (schedule_process s ≡ ok (node, s'))
      × IsScheduler s' (ring ++ node ∷ [])
      × (s'.pid node ≡ length ring)
unfolding schedule_process alloc_process
schedule_process-IsScheduler s ring i h =
    let n = s.front in
    let free : (s.free_list == 0) ≡ true = ground (arith, i.none_free) in
    let room : leb s.end n ≡ false = ground arith in
    let full : u32 (n + node_size) ≡ n + node_size = omega (arith, i.small) in
    let s1 = record s { front = n + node_size } in
    let s2 = link n s1 in
    let (e, e1, e2, e3) = link_fields n s1 in
    let fresh = has-edge n ring i.nodes in
    let grown = length-append ring (n ∷ []) in
    let linked =
      link-Ring n s1 ring i.linked i.distinct
        (All-mono n (n + node_size) ring i.nodes (omega arith)) fresh in
    let pid = (n - s2.start) / node_size in
    rw (free, room, full)
      (
        n,
        record s2 { pid = write s2.pid n pid },
        refl,
        record {
          linked = Ring-same s2 (write s2.pid n pid) (ring ++ n ∷ []) linked;
          distinct = Distinct-append_one n ring i.distinct fresh;
          nodes = rw e1 (
              All-append_one n (n + node_size) n ring i.nodes (omega arith)
                (omega (arith, i.array, i.not_null)) (omega arith));
          none_free = e3 ∙ i.none_free;
          array = omega (arith, e, e1, i.array, grown);
          not_null = omega (arith, e, i.not_null);
          small = omega (arith, e2, i.small);
        },
        ground (arith, e, i.array),
      )

-- The node handed out is the one at the front of the array.
pub schedule_process-node :
    (s : Scheduler) (ring : List ℕ)
    → IsScheduler s ring
    → s.front < s.end
    → (s' : Scheduler) × (schedule_process s ≡ ok (s.front, s'))
unfolding schedule_process alloc_process
schedule_process-node s ring i h =
    let n = s.front in
    let free : (s.free_list == 0) ≡ true = ground (arith, i.none_free) in
    let room : leb s.end n ≡ false = ground arith in
    let full : u32 (n + node_size) ≡ n + node_size = omega (arith, i.small) in
    let s2 = link n (record s { front = n + node_size }) in
    rw (free, room, full) (record s2 { pid = write s2.pid n ((n - s2.start) / node_size) }, refl)
