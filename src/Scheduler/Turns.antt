-- ===== src/Scheduler/Turns.antt =====
-- Every process has its turn.
use ose.Prelude.{
  ℕ, zero, suc, ◌<◌, ◌≡◌, ◌∙◌, ap, arith, List, [], ◌∷◌, ◌++◌, append_assoc, append-nil, Mem, All,
  length, length-append,
}
use mathlib.Core.Path.{subst}
use ose.Scheduler.{Scheduler, scheduler_next_process}
use ose.Scheduler.Ring.{Links, IsScheduler, Distinct-append_one}

Links-append_one :
    (next prev : Mem) (a c b : ℕ) (xs : List ℕ)
    → Links next prev a xs c
    → next c ≡ b
    → prev b ≡ c
    → Links next prev a (xs ++ c ∷ []) b
Links-append_one next prev a c b [] h p q = (h.0, h.1, (p, q))
Links-append_one next prev a c b (x ∷ xs) h p q =
    (h.0, h.1, Links-append_one next prev x c b xs h.2 p q)

All-snoc : (P : ℕ → Type 0) (n : ℕ) (xs : List ℕ) → All P xs → P n → All P (xs ++ n ∷ [])
All-snoc P n [] h p = (p, tt)
All-snoc P n (x ∷ xs) (h, hs) p = (h, All-snoc P n xs hs p)

-- The switch to the next process takes the first process of the ring to its end.
next_process-IsScheduler :
    (s : Scheduler) (c : ℕ) (rest : List ℕ)
    → IsScheduler s (c ∷ rest)
    → IsScheduler (scheduler_next_process s).1 (rest ++ c ∷ [])
unfolding scheduler_next_process
next_process-IsScheduler s c [] i = record {
  linked = (ap s.next i.linked.0 ∙ i.linked.1.0, i.linked.1);
  distinct = i.distinct;
  nodes = i.nodes;
  none_free = i.none_free;
  array = i.array;
  not_null = i.not_null;
  small = i.small;
}
next_process-IsScheduler s c (x ∷ xs) i =
    let (current, (forth, back, linked)) = i.linked in
    record {
      linked =
          (ap s.next current ∙ forth, Links-append_one s.next s.prev x c x xs linked forth back);
      distinct = Distinct-append_one c (x ∷ xs) i.distinct.1 i.distinct.0;
      nodes = All-snoc (λ a. (0 < a) × (a < s.front)) c (x ∷ xs) i.nodes.1 i.nodes.0;
      none_free = i.none_free;
      array = omega (arith, i.array, length-append (x ∷ xs) (c ∷ []));
      not_null = i.not_null;
      small = i.small;
    }

-- `n` switches.
unfoldable pub turns : ℕ → Scheduler → Scheduler
turns zero s = s
turns (suc n) s = turns n (scheduler_next_process s).1

-- From a ring that begins with `xs`, as many switches as `xs` has processes make the process after
-- them current, and the ring goes on with them; in particular, as many switches as there are
-- processes give each its turn and come back to the first.
pub turns-IsScheduler :
    (xs ys : List ℕ) (s : Scheduler)
    → IsScheduler s (xs ++ ys)
    → IsScheduler (turns (length xs) s) (ys ++ xs)
unfolding turns
turns-IsScheduler [] ys s i = rw (append-nil ys) i
turns-IsScheduler (x ∷ xs) ys s i =
    subst (IsScheduler (turns (length xs) (scheduler_next_process s).1))
      (append_assoc ys (x ∷ []) xs)
      (turns-IsScheduler xs (ys ++ x ∷ []) (scheduler_next_process s).1 (
        subst (IsScheduler (scheduler_next_process s).1) (append_assoc xs ys (x ∷ []))
          (next_process-IsScheduler s x (xs ++ ys) i)))
