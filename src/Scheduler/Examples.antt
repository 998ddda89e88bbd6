-- ===== src/Scheduler/Examples.antt =====
-- A scheduler with two processes.
use ose.Prelude.{ℕ, ◌≡◌, refl, arith, List, [], ◌∷◌, ◌++◌, if◌then◌else◌, ◌==◌, ◌+◌, ◌-◌}
use ose.Prelude.Outcome.{ok}
use ose.Scheduler.{Scheduler, schedule_process}
use ose.Scheduler.Ring.{IsScheduler, schedule_process-IsScheduler}
use ose.Scheduler.Turns.{turns, turns-IsScheduler}
use ose.Scheduler.Capacity.{schedule_process-overrun}

abbrev pair : Scheduler
pair = record {
  start = 0x200000;
  front = 0x2000D8;
  end = 0x200620;
  free_list = 0;
  current_process = 0x200000;
  next = λ a. if a == 0x200000 then 0x20006C else 0x200000;
  prev = λ a. if a == 0x200000 then 0x20006C else 0x200000;
  pid = λ a. if a == 0x200000 then 0 else 1;
  first_word = λ a. 0;
}

abbrev pair_ring : List ℕ
pair_ring = 0x200000 ∷ 0x20006C ∷ []

pair-IsScheduler : IsScheduler pair pair_ring
pair-IsScheduler = record {
  linked = (refl, (refl, refl, (refl, refl)));
  distinct = (refl, (refl, tt));
  nodes = ((omega arith, omega arith), ((omega arith, omega arith), tt));
  none_free = refl;
  array = refl;
  not_null = omega arith;
  small = omega arith;
}

schedule_process-IsScheduler_example :
    (node : ℕ) × (s : Scheduler) × (schedule_process pair ≡ ok (node, s))
    × IsScheduler s (pair_ring ++ node ∷ [])
    × (s.pid node ≡ 2)
schedule_process-IsScheduler_example =
    schedule_process-IsScheduler pair pair_ring pair-IsScheduler (omega arith)

turns-IsScheduler_example : IsScheduler (turns 1 pair) (0x20006C ∷ 0x200000 ∷ [])
turns-IsScheduler_example = turns-IsScheduler (0x200000 ∷ []) (0x20006C ∷ []) pair pair-IsScheduler

abbrev fourteen : Scheduler
fourteen = record {
  start = 0x200000;
  front = 0x2005e8;
  end = 0x200620;
  free_list = 0;
  current_process = 0x200000;
  next = λ a. if a == 0x20057c then 0x200000 else a + 108;
  prev = λ a. if a == 0x200000 then 0x20057c else a - 108;
  pid = λ a. 0;
  first_word = λ a. 0;
}

abbrev fourteen_ring : List ℕ
fourteen_ring =
    0x200000 ∷ 0x20006c ∷ 0x2000d8 ∷ 0x200144 ∷ 0x2001b0 ∷ 0x20021c ∷ 0x200288 ∷ 0x2002f4 ∷ 0x200360
    ∷ 0x2003cc ∷ 0x200438 ∷ 0x2004a4 ∷ 0x200510 ∷ 0x20057c ∷ []

fourteen-IsScheduler : IsScheduler fourteen fourteen_ring
fourteen-IsScheduler = record {
  linked = (
    refl,
    (
      refl,
      refl,
      (
        refl,
        refl,
        (
          refl,
          refl,
          (
            refl,
            refl,
            (
              refl,
              refl,
              (
                refl,
                refl,
                (
                  refl,
                  refl,
                  (
                    refl,
                    refl,
                    (
                      refl,
                      refl,
                      (refl, refl, (refl, refl, (refl, refl, (refl, refl, (refl, refl))))),
                    ),
                  ),
                ),
              ),
            ),
          ),
        ),
      ),
    ),
  );
  distinct = (
    refl,
    (
      refl,
      (
        refl,
        (refl, (refl, (refl, (refl, (refl, (refl, (refl, (refl, (refl, (refl, (refl, tt))))))))))),
      ),
    ),
  );
  nodes = (
    (omega arith, omega arith),
    (
      (omega arith, omega arith),
      (
        (omega arith, omega arith),
        (
          (omega arith, omega arith),
          (
            (omega arith, omega arith),
            (
              (omega arith, omega arith),
              (
                (omega arith, omega arith),
                (
                  (omega arith, omega arith),
                  (
                    (omega arith, omega arith),
                    (
                      (omega arith, omega arith),
                      (
                        (omega arith, omega arith),
                        (
                          (omega arith, omega arith),
                          ((omega arith, omega arith), ((omega arith, omega arith), tt)),
                        ),
                      ),
                    ),
                  ),
                ),
              ),
            ),
          ),
        ),
      ),
    ),
  );
  none_free = refl;
  array = refl;
  not_null = omega arith;
  small = omega arith;
}

schedule_process-overrun_example :
    (node : ℕ) × (s : Scheduler) × (schedule_process fourteen ≡ ok (node, s))
    × (node + 108 ≡ 0x200620 + 52)
schedule_process-overrun_example =
    schedule_process-overrun fourteen fourteen_ring fourteen-IsScheduler refl refl
