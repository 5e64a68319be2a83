-- ===== src/Access/Tests.antt =====
-- Runs of the access protocol, with semaphores that count.
use patriots_rtes.Prelude.{
  ◌⊎◌, ℕ, ◌≤◌, ◌<◌, ◌≡◌, refl, ◌==◌, if◌then◌else◌, some, arith, negsuc, ◌≢◌, ◌+◌, true, false,
  List, [], ◌∷◌,
}
use patriots_rtes.Config.{env_prios}
use patriots_rtes.Platform.{counting}
use patriots_rtes.World.{empty, Env}
use patriots_rtes.Access.{access_lock, access_test, access_resume, release_env}
use patriots_rtes.Access.Release.{first_blocked, wake_order, hand_over, release_env_lem}
use patriots_rtes.Access.Protocol.{
  Pc, blocked, woken, ask, test, wake, resume, give_back, leave, System, IsFresh, Reach, start,
  later, pick,
}
use patriots_rtes.Access.Safety.{mutual_exclusion, counters_exclusive, counted_before_decrement}
use patriots_rtes.Access.Invariant.{uses_env}
use patriots_rtes.Access.Sessions.{
  Action, run_session, run_history, board_of, Traced, begins, calls, acts, leaves,
}
use patriots_rtes.Access.Serial.{sessions_serial}
use patriots_rtes.Access.Progress.{wake_fair, turns_before, Advance, no_deadlock}

abbrev fresh : Env ℕ
fresh = record {
  cell = λ x y. record { type = empty; value = negsuc 0; target = negsuc 0 };
  def_points = 0;
  atk_points = 0;
  count = 0;
  prio_sem = λ p. record { sem = 0; count = 0; blk = 0 };
  mutex = 1;
}

fresh-IsFresh : IsFresh fresh
fresh-IsFresh = record {
  mutex_free = refl;
  nobody_in = refl;
  none_blocked = λ p lt. refl;
  none_posted = λ p lt. refl;
}

-- A state with a proof that two threads can reach it.
record Run : Type 0 where
  last : System ℕ
  reach : Reach 2 last

-- Thread 0 has asked with the lowest priority and stands in its test.
abbrev asked : Run
asked = record {
  last = _;
  reach = later (start fresh-IsFresh) (pick 0 (omega arith) (ask {prio = 2} (omega arith) refl));
}

-- Thread 0 is inside.
one_in : Run
unfolding access_test access_lock
one_in = record { last = _; reach = later asked.reach (pick 0 (omega arith) test) }

-- Thread 1 is blocked with the highest priority.
one_blocked : Run
unfolding one_in
one_blocked = record {
  last = _;
  reach =
      later (later one_in.reach (pick 1 (omega arith) (ask {prio = 0} (omega arith) refl)))
        (pick 1 (omega arith) test);
}

-- Thread 0 has left, and thread 1 has been woken with the mutex.
handed_over : Run
unfolding one_blocked release_env
handed_over = record {
  last = _;
  reach =
      later
        (later (later one_blocked.reach (pick 0 (omega arith) (give_back refl)))
          (pick 0 (omega arith) (leave refl)))
        (pick 1 (omega arith) (wake refl));
}

blocked_state : (one_blocked.last.pc 1 ≡ blocked 0) × (one_blocked.last.env.count ≡ 1)
unfolding one_blocked
blocked_state = (refl, refl)

woken_state : (handed_over.last.pc 1 ≡ woken 0) × (handed_over.last.env.mutex ≡ 0)
unfolding handed_over
woken_state = (refl, refl)

mutual_exclusion_example : ◌≡◌ {A = ℕ} 0 0
unfolding one_blocked
mutual_exclusion_example =
    mutual_exclusion one_blocked.reach 0 0 (omega arith) (omega arith) refl refl

counters_exclusive_example : ◌≡◌ {A = ℕ} 1 1
unfolding handed_over
counters_exclusive_example =
    counters_exclusive handed_over.reach 1 1 (omega arith) (omega arith) refl refl

counted_before_decrement_example :
    (handed_over.last.pc 1 ≡ woken 0 → 1 ≤ (handed_over.last.env.prio_sem 0).blk)
    × (handed_over.last.pc 1 ≡ Pc.leaving 0 → 1 ≤ handed_over.last.env.count)
counted_before_decrement_example = counted_before_decrement handed_over.reach 1 0 (omega arith)

no_deadlock_example : (j : ℕ) × (j < 2) × Advance one_blocked.last.env (one_blocked.last.pc j)
unfolding one_blocked
no_deadlock_example = no_deadlock one_blocked.reach 1 (omega arith) (λ e. cc)

-- The middle priority releases while the lowest and the highest wait.
abbrev two_waiting : Env ℕ
two_waiting = record fresh {
  prio_sem = λ p. record { sem = 0; count = 0; blk = if p == 1 then 0 else 1 };
  count = 1;
  mutex = 0;
}

wake_fair_example :
    (r : ℕ) × (release_env 1 two_waiting ≡ some (hand_over two_waiting (some r)))
    × (r < env_prios)
    × ((two_waiting.prio_sem r).blk ≢ 0)
    × ((r ≡ 0) ⊎ (turns_before r 0 < turns_before 1 0) × (turns_before 1 0 ≤ 2))
wake_fair_example = wake_fair two_waiting 1 0 (omega arith) (omega arith) (omega arith)

release_env_lem_example :
    release_env 1 two_waiting
    ≡ some (hand_over two_waiting (first_blocked two_waiting.prio_sem (wake_order 1)))
release_env_lem_example = release_env_lem 1 two_waiting (omega arith)

-- A traced run of two threads.
record Sessions : Type 0 where
  last : System ℕ
  log : List (List Action)
  did : ℕ → List Action
  traced : Traced 2 (board_of fresh) last log did

abbrev point : Action
point b = record b { def_points = b.def_points + 1 }

-- Thread 0 has scored twice and left, and thread 1, which was blocked then, has scored once.
scored : Sessions
unfolding access_test access_lock access_resume release_env
scored = record {
  last = _;
  log = _;
  did = _;
  traced =
      acts 1 0 point
        (calls 1
          (calls 1
            (leaves 0 2
              (calls 0
                (acts 0 2 point
                  (calls 1
                    (calls 1
                      (acts 0 2 point
                        (calls 0
                          (calls 0 (begins fresh-IsFresh refl) (omega arith)
                            (ask {prio = 2} (omega arith) refl) tt)
                          (omega arith) test tt)
                        (omega arith) refl)
                      (omega arith) (ask {prio = 0} (omega arith) refl) tt)
                    (omega arith) test tt)
                  (omega arith) refl)
                (omega arith) (give_back refl) tt)
              (omega arith) refl refl)
            (omega arith) (wake refl) tt)
          (omega arith) resume tt)
        (omega arith) refl;
}

scored_state :
    (scored.last.env.def_points ≡ 3)
    × (scored.log ≡ (point ∷ point ∷ []) ∷ [])
    × (scored.did 1 ≡ point ∷ [])
unfolding scored
scored_state = (refl, refl, refl)

sessions_serial_example :
    ((i : ℕ)
      → i < 2
      → uses_env (scored.last.pc i) ≡ true
      → (board_of scored.last.env
          ≡ run_session (scored.did i) (run_history scored.log (board_of fresh)))
        × ((j : ℕ) → j < 2 → i ≢ j → scored.did j ≡ []))
    × (((i : ℕ) → i < 2 → uses_env (scored.last.pc i) ≡ false)
        → board_of scored.last.env ≡ run_history scored.log (board_of fresh))
sessions_serial_example = sessions_serial 2 (board_of fresh) scored.traced
