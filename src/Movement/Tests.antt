-- ===== src/Movement/Tests.antt =====
-- An attacker near the bottom of the window and a defender at its start, with nobody else at work.
use patriots_rtes.Movement.Faults.{LostFault, def_thread-lost}
use patriots_rtes.Tracking.{not_found}
use patriots_rtes.Prelude.{ℕ, ◌==◌, refl, false, ℤ, pos, negsuc, [], ◌∷◌, arith, ◌+◌}
use patriots_rtes.Platform.{counting, fixed}
use patriots_rtes.World.{
  Missile, MissileGestor, FifoQueueGestor, World, attacker, defender, goal, MissileType,
}
use patriots_rtes.Fifo.{init_queue}
use patriots_rtes.Fifo.Refinement.{Represents, init_queue-Represents, take_free-Represents}
use patriots_rtes.Grid.{init_env}
use patriots_rtes.Collision.Valid.{HasValidCells, init_env-HasValidCells}
use patriots_rtes.Lifecycle.{get_deltatime, move_missile, set_missile_trajectory}
use patriots_rtes.Trajectory.{calc_speed}
use patriots_rtes.Trajectory.Sampling.{Reading, get_start_x_position}
use patriots_rtes.Movement.{atk_thread, def_thread, then_clear, task_missile_movement}
use patriots_rtes.Movement.Round.{moves}
use patriots_rtes.Movement.Ending.{Owned, Running, idle-Keeps}
use patriots_rtes.Movement.Threads.{
  Returned, atk_thread-Returned, def_thread-Returned, thread-Stops,
}

abbrev missile : MissileType → Missile ℤ ℕ
missile kind = record {
  x = pos 300;
  y = pos 470;
  partial_x = pos 300_000;
  partial_y = pos 470_000;
  angle = pos 90_000;
  speed = pos 100_000;
  index = pos 0;
  deleted = false;
  assigned_target = negsuc 0;
  mutex = 1;
  missile_type = kind;
}

-- The queue with index 0 taken.
abbrev taken : FifoQueueGestor ℕ
taken = let g = init_queue (λ i. pos 9) in record g { free_index = g.next 0 }

taken-Represents : Represents taken (1 ∷ 2 ∷ 3 ∷ []) []
taken-Represents =
    (take_free-Represents (init_queue (λ i. pos 9)) (1 ∷ 2 ∷ 3 ∷ []) [] 0
      (init_queue-Represents (λ i. pos 9))).1

abbrev gestor : MissileType → MissileGestor ℤ ℕ
gestor kind = record { queue = λ k. missile kind; gestor = taken }

abbrev world : World ℤ ℕ
world = record {
  env = init_env (record {
    cell = λ x y. record { type = goal; value = pos 0; target = pos 0 };
    def_points = 0;
    atk_points = 0;
    count = 0;
    prio_sem = λ p. record { sem = 0; count = 0; blk = 0 };
    mutex = 0;
  });
  atk_gestor = gestor attacker;
  def_gestor = gestor defender;
}

world-HasValidCells : HasValidCells world
world-HasValidCells = init_env-HasValidCells world _

owned : (kind : MissileType) → Owned kind 0 world
owned attacker = record {
  free = 1 ∷ 2 ∷ 3 ∷ [];
  used = [];
  lists = taken-Represents;
  mine = omega arith;
}
owned defender = record {
  free = 1 ∷ 2 ∷ 3 ∷ [];
  used = [];
  lists = taken-Represents;
  mine = omega arith;
}

running : Running fixed attacker 0 (get_deltatime fixed (pos 10)) world
running = record {
  moving = record {
    index = (0, refl, omega arith);
    window = record {
      x = 300;
      y = 470;
      at_x = refl;
      at_y = refl;
      in_x = omega arith;
      in_y = omega arith;
    };
    cells = world-HasValidCells;
  };
  owned = owned attacker;
}

atk_thread-Returned_example :
    Returned fixed attacker 0 (atk_thread fixed (λ i. false) (λ i w. w) (λ w. w) 0 12 world)
unfolding moves move_missile get_deltatime
atk_thread-Returned_example =
    atk_thread-Returned fixed 0 (λ i. false) (λ i w. w) (λ w. w) 10 12 world
      (λ j. idle-Keeps attacker 0) (idle-Keeps attacker 0) running refl refl (omega arith)

-- The flag is set when round 3 ends, far from the end of the flight.
thread-Stops_example : Returned fixed attacker 0 (
    then_clear fixed attacker 0
      (λ w. w)
      (task_missile_movement fixed (λ i. i == 3) (λ i w. w) attacker 0 (pos 10) 4 world))
thread-Stops_example =
    thread-Stops fixed attacker 0 (pos 10) (λ i. i == 3) (λ i w. w) (λ w. w) 3 4 world
      (λ j. idle-Keeps attacker 0) (idle-Keeps attacker 0) running refl refl (omega arith)

-- The target stands still at x = 40.
abbrev seen : ℕ → Reading
seen i = record {
  place = record { x = pos 40; y = pos 50 };
  time = record { tv_sec = pos i; tv_nsec = pos 0 };
}

def_thread-Returned_example : Returned fixed defender 0 (
    def_thread fixed
      (λ i. false)
      (λ i w. w)
      (λ w. w)
      (λ w. w)
      (seen 0)
      (λ i. seen (i + 1))
      0
      200
      world)
unfolding moves move_missile set_missile_trajectory get_deltatime get_start_x_position calc_speed
def_thread-Returned_example =
    def_thread-Returned fixed 0 (λ i. false) (λ i w. w) (λ w. w) (λ w. w) 196 200 (seen 0)
      (λ i. seen (i + 1)) 40 world (λ j. idle-Keeps defender 0) (idle-Keeps defender 0)
      (idle-Keeps defender 0) world-HasValidCells (owned defender) refl refl (omega arith) refl
      (omega arith)

-- The attacker one place right of the window.
abbrev at_border : World ℤ ℕ
at_border = record world {
  atk_gestor = record (gestor attacker) { queue = λ k. record (missile attacker) { x = pos 640 } };
}

-- The target is never seen.
abbrev unseen : ℕ → Reading
unseen i = record { place = not_found; time = record { tv_sec = pos i; tv_nsec = pos 0 } }

def_thread-lost_example : LostFault (get_start_x_position fixed (unseen 0) (λ i. unseen (i + 1))) (
    def_thread fixed
      (λ i. false)
      (λ i w. w)
      (λ w. w)
      (λ w. w)
      (unseen 0)
      (λ i. unseen (i + 1))
      0
      1
      world)
def_thread-lost_example =
    def_thread-lost fixed (λ i. false) (λ i w. w) (λ w. w) (λ w. w) (unseen 0) (λ i. unseen (i + 1))
      0 0 world refl (λ i. refl) refl
