-- ===== src/Launchers/Tests.antt =====
-- Rounds of the launchers on an empty screen and on one with an attacker.
use patriots_rtes.Launchers.Samples.{
  world, world-HasValidCells, requested-Represents, ask, draws, after, after-Launched,
}
use patriots_rtes.Prelude.{
  ℕ, ◌≡◌, ◌⊎◌, refl, ◌==◌, if◌then◌else◌, ◌&&◌, false, ℤ, pos, negsuc, err, some, [], ◌∷◌, arith,
  out_of_bounds, ◌≤◌, length,
}
use patriots_rtes.Config.{attacker_color}
use patriots_rtes.Platform.{counting, fixed}
use patriots_rtes.World.{World, attacker, defender, atk_missile}
use patriots_rtes.Fifo.{init_queue}
use patriots_rtes.Collision.{write_cell}
use patriots_rtes.Collision.Valid.{set-HasValidCells}
use patriots_rtes.Lifecycle.{init_atk_missile, init_empty_missile, set_random_start, frand}
use patriots_rtes.Movement.{atk_thread}
use patriots_rtes.Launchers.{
  atk_launcher_round, def_launcher_round, atk_launcher, def_launcher, set_queue,
}
use patriots_rtes.Launchers.Rounds.{woken, Launched, atk_launcher_round-Launched}
use patriots_rtes.Launchers.Lives.{launched-outside}
use patriots_rtes.Fifo.Refinement.{Represents, init_queue-Represents}
use patriots_rtes.Tasks.{launch_atk_thread, launch_def_thread}
use patriots_rtes.Launchers.Loops.{SetAfter, Launches, atk_launcher-Launches}
use patriots_rtes.Launchers.DefLoop.{def_launcher-Launches}
use patriots_rtes.Launchers.Targets.{Keeps, Assigned, def_launcher_round-Assigned}

atk_launcher_round-Launched_example :
    Launched fixed
      (woken fixed ask world)
      (1 ∷ 2 ∷ 3 ∷ [])
      []
      0
      (atk_launcher_round fixed ask (draws 500) (pos 7) world)
unfolding frand init_queue
atk_launcher_round-Launched_example =
    atk_launcher_round-Launched fixed ask (draws 500) (pos 7) world (1 ∷ 2 ∷ 3 ∷ []) [] 0 refl
      requested-Represents (refl, refl) (ground arith)

launched-outside_example :
    atk_thread fixed (λ i. false) (λ i w. w) (λ w. w) 0 500 (after 1000) ≡ some (err out_of_bounds)
unfolding after-Launched init_atk_missile set_random_start init_empty_missile frand
launched-outside_example =
    launched-outside fixed ask (draws 1000) (pos 7) world (1 ∷ 2 ∷ 3 ∷ []) [] 0 (λ i. false)
      (λ i w. w) (λ w. w) (after-Launched 1000 640 refl (omega arith)) 499 refl

-- The screen with an attacker at (300, 100).
abbrev sighted : World ℤ ℕ
sighted = write_cell 300 100 (record { type = atk_missile; value = pos 2; target = negsuc 0 }) world

abbrev screen : ℕ → ℕ → ℕ
screen x y = if x == 300 && y == 100 then attacker_color else 0

def_launcher_round-Assigned_example :
    Keeps fixed screen 1 sighted (def_launcher_round fixed screen (λ w. w) (pos 8) (pos 1) sighted)
    ⊎ Assigned fixed screen 1 sighted
        (def_launcher_round fixed screen (λ w. w) (pos 8) (pos 1) sighted)
def_launcher_round-Assigned_example =
    def_launcher_round-Assigned fixed screen 1 sighted (λ w. w) (pos 8) (omega arith)
      (set-HasValidCells world 300 100
        (record { type = atk_missile; value = pos 2; target = negsuc 0 }) (2, refl, omega arith)
        world-HasValidCells)
      (ground arith)

-- The queue of all indices.
all_free : Represents {S = ℕ} (init_queue (λ i. pos 9)) (0 ∷ 1 ∷ 2 ∷ 3 ∷ []) []
all_free = init_queue-Represents (λ i. pos 9)

set_at_two : SetAfter (λ j. j == 2) 0 2
set_at_two = record { not_before = λ j lo hi. ground (arith, lo, hi); set = refl }

-- Two attackers are requested, one in each round before the flag is set.
atk_launcher-Launches_example :
    (l : Launches attacker launch_atk_thread [] (
      atk_launcher fixed
        (λ j. j == 2)
        (λ j. ask)
        (λ j w. w)
        (λ j. draws 500)
        (λ j. pos 7)
        5
        0
        []
        world))
    × (length l.launched ≡ 2)
atk_launcher-Launches_example =
    atk_launcher-Launches fixed (λ j. j == 2) (λ j. ask) (λ j w. w) (λ j. draws 500) (λ j. pos 7)
      (λ j v sound. (sound.cells, ((1 ∷ 2 ∷ 3 ∷ []), 0, [], requested-Represents)))
      (λ j v sound. sound) (λ j. omega arith) 2 5 0 [] world set_at_two (omega arith)
      (record {
        cells = world-HasValidCells;
        queue = record { free = 0 ∷ 1 ∷ 2 ∷ 3 ∷ []; used = []; lists = all_free };
      })

-- All indices of the defenders are free again.
abbrev refill : World ℤ ℕ → World ℤ ℕ
refill = set_queue fixed defender (init_queue (λ i. pos 9))

def_launcher-Launches_example :
    (l : Launches defender launch_def_thread [] (
      def_launcher fixed
        (λ j. j == 2)
        (λ j. screen)
        refill
        (λ j. refill)
        (λ j w. w)
        (λ j. pos 7)
        5
        sighted))
    × (length l.launched ≤ 3)
def_launcher-Launches_example =
    def_launcher-Launches fixed (λ j. j == 2) (λ j. screen) refill (λ j. refill) (λ j w. w)
      (λ j. pos 7) 2 5 sighted (λ v sound. (sound.cells, (1 ∷ 2 ∷ 3 ∷ [], 0, [], all_free)))
      (λ j v sound. (sound.cells, (1 ∷ 2 ∷ 3 ∷ [], 0, [], all_free))) (λ j v sound. sound)
      (λ j. omega arith) set_at_two (omega arith)
      (record {
        cells =
            set-HasValidCells world 300 100
              (record { type = atk_missile; value = pos 2; target = negsuc 0 })
              (2, refl, omega arith) world-HasValidCells;
        queue = record { free = 0 ∷ 1 ∷ 2 ∷ 3 ∷ []; used = []; lists = all_free };
      })
