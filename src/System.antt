-- ===== src/System.antt =====
-- The threads at work together: what the others do while one missile flies. Each step is one of the
-- operations of src/launchers.c and src/gestor.c between two semaphore calls, in any order.
pub mod Lists
pub mod Others
pub mod Keeps
pub mod Runs
pub mod Lives
pub mod Whole
pub mod Phases
pub mod Queues
pub mod Moves
pub mod Safety
pub mod Places
pub mod Unmoved
pub mod FlightCells
pub mod Cells
pub mod Ghosts
mod Tests
use patriots_rtes.Prelude.{ℕ, ◌≡◌, ◌<◌, ◌≤ℤ◌, Bool, ℤ, pos, List, ◌∷◌, Result, ok}
use patriots_rtes.Platform.{Semaphore, Floating}
use patriots_rtes.World.{
  MissileType, attacker, defender, FifoQueueGestor, World, gestor_of, missile_at,
}
use patriots_rtes.Fifo.Refinement.{Represents}
use patriots_rtes.Collision.Valid.{HasValidCells}
use patriots_rtes.Tracking.{search_screen_for_target}
use patriots_rtes.Lifecycle.Rounds.{Moving}
use patriots_rtes.Movement.{task_round, clear_task}
use patriots_rtes.Movement.Ending.{Owned}
use patriots_rtes.Launchers.{Draws, set_queue, launch_atk_missile, launch_def_missile}
use patriots_rtes.Launchers.Starts.{Takes}
use patriots_rtes.Config.{max_missiles}
use patriots_rtes.Tasks.{TaskCall}
use patriots_rtes.Fifo.{
  granted, must_wait, get_next_index, request_def_index, request_def_index_woken,
}
use patriots_rtes.Launchers.Rounds.{Launched}
use patriots_rtes.Movement.Threads.{started}
use patriots_rtes.Main.{request}

-- Another missile than that of a kind with an index.
abbrev pub IsOther : MissileType → ℕ → MissileType → ℕ → Type 0
IsOther kind k kind' k' = kind' ≡ kind → k' ≡ k → ⊥

module _ {F D S : Type 0} (fl : Floating F D) ⦃s : Semaphore S⦄ where
  -- The steps that leave every index where it is: a launch is requested, a launcher waits for an index, or
  -- that of defenders searches a target.
  pub data Quiet : World F S → World F S → Type 0 where
    requests : {w w' : World F S} → request fl w ≡ ok w' → Quiet w w'
    waits :
        {w : World F S} {q : FifoQueueGestor S}
        → get_next_index w.atk_gestor.gestor ≡ ok (q, must_wait)
        → Quiet w (set_queue fl attacker q w)
    waits_for_def :
        {w : World F S} {q : FifoQueueGestor S}
        → request_def_index w.def_gestor.gestor ≡ ok (q, must_wait)
        → Quiet w (set_queue fl defender q w)
    searches :
        (getpixel : ℕ → ℕ → ℕ) (target : ℤ) {w w' : World F S} {c : Bool}
        → search_screen_for_target getpixel target w ≡ ok (w', c)
        → Quiet w w'

module _ {F D S : Type 0} (fl : Floating F D) ⦃s : Semaphore S⦄ (kind : MissileType) (k : ℕ) where
  -- A step of another thread than that of the missile `k` of a kind: another missile moves; another
  -- missile's thread gives its index back; a launcher takes an index, or launches another missile; another
  -- defender starts to fly; or a quiet step.
  pub data Step : World F S → World F S → Type 0 where
    moves :
        (kind' : MissileType) (k' : ℕ) (deltatime : F) {w w' : World F S} {c : Bool}
        → IsOther kind k kind' k'
        → Moving (missile_at kind' w k') w
        → task_round fl kind' k' deltatime w ≡ ok (w', c)
        → Step w w'
    ends :
        (kind' : MissileType) (k' : ℕ) {w w' : World F S}
        → IsOther kind k kind' k'
        → Owned kind' k' w
        → (missile_at kind' w k').index ≡ pos k'
        → clear_task fl kind' k' w ≡ ok w'
        → Step w w'
    quiet : {w w' : World F S} → Quiet fl w w' → Step w w'
    launches_atk :
        (draws : Draws F) (thread : ℤ) (k' : ℕ) {w w' : World F S} {call : TaskCall}
        → IsOther kind k attacker k'
        → k' < max_missiles
        → launch_atk_missile fl draws thread (pos k') w ≡ ok (w', call)
        → Step w w'
    takes :
        (kind' : MissileType) (k' : ℕ) {w : World F S} {q : FifoQueueGestor S}
        → Takes w kind' q k'
        → Step w (set_queue fl kind' q w)
    launches_def :
        (thread : ℤ) (k' : ℕ) {w w' : World F S} {call : TaskCall}
        → IsOther kind k defender k'
        → k' < max_missiles
        → launch_def_missile fl thread (pos k') w ≡ ok (w', call)
        → Step w w'
    starts :
        (k' : ℕ) (start_x : ℤ) {w : World F S}
        → IsOther kind k defender k'
        → Step w (started fl k' start_x w)

  -- Any number of steps.
  pub data Run : World F S → World F S → Type 0 where
    still : {w : World F S} → Run w w
    more : {u v w : World F S} → Run u v → Step v w → Run u w
