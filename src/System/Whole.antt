-- ===== src/System/Whole.antt =====
-- The whole program: a state, the moves of its threads, and what every reachable state has.
use patriots_rtes.Prelude.{
  ℕ, ◌<◌, ◌≡◌, ◌==◌, if◌then◌else◌, Bool, true, false, ◌&&◌, ◌||◌, ℤ, pos, ok,
}
use patriots_rtes.Config.{xwin}
use patriots_rtes.Platform.{Semaphore, Floating}
use patriots_rtes.World.{MissileType, attacker, defender, FifoQueueGestor, World, missile_at}
use patriots_rtes.Collision.Follow.{same_kind}
use patriots_rtes.Tasks.{TaskCall}
use patriots_rtes.Movement.{task_round, clear_task}
use patriots_rtes.Movement.Threads.{started}
use patriots_rtes.Launchers.{Draws, set_queue, launch_atk_missile, launch_def_missile}
use patriots_rtes.Launchers.Starts.{Takes}
use patriots_rtes.System.{Quiet}
use patriots_rtes.Main.Setup.{Ready}

-- Where an index of a queue is: not in use, held by its launcher, with a thread that takes
-- samples, with a missile that flies, or with a thread that has left its loop.
pub data Phase : Type 0 where
  away : Phase
  held : Phase
  samples : Phase
  flies : Phase
  ended : Phase

pub record State (F S : Type 0) : Type 0 where
  pub world : World F S
  pub phase : MissileType → ℕ → Phase
  pub end : Bool

abbrev pub enters : MissileType → ℕ → Phase → (MissileType → ℕ → Phase) → MissileType → ℕ → Phase
enters kind k p phase kind' k' = if same_kind kind kind' && k == k' then p else phase kind' k'

abbrev pub after_round : Bool → Phase
after_round true = ended
after_round false = flies

module _ {F D S : Type 0} (fl : Floating F D) ⦃s : Semaphore S⦄ where
  -- A move of one thread. The thread of a missile reads the flag `end` after each round. A launcher may have
  -- read it before it was set. An attacker starts left of the window's right border, and a defender in
  -- the window. `main` sets `end` when ESC is pressed.
  pub data Move : State F S → State F S → Type 0 where
    quiet :
        {w w' : World F S} {phase : MissileType → ℕ → Phase} {stop : Bool}
        → Quiet fl w w'
        → Move
            (record { world = w; phase = phase; end = stop })
            (record { world = w'; phase = phase; end = stop })
    round :
        (kind : MissileType) (k : ℕ) (deltatime : F) (stop : Bool) {w w' : World F S}
        {phase : MissileType → ℕ → Phase} {c : Bool}
        → phase kind k ≡ flies
        → task_round fl kind k deltatime w ≡ ok (w', c)
        → Move
            (record { world = w; phase = phase; end = stop })
            (record {
              world = w';
              phase = enters kind k (after_round (c || stop)) phase;
              end = stop;
            })
    finish :
        (kind : MissileType) (k : ℕ) {w w' : World F S} {phase : MissileType → ℕ → Phase}
        {stop : Bool}
        → phase kind k ≡ ended
        → clear_task fl kind k w ≡ ok w'
        → Move
            (record { world = w; phase = phase; end = stop })
            (record { world = w'; phase = enters kind k away phase; end = stop })
    take :
        (kind : MissileType) (k : ℕ) {w : World F S} {q : FifoQueueGestor S}
        {phase : MissileType → ℕ → Phase} {stop : Bool}
        → Takes w kind q k
        → Move
            (record { world = w; phase = phase; end = stop })
            (record { world = set_queue fl kind q w; phase = enters kind k held phase; end = stop })
    launch_atk :
        (draws : Draws F) (thread : ℤ) (k x : ℕ) {w w' : World F S}
        {phase : MissileType → ℕ → Phase} {stop : Bool} {call : TaskCall}
        → phase attacker k ≡ held
        → launch_atk_missile fl draws thread (pos k) w ≡ ok (w', call)
        → (missile_at attacker w' k).x ≡ pos x
        → x < xwin
        → Move
            (record { world = w; phase = phase; end = stop })
            (record { world = w'; phase = enters attacker k flies phase; end = stop })
    launch_def :
        (thread : ℤ) (k : ℕ) {w w' : World F S} {phase : MissileType → ℕ → Phase} {stop : Bool}
        {call : TaskCall}
        → phase defender k ≡ held
        → launch_def_missile fl thread (pos k) w ≡ ok (w', call)
        → Move
            (record { world = w; phase = phase; end = stop })
            (record { world = w'; phase = enters defender k samples phase; end = stop })
    start :
        (k c : ℕ) {w : World F S} {phase : MissileType → ℕ → Phase} {stop : Bool}
        → phase defender k ≡ samples
        → c < xwin
        → Move
            (record { world = w; phase = phase; end = stop })
            (record {
              world = started fl k (pos c) w;
              phase = enters defender k flies phase;
              end = stop;
            })
    escape :
        {w : World F S} {phase : MissileType → ℕ → Phase} {stop : Bool}
        → Move
            (record { world = w; phase = phase; end = stop })
            (record { world = w; phase = phase; end = true })

  -- The states that the program reaches from one that is ready.
  pub data Reach : State F S → Type 0 where
    ready :
        {w : World F S}
        → Ready w
        → Reach (record { world = w; phase = λ kind k. away; end = false })
    later : {t u : State F S} → Reach t → Move t u → Reach u
