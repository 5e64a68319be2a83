-- ===== src/Movement.antt =====
-- The threads of the missiles in src/launchers.c: `task_missile_movement`, `atk_thread` and
-- `def_thread`. A thread works on the structure of its missile in the queue of its gestor, which its
-- kind and its index name. `ended` is what it reads of the flag `end` in each round, and `others` what
-- the other threads do to the world between two rounds.
pub mod Round
pub mod Ending
pub mod Threads
pub mod Faults
mod Tests
use patriots_rtes.Prelude.{
  ℕ, zero, suc, ◌+◌, Bool, true, false, not, ◌&&◌, ◌||◌, ℤ, pos, Option, none, some, Result, ok,
  err, ◌>>=◌,
}
use patriots_rtes.Config.{atk_missile_period, def_missile_period}
use patriots_rtes.Platform.{Semaphore, Floating}
use patriots_rtes.World.{
  MissileType, attacker, defender, Missile, MissileGestor, World, gestor_of, missile_at, set_gestor,
  set_missile,
}
use patriots_rtes.Lifecycle.{
  move_missile, movement_round, clear_missile, get_deltatime, set_missile_trajectory,
}
use patriots_rtes.Trajectory.Sampling.{Reading, get_start_x_position}

module _ {F D S : Type 0} (fl : Floating F D) ⦃s : Semaphore S⦄ where
  -- A round of the loop: the moved structure is in the queue when the environment is updated.
  unfoldable pub task_round : MissileType → ℕ → F → World F S → Result (World F S × Bool)
  unfolding movement_round
  task_round kind k deltatime w =
      let missile = missile_at kind w k in
      (movement_round fl deltatime missile
        (set_missile kind k (move_missile fl missile deltatime) w)).1

  -- The `do` loop from round `i` on; `none` if the fuel runs out.
  pub movement_loop :
      (ℕ → Bool)
      → (ℕ → World F S → World F S)
      → MissileType
      → ℕ
      → F
      → ℕ
      → ℕ
      → World F S
      → Option (Result (World F S))
  movement_loop ended others kind k deltatime zero i w = none
  movement_loop ended others kind k deltatime (suc fuel) i w =
      elim (task_round kind k deltatime w) [
        | err e ↦ some (err e)
        | ok (w', collided) ↦ elim (not collided && not (ended i)) [
          | true ↦ movement_loop ended others kind k deltatime fuel (i + 1) (others i w')
          | false ↦ some (ok w')
        ]
      ]

  -- On the period of the task in milliseconds.
  pub task_missile_movement :
      (ℕ → Bool)
      → (ℕ → World F S → World F S)
      → MissileType
      → ℕ
      → ℤ
      → ℕ
      → World F S
      → Option (Result (World F S))
  unfolding movement_loop
  task_missile_movement ended others kind k period fuel w =
      movement_loop ended others kind k (get_deltatime fl period) fuel 0 w

  -- `clear_missile` on the missile and the gestor of a thread, after its `sem_wait`.
  unfoldable pub clear_task : MissileType → ℕ → World F S → Result (World F S)
  clear_task kind k w =
      let g = gestor_of kind w in
      clear_missile fl (g.queue k) g.gestor >>= λ p.
      ok (set_missile kind k p.0 (set_gestor kind (record g { gestor = p.1 }) w))

  -- The end of a thread: `waited` is what the others do until it has the mutex of the queue.
  abbrev pub then_clear :
      MissileType
      → ℕ
      → (World F S → World F S)
      → Option (Result (World F S))
      → Option (Result (World F S))
  then_clear kind k waited none = none
  then_clear kind k waited (some (err e)) = some (err e)
  then_clear kind k waited (some (ok w)) = some (clear_task kind k (waited w))

  pub atk_thread :
      (ℕ → Bool)
      → (ℕ → World F S → World F S)
      → (World F S → World F S)
      → ℕ
      → ℕ
      → World F S
      → Option (Result (World F S))
  unfolding task_missile_movement clear_task
  atk_thread ended others waited k fuel w =
      then_clear attacker k waited
        (task_missile_movement ended others attacker k (pos atk_missile_period) fuel w)

  -- With the samples of its target; `sampled` is what the others do while they are taken.
  pub def_thread :
      (ℕ → Bool)
      → (ℕ → World F S → World F S)
      → (World F S → World F S)
      → (World F S → World F S)
      → Reading
      → (ℕ → Reading)
      → ℕ
      → ℕ
      → World F S
      → Option (Result (World F S))
  unfolding task_missile_movement clear_task
  def_thread ended others sampled waited start readings k fuel w =
      elim (get_start_x_position fl start readings) [
        | err e ↦ some (err e)
        | ok start_x ↦
            let v = sampled w in
            then_clear defender k waited (
              task_missile_movement ended others defender k (pos def_missile_period) fuel (
                set_missile defender k (set_missile_trajectory fl start_x (missile_at defender v k))
                  v))
      ]
