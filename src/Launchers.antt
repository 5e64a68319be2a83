-- ===== src/Launchers.antt =====
-- The two launchers of src/launchers.c: `atk_launcher` and `def_launcher`, with what they call. A
-- launcher starts a round with the mutex of its queue; `waited` is what the other threads do to the
-- world while it waits for an index. What a round draws from the C library, and what the creation of a
-- task returns, are arguments.
pub mod Rounds
pub mod Starts
pub mod Waits
mod Wakes
pub mod Loops
pub mod DefLoop
pub mod Lives
pub mod Targets
pub mod Samples
mod Tests
use patriots_rtes.Prelude.{
  ℕ, zero, suc, ◌+◌, in_range, Bool, true, false, not, ℤ, pos, leb_ℤ, Option, none, some, List, [],
  ◌∷◌, ◌++◌, Result, ok, err, ◌>>=◌, or_fault,
}
use patriots_rtes.Config.{max_missiles, none_index, atk_sleep_delay, def_sleep_delay}
use patriots_rtes.Platform.{Semaphore, Floating}
use patriots_rtes.World.{
  MissileType, attacker, defender, FifoQueueGestor, World, gestor_of, missile_at, set_gestor,
  set_missile,
}
use patriots_rtes.Trajectory.{Timespec}
use patriots_rtes.Fifo.{
  Answer, granted, must_wait, get_next_index, get_next_index_woken, request_def_index,
  request_def_index_woken,
}
use patriots_rtes.Tracking.{search_screen_for_target}
use patriots_rtes.Lifecycle.{init_missiles_gestor, init_atk_missile, init_def_missile}
use patriots_rtes.Tasks.{TaskCall, created, launch_atk_thread, launch_def_thread}

-- The times that `atk_wait` and `def_wait` pass to `nanosleep`.
abbrev pub atk_wait : Timespec
atk_wait = record { tv_sec = pos 0; tv_nsec = pos atk_sleep_delay }

abbrev pub def_wait : Timespec
def_wait = record { tv_sec = pos 0; tv_nsec = pos def_sleep_delay }

-- The random quotients that `set_random_start` draws.
pub record Draws (F : Type 0) : Type 0 where
  pub start : F
  pub speed : F
  pub angle : F

-- The end of a round: what the launcher has created, and its `index`.
pub record Round (W : Type 0) : Type 0 where
  pub world : W
  pub calls : List TaskCall
  pub index : ℤ

module _ {F D S : Type 0} (fl : Floating F D) ⦃s : Semaphore S⦄ where
  abbrev pub set_queue : MissileType → FifoQueueGestor S → World F S → World F S
  set_queue kind g w = set_gestor kind (record (gestor_of kind w) { gestor = g }) w

  unfoldable pub init_atk_launcher : World F S → World F S
  init_atk_launcher w = record w { atk_gestor = init_missiles_gestor fl w.atk_gestor }

  unfoldable pub init_def_launcher : World F S → World F S
  init_def_launcher w = record w { def_gestor = init_missiles_gestor fl w.def_gestor }

  unfoldable pub init_launchers : World F S → World F S
  unfolding init_atk_launcher init_def_launcher
  init_launchers w = init_def_launcher (init_atk_launcher w)

  -- A call that takes an index from the queue of a kind: its first part, and the one after its wait.
  abbrev pub wait_index :
      MissileType
      → (FifoQueueGestor S → Result (FifoQueueGestor S × Answer))
      → (FifoQueueGestor S → Result (FifoQueueGestor S × ℤ))
      → (World F S → World F S)
      → World F S
      → Result (World F S × ℤ)
  wait_index kind first woken waited w = first (gestor_of kind w).gestor >>= λ p. elim p.1 [
    | granted index ↦ ok (set_queue kind p.0 w, index)
    | must_wait ↦
        let v = waited (set_queue kind p.0 w) in
        woken (gestor_of kind v).gestor >>= λ q. ok (set_queue kind q.0 v, q.1)
  ]

  unfoldable pub wait_next_index : (World F S → World F S) → World F S → Result (World F S × ℤ)
  wait_next_index = wait_index attacker get_next_index get_next_index_woken

  unfoldable pub wait_def_index : (World F S → World F S) → World F S → Result (World F S × ℤ)
  wait_def_index = wait_index defender request_def_index request_def_index_woken

  unfoldable pub launch_atk_missile : Draws F → ℤ → ℤ → World F S → Result (World F S × TaskCall)
  unfolding init_atk_missile
  launch_atk_missile draws thread index w = do
    k ← or_fault (in_range max_missiles index)
    let missile =
        init_atk_missile fl draws.start draws.speed draws.angle index (missile_at attacker w k)
    call ← created thread (launch_atk_thread k)
    ok (set_missile attacker k missile w, call)

  -- The body of the loop of `atk_launcher`, up to `atk_wait`.
  unfoldable pub atk_launcher_round :
      (World F S → World F S) → Draws F → ℤ → World F S → Result (Round (World F S))
  unfolding wait_next_index launch_atk_missile
  atk_launcher_round waited draws thread w = do
    (v, index) ← wait_next_index waited w
    (launched, call) ← launch_atk_missile draws thread index v
    ok (record { world = launched; calls = call ∷ []; index = index })

  -- The loop from round `i` on, with the tasks that were created before; `none` if the fuel runs out.
  -- `others` is what the other threads do between two rounds.
  unfoldable pub atk_launcher :
      (ℕ → Bool)
      → (ℕ → World F S → World F S)
      → (ℕ → World F S → World F S)
      → (ℕ → Draws F)
      → (ℕ → ℤ)
      → ℕ
      → ℕ
      → List TaskCall
      → World F S
      → Option (Result (World F S × List TaskCall))
  unfolding atk_launcher_round
  atk_launcher ended waited others draws threads zero i calls w = none
  atk_launcher ended waited others draws threads (suc fuel) i calls w = elim (ended i) [
    | true ↦ some (ok (w, calls))
    | false ↦ elim (atk_launcher_round (waited i) (draws i) (threads i) w) [
      | err e ↦ some (err e)
      | ok r ↦
          atk_launcher ended waited others draws threads fuel (i + 1) (calls ++ r.calls)
            (others i r.world)
    ]
  ]

  unfoldable pub launch_def_missile : ℤ → ℤ → World F S → Result (World F S × TaskCall)
  unfolding init_def_missile
  launch_def_missile thread index w = do
    k ← or_fault (in_range max_missiles index)
    call ← created thread (launch_def_thread k)
    ok (set_missile defender k (init_def_missile fl index (missile_at defender w k)) w, call)

  abbrev pub hold_index : (World F S → World F S) → ℤ → World F S → Result (World F S × ℤ)
  hold_index waited index w = elim (leb_ℤ (pos 0) index) [
    | true ↦ ok (w, index)
    | false ↦ wait_def_index waited w
  ]

  -- The body of the loop of `def_launcher`, on the pixels of the screen and the index that it holds.
  unfoldable pub def_launcher_round :
      (ℕ → ℕ → ℕ) → (World F S → World F S) → ℤ → ℤ → World F S → Result (Round (World F S))
  unfolding wait_def_index launch_def_missile
  def_launcher_round getpixel waited thread held w = do
    (v, index) ← hold_index waited held w
    (searched, found) ← search_screen_for_target getpixel index v
    elim found [
      | true ↦ launch_def_missile thread index searched >>= λ p.
          ok (record { world = p.0; calls = p.1 ∷ []; index = none_index })
      | false ↦ ok (record { world = searched; calls = []; index = index })
    ]

  -- The `do` loop in the same way.
  pub def_launcher_loop :
      (ℕ → Bool)
      → (ℕ → ℕ → ℕ → ℕ)
      → (ℕ → World F S → World F S)
      → (ℕ → World F S → World F S)
      → (ℕ → ℤ)
      → ℕ
      → ℕ
      → List TaskCall
      → ℤ
      → World F S
      → Option (Result (World F S × List TaskCall))
  unfolding def_launcher_round
  def_launcher_loop ended screens waited others threads zero i calls held w = none
  def_launcher_loop ended screens waited others threads (suc fuel) i calls held w =
      elim (def_launcher_round (screens i) (waited i) (threads i) held w) [
        | err e ↦ some (err e)
        | ok r ↦ elim (ended i) [
          | true ↦ some (ok (r.world, calls ++ r.calls))
          | false ↦
              def_launcher_loop ended screens waited others threads fuel (i + 1) (calls ++ r.calls)
                r.index (others i r.world)
        ]
      ]

  -- The first request is made before the loop; `first` is what the others do while it waits.
  unfoldable pub def_launcher :
      (ℕ → Bool)
      → (ℕ → ℕ → ℕ → ℕ)
      → (World F S → World F S)
      → (ℕ → World F S → World F S)
      → (ℕ → World F S → World F S)
      → (ℕ → ℤ)
      → ℕ
      → World F S
      → Option (Result (World F S × List TaskCall))
  unfolding def_launcher_loop
  def_launcher ended screens first waited others threads fuel w = elim (wait_def_index first w) [
    | err e ↦ some (err e)
    | ok (v, index) ↦ def_launcher_loop ended screens waited others threads fuel 0 [] index v
  ]
