-- ===== src/Main.antt =====
-- src/patriots.c, and `init_gestor` of src/gestor.c: how the program is set up, and the loop of `main`
-- that reads the keyboard. What `keypressed` and `readkey` give in each round is an argument, and so are
-- Allegro's key codes; `others` is what the tasks do to the world until `main` has the mutex of the queue.
pub mod Setup
pub mod Keys
mod Tests
use patriots_rtes.Prelude.{
  ℕ, zero, suc, ◌+◌, ◌/◌, ◌^◌, ◌==◌, if◌then◌else◌, Bool, true, false, not, Option, none, some, ℤ,
  List, Result, ok, err, ◌>>=◌,
}
use patriots_rtes.Platform.{Semaphore, Floating}
use patriots_rtes.World.{attacker, World}
use patriots_rtes.Grid.{init_env}
use patriots_rtes.Fifo.{request_atk_launch}
use patriots_rtes.Display.{SetupCommand, display_init}
use patriots_rtes.Tasks.{TaskCall, spawn_tasks}
use patriots_rtes.Launchers.{init_launchers, set_queue}

-- `k` on what the keyboard gives in a round, if a key is pressed.
abbrev pub scan_code : Option ℕ → ℕ
scan_code none = 0
scan_code (some c) = c / 2 ^ 8

module _ {F D S : Type 0} (fl : Floating F D) ⦃s : Semaphore S⦄ where
  -- `init_gestor` on any memory: the environment, and the calls of `display_init`.
  unfoldable pub init_gestor : World F S → World F S × List SetupCommand
  init_gestor w = (record w { env = init_env w.env }, display_init)

  -- `init`, up to `ptask_init`: the world, the calls, and the flag `end`.
  unfoldable pub init : World F S → World F S × List SetupCommand × Bool
  unfolding init_gestor
  init w = let (v, calls) = init_gestor w in (init_launchers fl v, calls, false)

  -- The request that `main` makes, on the queue of the attackers.
  abbrev pub request : World F S → Result (World F S)
  request w = request_atk_launch w.atk_gestor.gestor >>= λ g. ok (set_queue fl attacker g w)

  module _ (key_space key_esc : ℕ) where
    -- The body of the loop.
    pub main_round : Option ℕ → (World F S → World F S) → World F S → Result (World F S)
    main_round none others w = ok w
    main_round (some c) others w =
        if scan_code (some c) == key_space then request (others w) else ok w

    -- The `do` loop from round `i` on; `none` if the fuel runs out.
    pub main_loop :
        (ℕ → Option ℕ)
        → (ℕ → World F S → World F S)
        → ℕ
        → ℕ
        → World F S
        → Option (Result (World F S))
    unfolding main_round
    main_loop keys others zero i w = none
    main_loop keys others (suc fuel) i w = elim (main_round (keys i) (others i) w) [
      | err e ↦ some (err e)
      | ok v ↦ elim (not (scan_code (keys i) == key_esc)) [
        | true ↦ main_loop keys others fuel (i + 1) v
        | false ↦ some (ok v)
      ]
    ]

    -- `main` up to `end = 1`: `tasks` are the numbers of the tasks that it creates, and `spawned` is what
    -- they do before the loop.
    unfoldable pub main :
        (ℕ → Option ℕ)
        → (ℕ → World F S → World F S)
        → (World F S → World F S)
        → ℤ × ℤ × ℤ
        → ℕ
        → World F S
        → Option (Result (World F S))
    unfolding main_loop init
    main keys others spawned tasks fuel w = elim (spawn_tasks tasks.0 tasks.1 tasks.2) [
      | err e ↦ some (err e)
      | ok calls ↦ main_loop keys others fuel 0 (spawned (init w).0)
    ]
