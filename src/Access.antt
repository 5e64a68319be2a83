-- ===== src/Access.antt =====
-- `access_env` and `release_env` of src/gestor.c: one thread at a time uses the environment, and the
-- mutex is handed to the thread that is woken. What a thread does between two semaphore calls is one
-- function.
pub mod Protocol
pub mod Release
pub mod Invariant
pub mod Safety
pub mod Progress
pub mod Sessions
pub mod Serial
mod Tests
use patriots_rtes.Prelude.{
  ℕ, zero, suc, ◌+◌, ◌-◌, ◌%◌, ◌==◌, if◌then◌else◌, update, Bool, true, false, not, ◌||◌, Option,
  none, some,
}
use patriots_rtes.Config.{env_prios}
use patriots_rtes.Platform.{Semaphore}
use patriots_rtes.World.{Env, PrivateSem}

module _ {S : Type 0} where
  -- The loop `for (p = prio; p >= 0; p--) lock |= env.prio_sem[p].blk`, as a truth value.
  pub access_lock : (ℕ → PrivateSem S) → ℕ → Bool
  access_lock sems zero = not ((sems zero).blk == 0)
  access_lock sems (suc p) = not ((sems (suc p)).blk == 0) || access_lock sems p

  abbrev pub set_blk : Env S → ℕ → ℕ → Env S
  set_blk e prio k = record e {
    prio_sem = update e.prio_sem prio (record (e.prio_sem prio) { blk = k });
  }

module _ {S : Type 0} ⦃s : Semaphore S⦄ where
  open s use {sem_post}

  -- The thread counts itself as blocked and frees the mutex.
  abbrev pub access_block : ℕ → Env S → Env S
  access_block prio e =
      let e' = set_blk e prio ((e.prio_sem prio).blk + 1) in record e' { mutex = sem_post e'.mutex }

  -- The thread counts itself as a user and frees the mutex.
  abbrev pub access_enter : Env S → Env S
  access_enter e = record e { count = e.count + 1; mutex = sem_post e.mutex }

  -- `access_env` from the first `sem_wait` to the next semaphore that it waits on, or to the end: true
  -- if the thread has got in, false if it goes on to wait on its priority's semaphore.
  pub access_test : ℕ → Env S → Env S × Bool
  unfolding access_lock
  access_test prio e =
      if not (e.count == 0) || access_lock e.prio_sem prio
      then (access_block prio e, false)
      else (access_enter e, true)

  -- `access_env` from the `sem_wait` on the priority's semaphore to the end.
  pub access_resume : ℕ → Env S → Env S
  access_resume prio e =
      let e' = set_blk e prio ((e.prio_sem prio).blk - 1) in
      record e' { count = e'.count + 1; mutex = sem_post e'.mutex }

  abbrev pub post_prio : ℕ → Env S → Env S
  post_prio prio e = record e {
    prio_sem =
        update e.prio_sem prio (record (e.prio_sem prio) { sem = sem_post (e.prio_sem prio).sem });
  }

  -- The `do` loop of `release_env`: the environment and the flag `stop`; `none` if the fuel runs out.
  pub release_loop : ℕ → ℕ → ℕ → Env S → Option (Env S × Bool)
  release_loop zero prio next_prio e = none
  release_loop (suc fuel) prio next_prio e =
      let next = (next_prio + 1) % env_prios in
      let again = release_loop fuel prio next e in
      if not ((e.prio_sem next).blk == 0)
      then some (post_prio next e, true)
      else (if next == prio then some (e, false) else again)

  abbrev pub finish_release : Option (Env S × Bool) → Option (Env S)
  finish_release none = none
  finish_release (some (e, true)) = some e
  finish_release (some (e, false)) = some (record e { mutex = sem_post e.mutex })

  -- `release_env` after its `sem_wait`. The loop visits each priority once at most.
  pub release_env : ℕ → Env S → Option (Env S)
  unfolding release_loop
  release_env prio e =
      finish_release (release_loop env_prios prio prio (record e { count = e.count - 1 }))
