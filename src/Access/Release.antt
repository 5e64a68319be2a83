-- ===== src/Access/Release.antt =====
-- What `release_env` does: its loop finds the first priority with a blocked thread, counting up from
-- the next one, and hands the mutex over or frees it.
use patriots_rtes.Prelude.{
  ℕ, zero, suc, ◌+◌, ◌-◌, ◌%◌, ◌<◌, ◌≡◌, ◌≢◌, ◌==◌, if◌then◌else◌, not, Option, none, some, List,
  [], ◌∷◌, arith,
}
use patriots_rtes.Config.{env_prios}
use patriots_rtes.Platform.{Semaphore}
use patriots_rtes.World.{Env, PrivateSem}
use patriots_rtes.Access.{release_env, post_prio}

-- The order in which a release of `prio` asks the priorities.
abbrev pub wake_order : ℕ → List ℕ
wake_order prio = (prio + 1) % env_prios ∷ (prio + 2) % env_prios ∷ prio ∷ []

module _ {S : Type 0} where
  abbrev pub first_blocked : (ℕ → PrivateSem S) → List ℕ → Option ℕ
  first_blocked sems [] = none
  first_blocked sems (q ∷ qs) = if not ((sems q).blk == 0) then some q else first_blocked sems qs

  pub first_blocked-some :
      (sems : ℕ → PrivateSem S) (prio q : ℕ)
      → prio < env_prios
      → first_blocked sems (wake_order prio) ≡ some q
      → ((sems q).blk ≢ 0) × (q < env_prios)
  first_blocked-some sems prio q lt h = ground arith

  pub first_blocked-none :
      (sems : ℕ → PrivateSem S) (prio q : ℕ)
      → prio < env_prios
      → q < env_prios
      → first_blocked sems (wake_order prio) ≡ none
      → (sems q).blk ≡ 0
  first_blocked-none sems zero zero lp lq h = ground arith
  first_blocked-none sems zero (suc zero) lp lq h = ground arith
  first_blocked-none sems zero (suc (suc zero)) lp lq h = ground arith
  first_blocked-none sems (suc zero) zero lp lq h = ground arith
  first_blocked-none sems (suc zero) (suc zero) lp lq h = ground arith
  first_blocked-none sems (suc zero) (suc (suc zero)) lp lq h = ground arith
  first_blocked-none sems (suc (suc zero)) zero lp lq h = ground arith
  first_blocked-none sems (suc (suc zero)) (suc zero) lp lq h = ground arith
  first_blocked-none sems (suc (suc zero)) (suc (suc zero)) lp lq h = ground arith
  first_blocked-none sems (suc (suc (suc p))) q lp lq h = absurd (omega arith)
  first_blocked-none sems p (suc (suc (suc q))) lp lq h = absurd (omega arith)

module _ {S : Type 0} ⦃s : Semaphore S⦄ where
  open s use {sem_post}

  -- What a release does to the environment once the priority to wake is known.
  abbrev pub hand_over : Env S → Option ℕ → Env S
  hand_over e none = record e { count = e.count - 1; mutex = sem_post e.mutex }
  hand_over e (some q) = post_prio q (record e { count = e.count - 1 })

  -- The loop stops within its fuel, and `release_env` wakes exactly one thread: one of the first
  -- priority in the order that has a blocked thread. If none has, it frees the mutex.
  pub release_env_lem :
      (prio : ℕ) (e : Env S)
      → prio < env_prios
      → release_env prio e ≡ some (hand_over e (first_blocked e.prio_sem (wake_order prio)))
  unfolding release_env
  release_env_lem zero e lt = ground arith
  release_env_lem (suc zero) e lt = ground arith
  release_env_lem (suc (suc zero)) e lt = ground arith
  release_env_lem (suc (suc (suc p))) e lt = absurd (omega arith)
