-- ===== src/Access/Safety.antt =====
-- What the access protocol guarantees in every reachable state, for any number of threads.
use patriots_rtes.Prelude.{
  ℕ, ◌≤◌, ◌<◌, ◌≡◌, refl, inl, inr, ◌==◌, true, not, ◌||◌, arith, Bool-cases, ==_iff,
}
use patriots_rtes.Prelude.Tally.{tally-pos, tally_two}
use native.Mathlib.Decide.{ℕ_discrete}
use patriots_rtes.Platform.{Semaphore}
use patriots_rtes.Access.{access_lock}
use patriots_rtes.Access.Protocol.{testing, woken, leaving, System, Reach}
use patriots_rtes.Access.Invariant.{
  Inv, Reach-Inv, has_mutex, uses_env, is_testing, waits, access_lock-blk,
}

module _ {S : Type 0} ⦃s : Semaphore S⦄ {n : ℕ} {t : System S} where
  open s use {value, sem_wait, wait-blocks}

  -- In a reachable state two threads never use the environment together.
  pub mutual_exclusion :
      Reach n t
      → (i j : ℕ) → i < n
      → j < n
      → uses_env (t.pc i) ≡ true
      → uses_env (t.pc j) ≡ true
      → i ≡ j
  mutual_exclusion r i j hi hj ui uj = elim (ℕ_discrete i j) [
    | yes e ↦ e
    | no ne ↦
        absurd (omega (arith, inv.counted, inv.alone, tally_two uses_env n t.pc i j hi hj ne ui uj))
  ]
    where
      inv : Inv n t.env t.pc
      inv = Reach-Inv r

  -- In a reachable state two threads never both stand between a `sem_wait` and the `sem_post` that
  -- passes the mutex on, so the counters have one writer at a time.
  pub counters_exclusive :
      Reach n t
      → (i j : ℕ) → i < n
      → j < n
      → has_mutex (t.pc i) ≡ true
      → has_mutex (t.pc j) ≡ true
      → i ≡ j
  counters_exclusive r i j hi hj ui uj = elim (ℕ_discrete i j) [
    | yes e ↦ e
    | no ne ↦ absurd (omega (arith, inv.one_mutex, tally_two has_mutex n t.pc i j hi hj ne ui uj))
  ]
    where
      inv : Inv n t.env t.pc
      inv = Reach-Inv r

  -- In a reachable state no decrement meets a zero: a woken thread is counted in its priority's `blk`,
  -- and a leaving one in `count`.
  pub counted_before_decrement :
      Reach n t
      → (i prio : ℕ) → i < n
      → (t.pc i ≡ woken prio → 1 ≤ (t.env.prio_sem prio).blk)
        × (t.pc i ≡ leaving prio → 1 ≤ t.env.count)
  counted_before_decrement r i prio hi = (
    λ h. omega (
      arith,
      inv.blk_counts prio (rw h at (inv.legal i)),
      tally-pos (waits prio) n t.pc i hi (rw h ((==_iff prio prio).1 refl)),
    ),
    λ h. omega (arith, inv.counted, tally-pos uses_env n t.pc i hi (rw h refl)),
  )
    where
      inv : Inv n t.env t.pc
      inv = Reach-Inv r

  -- In a reachable state the loop over the blocked counters never decides: a thread that tests waits
  -- exactly when the environment is in use.
  pub test_by_count :
      Reach n t
      → (i prio : ℕ) → i < n
      → t.pc i ≡ testing prio
      → (not (t.env.count == 0) || access_lock t.env.prio_sem prio) ≡ not (t.env.count == 0)
  test_by_count r i prio hi h = elim (Bool-cases (access_lock t.env.prio_sem prio)) [
    | inl locked ↦ ground (
      arith,
      inv.nobody_forgotten (omega (arith, tally-pos is_testing n t.pc i hi (rw h refl))),
      access_lock-blk t.env prio (rw h at (inv.legal i)) locked,
    )
    | inr free ↦ ground arith
  ]
    where
      inv : Inv n t.env t.pc
      inv = Reach-Inv r
