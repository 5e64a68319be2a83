-- ===== src/Movement/Faults.antt =====
-- The threads that start outside of the window: an attacker that stands on its right border, and a
-- defender that has not seen its target.
use patriots_rtes.Prelude.{
  ℕ, suc, ◌≡◌, refl, Bool, false, pos, Option, some, Result, ok, err, Fault, assertion_failed,
  out_of_bounds, ◌⊎◌, inl, inr, arith, ap, ◌∙◌, ℤ, ◌∙◌,
}
use patriots_rtes.Config.{none_index, atk_missile_period, def_missile_period}
use patriots_rtes.Platform.{Semaphore, Floating}
use patriots_rtes.World.{
  Pos, MissileType, attacker, defender, Missile, World, missile_at, set_missile,
}
use patriots_rtes.Grid.{check_borders}
use patriots_rtes.Tracking.{not_found}
use patriots_rtes.Collision.Update.{update_missile_env-outside}
use patriots_rtes.Lifecycle.{move_missile, movement_round, get_deltatime, set_missile_trajectory}
use patriots_rtes.Trajectory.Sampling.{Reading, get_start_x_position, get_start_x_position-still}
use patriots_rtes.Trajectory.Asserts.{get_start_x_position-OnlyAsserts}
use patriots_rtes.Movement.{
  task_round, movement_loop, task_missile_movement, atk_thread, def_thread,
}
use patriots_rtes.Movement.Round.{set_missile_self}

module _ {F S : Type 0} where
  -- How a thread ends that has not seen its target, on what `get_start_x_position` has given it: with
  -- the failed assertion, or, on x = -1, with an access out of bounds.
  abbrev pub LostFault : Result ℤ → Option (Result (World F S)) → Type 0
  LostFault start_x r =
      (start_x ≡ err assertion_failed) × (r ≡ some (err assertion_failed))
      ⊎ (start_x ≡ ok none_index) × (r ≡ some (err out_of_bounds))

module _ {F D S : Type 0} (fl : Floating F D) ⦃s : Semaphore S⦄ where
  task_round-outside :
      (kind : MissileType) (k : ℕ) (deltatime : F) (w : World F S)
      → (missile_at kind w k).deleted ≡ false
      → check_borders (missile_at kind w k).x (missile_at kind w k).y ≡ false
      → task_round fl kind k deltatime w ≡ err out_of_bounds
  unfolding task_round movement_round move_missile
  task_round-outside kind k deltatime w alive out =
      let m = missile_at kind w k in
      let moved = move_missile fl m deltatime in
      update_missile_env-outside moved m.x m.y (set_missile kind k moved w) alive out

  movement_loop-outside :
      (ended : ℕ → Bool) (others : ℕ → World F S → World F S) (kind : MissileType) (k : ℕ)
      (deltatime : F) (fuel i : ℕ) (w : World F S)
      → (missile_at kind w k).deleted ≡ false
      → check_borders (missile_at kind w k).x (missile_at kind w k).y ≡ false
      → movement_loop fl ended others kind k deltatime (suc fuel) i w ≡ some (err out_of_bounds)
  unfolding movement_loop
  movement_loop-outside ended others kind k deltatime fuel i w alive out =
      rw (task_round-outside kind k deltatime w alive out, movement_loop) refl

  -- The thread of an attacker that is not deleted and starts outside of the window accesses the grid
  -- out of bounds in its first round.
  pub atk_thread-outside :
      (ended : ℕ → Bool) (others : ℕ → World F S → World F S) (waited : World F S → World F S)
      (k fuel : ℕ) (w : World F S)
      → (missile_at attacker w k).deleted ≡ false
      → check_borders (missile_at attacker w k).x (missile_at attacker w k).y ≡ false
      → atk_thread fl ended others waited k (suc fuel) w ≡ some (err out_of_bounds)
  unfolding atk_thread task_missile_movement
  atk_thread-outside ended others waited k fuel w alive out =
      rw
        (
          movement_loop-outside ended others attacker k (get_deltatime fl (pos atk_missile_period))
              fuel 0 w alive out,
          atk_thread,
          task_missile_movement,
        )
        refl

  -- The thread of a defender whose target is in no scan, and that is not deleted once its samples are
  -- taken, ends with a fault: it fails an assertion of `get_start_x_position`, or gets the start x = -1
  -- from it and accesses the grid out of bounds.
  pub def_thread-lost :
      (ended : ℕ → Bool) (others : ℕ → World F S → World F S)
      (sampled waited : World F S → World F S) (start : Reading) (readings : ℕ → Reading)
      (k fuel : ℕ) (w : World F S)
      → start.place ≡ not_found
      → ((i : ℕ) → (readings i).place ≡ not_found)
      → (missile_at defender (sampled w) k).deleted ≡ false
      → LostFault
          (get_start_x_position fl start readings)
          (def_thread fl ended others sampled waited start readings k (suc fuel) w)
  unfolding def_thread task_missile_movement set_missile_trajectory
  def_thread-lost ended others sampled waited start readings k fuel w lost never alive =
      by_start (get_start_x_position fl start readings) refl
    where
      borders : {a : ℤ} (b : ℤ) → a ≡ none_index → check_borders a b ≡ false
      borders b e = ground (arith, e)

      by_start :
          (r : Result ℤ)
          → get_start_x_position fl start readings ≡ r
          → LostFault
              (get_start_x_position fl start readings)
              (def_thread fl ended others sampled waited start readings k (suc fuel) w)
      by_start (err e) h =
          let failed = get_start_x_position-OnlyAsserts fl start readings e h in
          inl (h ∙ ap (λ (f : Fault). err f) failed, rw (h, def_thread, failed) refl)
      by_start (ok x) h =
          let v = sampled w in
          let m = set_missile_trajectory fl x (missile_at defender v k) in
          let u = set_missile defender k m v in
          let own = set_missile_self defender k m v in
          let here =
            get_start_x_position-still fl start readings none_index x (ap (λ (p : Pos). p.x) lost)
              (λ i. ap (λ (p : Pos). p.x) (never i)) h in
          let out : check_borders (missile_at defender u k).x (missile_at defender u k).y ≡ false =
            borders (missile_at defender u k).y (ap (λ (q : Missile F S). q.x) own ∙ here) in
          inr (
            h ∙ ap (λ (z : ℤ). ok z) here,
            rw
                (
                  h,
                  def_thread,
                  task_missile_movement,
                  movement_loop-outside ended others defender k
                      (get_deltatime fl (pos def_missile_period)) fuel 0 u
                      (ap (λ (q : Missile F S). q.deleted) own ∙ alive) out,
                )
                refl,
          )
