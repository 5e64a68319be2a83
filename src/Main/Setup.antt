-- ===== src/Main/Setup.antt =====
-- The state in which `init` leaves the program.
use patriots_rtes.Prelude.{
  ℕ, ◌<◌, ◌≡◌, true, false, ℤ, pos, leb_ℤ, [], ◌∷◌, arith, sym, ap, ◌∙◌, Bool-cases, inl, inr, ◌⊎◌,
}
use patriots_rtes.Config.{max_missiles, none_index}
use patriots_rtes.Platform.{Semaphore, Floating}
use patriots_rtes.World.{MissileType, attacker, defender, Missile, World, gestor_of, missile_at}
use patriots_rtes.Access.Protocol.{IsFresh}
use patriots_rtes.Grid.{init_cell, init_wall_cell, init_goal_cell}
use patriots_rtes.Grid.Init.{init_env-IsFresh, init_env-cells}
use patriots_rtes.Collision.Deletion.{holds}
use patriots_rtes.Collision.Follow.{Gone}
use patriots_rtes.Collision.Valid.{HasValidCells, init_env-HasValidCells}
use patriots_rtes.Fifo.Refinement.{Represents}
use patriots_rtes.Tracking.{is_already_tracked}
use patriots_rtes.Tracking.Search.{is_already_tracked_lem}
use patriots_rtes.Lifecycle.{init_empty_missile}
use patriots_rtes.Lifecycle.Rounds.{init_missiles_gestor_lem}
use patriots_rtes.Launchers.{init_launchers, init_atk_launcher, init_def_launcher}
use patriots_rtes.Main.{init, init_gestor}

module _ {F S : Type 0} where
  -- A world in which no missile flies: nobody has the environment, no cell is a missile's, every index of
  -- both queues is free, and no structure has an index.
  pub record Ready ⦃s : Semaphore S⦄ (w : World F S) : Type 0 where
    pub fresh : IsFresh w.env
    pub no_points : (w.env.def_points ≡ 0) × (w.env.atk_points ≡ 0)
    pub cells : HasValidCells w
    pub no_cells : (kind : MissileType) (k : ℕ) → Gone kind k w
    pub lists : (kind : MissileType) → Represents (gestor_of kind w).gestor (0 ∷ 1 ∷ 2 ∷ 3 ∷ []) []
    pub none_flies :
        (kind : MissileType) (k : ℕ) → k < max_missiles → (missile_at kind w k).index ≡ none_index
    pub untracked : (target : ℤ) → is_already_tracked target w ≡ false

  -- Without an index nothing is tracked.
  none-untracked :
      (w : World F S)
      → ((k : ℕ) → k < max_missiles → (w.def_gestor.queue k).index ≡ none_index)
      → (target : ℤ) → is_already_tracked target w ≡ false
  none-untracked w none_flies target = elim (Bool-cases (is_already_tracked target w)) [
    | inl tracked ↦
        let (natural, some_has) = (is_already_tracked_lem target w).0 tracked in
        absurd (by_index natural some_has)
    | inr free ↦ free
  ]
    where
      bad : {i : ℤ} → leb_ℤ (pos 0) target ≡ true → i ≡ none_index → i ≡ target → ⊥
      bad p e h = ground (arith, p, sym e ∙ h)

      by_index :
          leb_ℤ (pos 0) target ≡ true
          → ((w.def_gestor.queue 0).index ≡ target)
            ⊎ ((w.def_gestor.queue 1).index ≡ target)
            ⊎ ((w.def_gestor.queue 2).index ≡ target)
            ⊎ ((w.def_gestor.queue 3).index ≡ target)
          → ⊥
      by_index p (inl h) = bad p (none_flies 0 (omega arith)) h
      by_index p (inr (inl h)) = bad p (none_flies 1 (omega arith)) h
      by_index p (inr (inr (inl h))) = bad p (none_flies 2 (omega arith)) h
      by_index p (inr (inr (inr h))) = bad p (none_flies 3 (omega arith)) h

init_cell-holds : (kind : MissileType) (k x y : ℕ) → holds kind k (init_cell x y) ≡ false
unfolding init_cell init_wall_cell init_goal_cell
init_cell-holds attacker k x y = ground arith
init_cell-holds defender k x y = ground arith

module _ {F D S : Type 0} (fl : Floating F D) ⦃s : Semaphore S⦄ where
  -- Whatever the memory held, `init` leaves a world that is ready.
  pub init-Ready : (w : World F S) → Ready (init fl w).0
  unfolding init init_gestor init_launchers init_atk_launcher init_def_launcher init_empty_missile
  init-Ready w =
      let env = init_env-IsFresh w.env in
      record {
        fresh = env.0;
        no_points = (env.1, env.2);
        cells = init_env-HasValidCells w w.env;
        no_cells = no_cells;
        lists = lists_of;
        none_flies = none_flies;
        untracked = none-untracked (init fl w).0 (none_flies defender);
      }
    where
      no_cells : (kind : MissileType) (k : ℕ) → Gone kind k (init fl w).0
      no_cells kind k a b la lb =
          ap (holds kind k) (init_env-cells w.env a b la lb) ∙ init_cell-holds kind k a b

      lists_of :
          (kind : MissileType)
          → Represents (gestor_of kind (init fl w).0).gestor (0 ∷ 1 ∷ 2 ∷ 3 ∷ []) []
      lists_of attacker = (init_missiles_gestor_lem fl w.atk_gestor 0 (omega arith)).0
      lists_of defender = (init_missiles_gestor_lem fl w.def_gestor 0 (omega arith)).0

      none_flies :
          (kind : MissileType) (k : ℕ)
          → k < max_missiles
          → (missile_at kind (init fl w).0 k).index ≡ none_index
      none_flies attacker k lt =
          ap (λ (m : Missile F S). m.index) (init_missiles_gestor_lem fl w.atk_gestor k lt).1
      none_flies defender k lt =
          ap (λ (m : Missile F S). m.index) (init_missiles_gestor_lem fl w.def_gestor k lt).1
