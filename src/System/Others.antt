-- ===== src/System/Others.antt =====
-- The steps of the other threads keep what a missile's thread relies on.
use patriots_rtes.Prelude.{
  ℕ, ◌≡◌, ◌≢◌, refl, ◌==◌, if◌then◌else◌, update_ne, Bool, List, ◌∷◌, pos, Result, ok, arith, sym,
  ◌∙◌, subst,
}
use patriots_rtes.Platform.{Semaphore, Floating}
use patriots_rtes.World.{
  MissileType, attacker, defender, Missile, FifoQueueGestor, World, gestor_of, missile_at,
  set_gestor, set_missile,
}
use patriots_rtes.Collision.Scan.{Outcome}
use patriots_rtes.Collision.Valid.{HasValidCells}
use patriots_rtes.Collision.Frame.{
  MovesAlike, SameQueues, same-MovesAlike, update_missile_env-MovesAlike,
}
use patriots_rtes.Fifo.{post_mutex, post_write}
use patriots_rtes.Fifo.Refinement.{Represents, IsNew, spliced}
use patriots_rtes.Lifecycle.{init_empty_missile, move_missile, movement_round}
use patriots_rtes.Lifecycle.Rounds.{Moving, clear_missile-Represents}
use patriots_rtes.Movement.Threads.{posted-Represents}
use patriots_rtes.Movement.{task_round, clear_task}
use patriots_rtes.Movement.Round.{task_round-RoundDone}
use patriots_rtes.Movement.Ending.{Owned, Kept, SameQueues-Owned}
use patriots_rtes.System.{IsOther}
use patriots_rtes.System.Lists.{IsNew-any}

module _ {F S : Type 0} where
  pub set_missile-other :
      (kind kind' : MissileType) (k k' : ℕ) (m : Missile F S) (w : World F S)
      → IsOther kind k kind' k'
      → missile_at kind (set_missile kind' k' m w) k ≡ missile_at kind w k
  set_missile-other attacker attacker k k' m w other =
      update_ne w.atk_gestor.queue k' k m (λ e. other refl e)
  set_missile-other attacker defender k k' m w other = refl
  set_missile-other defender attacker k k' m w other = refl
  set_missile-other defender defender k k' m w other =
      update_ne w.def_gestor.queue k' k m (λ e. other refl e)

still-IsNew :
    {k k' : ℕ} (free used : List ℕ) → k' ≢ k → IsNew k free used → IsNew k (k' ∷ free) used
still-IsNew {k} {k'} free used ne new = (new.0, grind (arith, new.1, ne))

module _ {F D S : Type 0} (fl : Floating F D) ⦃s : Semaphore S⦄ where
  -- The world after a thread has given its index back.
  abbrev cleared : MissileType → ℕ → FifoQueueGestor S → World F S → World F S
  cleared kind' k' q w =
      set_missile kind' k' (init_empty_missile fl (missile_at kind' w k'))
        (set_gestor kind' (record (gestor_of kind' w) { gestor = q }) w)

  cleared-Kept :
      (kind kind' : MissileType) (k k' : ℕ) (q : FifoQueueGestor S) (free used : List ℕ)
      (w : World F S)
      → IsOther kind k kind' k'
      → HasValidCells w
      → Represents (gestor_of kind' w).gestor free used
      → Represents q (k' ∷ free) used
      → Owned kind k w
      → Kept kind k w (cleared kind' k' q w)
  cleared-Kept attacker attacker k k' q free used w other cells before after o = record {
    cells = cells;
    alike = same-MovesAlike _ _ (
        update_ne w.atk_gestor.queue k' k (init_empty_missile fl (w.atk_gestor.queue k'))
          (λ e. other refl e));
    owned = record {
      free = k' ∷ free;
      used = used;
      lists = after;
      mine =
          still-IsNew free used (λ e. other refl e)
            (IsNew-any w.atk_gestor.gestor k o.free o.used free used o.lists before o.mine);
    };
  }
  cleared-Kept attacker defender k k' q free used w other cells before after o = record {
    cells = cells;
    alike = same-MovesAlike _ _ refl;
    owned = record { free = o.free; used = o.used; lists = o.lists; mine = o.mine };
  }
  cleared-Kept defender attacker k k' q free used w other cells before after o = record {
    cells = cells;
    alike = same-MovesAlike _ _ refl;
    owned = record { free = o.free; used = o.used; lists = o.lists; mine = o.mine };
  }
  cleared-Kept defender defender k k' q free used w other cells before after o = record {
    cells = cells;
    alike = same-MovesAlike _ _ (
        update_ne w.def_gestor.queue k' k (init_empty_missile fl (w.def_gestor.queue k'))
          (λ e. other refl e));
    owned = record {
      free = k' ∷ free;
      used = used;
      lists = after;
      mine =
          still-IsNew free used (λ e. other refl e)
            (IsNew-any w.def_gestor.gestor k o.free o.used free used o.lists before o.mine);
    };
  }

module _ {F D S : Type 0} (fl : Floating F D) ⦃s : Semaphore S⦄ (kind : MissileType) (k : ℕ) where
  round_alike :
      (kind' : MissileType) (k' : ℕ) (deltatime : F) (w w' : World F S) (c : Bool)
      → IsOther kind k kind' k'
      → task_round fl kind' k' deltatime w ≡ ok (w', c)
      → MovesAlike (missile_at kind w k) (missile_at kind w' k)
  unfolding task_round movement_round
  round_alike kind' k' deltatime w w' c other h =
      let m = missile_at kind' w k' in
      let moved = move_missile fl m deltatime in
      let w0 = set_missile kind' k' moved w in
      subst (λ z. MovesAlike z (missile_at kind w' k))
        (set_missile-other kind kind' k k' moved w other)
        (update_missile_env-MovesAlike moved m.x m.y w0 w' c h kind k)

  pub moves-Kept :
      (kind' : MissileType) (k' : ℕ) (deltatime : F) (w w' : World F S) (c : Bool)
      → IsOther kind k kind' k'
      → Moving (missile_at kind' w k') w
      → task_round fl kind' k' deltatime w ≡ ok (w', c)
      → Owned kind k w
      → Kept kind k w w'
  moves-Kept kind' k' deltatime w w' c other moving h owned =
      let r = task_round-RoundDone fl kind' k' deltatime w moving in
      let e : ◌≡◌ {A = Outcome F S} (ok (r.world, r.collided)) (ok (w', c)) = sym r.returns ∙ h in
      let same : r.world ≡ w' = cc in
      record {
        cells = subst HasValidCells same r.cells;
        alike = round_alike kind' k' deltatime w w' c other h;
        owned = SameQueues-Owned kind k w w' (subst (SameQueues w) same r.queues) owned;
      }

  pub ends-Kept :
      (kind' : MissileType) (k' : ℕ) (w w' : World F S)
      → IsOther kind k kind' k'
      → HasValidCells w
      → Owned kind' k' w
      → (missile_at kind' w k').index ≡ pos k'
      → clear_task fl kind' k' w ≡ ok w'
      → Owned kind k w
      → Kept kind k w w'
  unfolding clear_task
  ends-Kept kind' k' w w' other cells o' e h o =
      let g = gestor_of kind' w in
      let (done, lists) =
        clear_missile-Represents fl (g.queue k') g.gestor o'.free o'.used k' e o'.lists o'.mine in
      let pushed = spliced g.gestor o'.free o'.used k' in
      let q = if g.gestor.write_sem.blk == 0 then post_mutex pushed else post_write pushed in
      let r : ◌≡◌ {A = Result (World F S)} (ok (cleared fl kind' k' q w)) (ok w') =
        sym (rw done refl) ∙ h in
      let same : cleared fl kind' k' q w ≡ w' = cc in
      subst (Kept kind k w) same (
        cleared-Kept fl kind kind' k k' q o'.free o'.used w other cells o'.lists
          (posted-Represents fl kind' k' (g.gestor.write_sem.blk == 0) pushed (k' ∷ o'.free) o'.used
            lists)
          o)
