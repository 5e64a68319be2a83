-- ===== src/System/Keeps.antt =====
-- What one operation of another thread keeps of what a missile's thread relies on.
use patriots_rtes.Prelude.{
  ℕ, ◌<◌, ◌≡◌, ◌≢◌, refl, List, ◌∷◌, ℤ, pos, Result, ok, arith, sym, ◌∙◌, subst, >>=-eq-ok,
}
use patriots_rtes.Config.{max_missiles}
use patriots_rtes.Platform.{Semaphore, Floating}
use patriots_rtes.World.{
  MissileType, attacker, defender, Missile, FifoQueueGestor, World, gestor_of, missile_at,
  set_missile,
}
use patriots_rtes.Collision.Valid.{HasValidCells}
use patriots_rtes.Collision.Frame.{same-MovesAlike}
use patriots_rtes.Fifo.{request_atk_launch}
use patriots_rtes.Lifecycle.{init_atk_missile, init_def_missile, set_missile_trajectory}
use patriots_rtes.Movement.Threads.{started}
use patriots_rtes.Tasks.{TaskCall}
use patriots_rtes.Fifo.Refinement.{Represents, IsNew}
use patriots_rtes.Fifo.Requests.{requested_lists, request_atk_launch-Requested}
use patriots_rtes.Movement.Round.{set_missile-cells, set_missile-SameQueues}
use patriots_rtes.Movement.Ending.{Owned, Kept, SameQueues-Owned}
use patriots_rtes.Launchers.{Draws, set_queue, launch_atk_missile, launch_def_missile}
use patriots_rtes.Launchers.Starts.{
  Takes, Takes-Given, launch_atk_missile-ok, launch_def_missile-ok,
}
use patriots_rtes.Main.{request}
use patriots_rtes.System.{IsOther}
use patriots_rtes.System.Lists.{requested_lists-IsNew}
use patriots_rtes.System.Others.{set_missile-other}

-- An index that is in use is none of those that are free or requested.
not-requested :
    (k k' : ℕ) (free used : List ℕ) → IsNew k free (k' ∷ used) → (k' ≢ k) × IsNew k free used
not-requested k k' free used new = (λ e. ground (arith, new.1, e), (new.0, grind (arith, new.1)))

module _ {F D S : Type 0} (fl : Floating F D) ⦃s : Semaphore S⦄ where
  pub requests-Kept :
      (kind : MissileType) (k : ℕ) (w w' : World F S)
      → HasValidCells w
      → request fl w ≡ ok w'
      → Owned kind k w
      → Kept kind k w w'
  requests-Kept attacker k w w' cells h o =
      let r = request_atk_launch-Requested w.atk_gestor.gestor o.free o.used o.lists in
      let e : ◌≡◌ {A = Result (World F S)} (ok (set_queue fl attacker r.out w)) (ok w') =
        sym (rw r.returns refl) ∙ h in
      let same : set_queue fl attacker r.out w ≡ w' = cc in
      subst (Kept attacker k w) same (record {
        cells = cells;
        alike = same-MovesAlike _ _ refl;
        owned = record {
          free = (requested_lists o.free o.used w.atk_gestor.gestor.read_sem.blk).0;
          used = (requested_lists o.free o.used w.atk_gestor.gestor.read_sem.blk).1;
          lists = r.lists;
          mine = requested_lists-IsNew k o.free o.used w.atk_gestor.gestor.read_sem.blk o.mine;
        };
      })
  requests-Kept defender k w w' cells h o =
      let (g, e, rest) = >>=-eq-ok (request_atk_launch w.atk_gestor.gestor) _ h in
      let last : ◌≡◌ {A = Result (World F S)} (ok (set_queue fl attacker g w)) (ok w') = rest in
      let same : set_queue fl attacker g w ≡ w' = cc in
      subst (Kept defender k w) same (record {
        cells = cells;
        alike = same-MovesAlike _ _ refl;
        owned = record { free = o.free; used = o.used; lists = o.lists; mine = o.mine };
      })

  -- A change of a queue that leaves the use of an index.
  pub queued-Kept :
      (kind kind' : MissileType) (k : ℕ) (q : FifoQueueGestor S) (w : World F S)
      → HasValidCells w
      → ((free used : List ℕ)
          → Represents (gestor_of kind' w).gestor free used
          → IsNew k free used
          → (free' : List ℕ) × (used' : List ℕ) × Represents q free' used' × IsNew k free' used')
      → Owned kind k w
      → Kept kind k w (set_queue fl kind' q w)
  queued-Kept attacker attacker k q w cells keep o =
      let (free, used, lists, mine) = keep o.free o.used o.lists o.mine in
      record {
        cells = cells;
        alike = same-MovesAlike _ _ refl;
        owned = record { free = free; used = used; lists = lists; mine = mine };
      }
  queued-Kept defender defender k q w cells keep o =
      let (free, used, lists, mine) = keep o.free o.used o.lists o.mine in
      record {
        cells = cells;
        alike = same-MovesAlike _ _ refl;
        owned = record { free = free; used = used; lists = lists; mine = mine };
      }
  queued-Kept attacker defender k q w cells keep o = record {
    cells = cells;
    alike = same-MovesAlike _ _ refl;
    owned = record { free = o.free; used = o.used; lists = o.lists; mine = o.mine };
  }
  queued-Kept defender attacker k q w cells keep o = record {
    cells = cells;
    alike = same-MovesAlike _ _ refl;
    owned = record { free = o.free; used = o.used; lists = o.lists; mine = o.mine };
  }

  -- An index that is taken from a queue leaves the others in use.
  pub Takes-Kept :
      (kind kind' : MissileType) (k k' : ℕ) (w : World F S) (q : FifoQueueGestor S)
      → Takes w kind' q k'
      → HasValidCells w
      → Owned kind k w
      → Kept kind k w (set_queue fl kind' q w)
  Takes-Kept kind kind' k k' w q taken cells o =
      queued-Kept kind kind' k q w cells
        (λ free used r new.
          let g = Takes-Given free used taken r in
          (g.free_left, g.used_left, g.lists, g.keeps k new))
        o

  -- A change of another missile.
  pub set_missile-Kept :
      (kind kind' : MissileType) (k k' : ℕ) (m : Missile F S) (w : World F S)
      → IsOther kind k kind' k'
      → HasValidCells w
      → Owned kind k w
      → Kept kind k w (set_missile kind' k' m w)
  set_missile-Kept kind kind' k k' m w other cells o = record {
    cells = set_missile-cells kind' k' m w cells;
    alike = same-MovesAlike _ _ (set_missile-other kind kind' k k' m w other);
    owned =
        SameQueues-Owned kind k w (set_missile kind' k' m w) (set_missile-SameQueues kind' k' m w)
          o;
  }

  pub launches_atk-Kept :
      (kind : MissileType) (k : ℕ) (draws : Draws F) (thread : ℤ) (k' : ℕ) (w w' : World F S)
      (call : TaskCall)
      → IsOther kind k attacker k'
      → k' < max_missiles
      → launch_atk_missile fl draws thread (pos k') w ≡ ok (w', call)
      → HasValidCells w
      → Owned kind k w
      → Kept kind k w w'
  launches_atk-Kept kind k draws thread k' w w' call other lt h cells o =
      let m =
        init_atk_missile fl draws.start draws.speed draws.angle (pos k')
          (missile_at attacker w k') in
      subst (Kept kind k w) (launch_atk_missile-ok fl k' lt thread w draws w' call h)
        (set_missile-Kept kind attacker k k' m w other cells o)

  pub launches_def-Kept :
      (kind : MissileType) (k : ℕ) (thread : ℤ) (k' : ℕ) (w w' : World F S) (call : TaskCall)
      → IsOther kind k defender k'
      → k' < max_missiles
      → launch_def_missile fl thread (pos k') w ≡ ok (w', call)
      → HasValidCells w
      → Owned kind k w
      → Kept kind k w w'
  launches_def-Kept kind k thread k' w w' call other lt h cells o =
      let m = init_def_missile fl (pos k') (missile_at defender w k') in
      subst (Kept kind k w) (launch_def_missile-ok fl k' lt thread w w' call h)
        (set_missile-Kept kind defender k k' m w other cells o)

  pub starts-Kept :
      (kind : MissileType) (k k' : ℕ) (start_x : ℤ) (w : World F S)
      → IsOther kind k defender k'
      → HasValidCells w
      → Owned kind k w
      → Kept kind k w (started fl k' start_x w)
  starts-Kept kind k k' start_x w other cells o =
      set_missile-Kept kind defender k k'
        (set_missile_trajectory fl start_x (missile_at defender w k')) w other cells o
