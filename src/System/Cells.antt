-- ===== src/System/Cells.antt =====
-- The cells of the grid follow the missiles in the whole program, until `end` is set.
use patriots_rtes.Prelude.{
  ℕ, ◌≡◌, Bool, pos, ℤ, ok, inl, ap, ◌∙◌, subst, Result, >>=-eq-ok, update_self,
}
use patriots_rtes.Platform.{Semaphore, Floating}
use patriots_rtes.World.{
  MissileType, attacker, defender, Missile, FifoQueueGestor, World, gestor_of, missile_at,
  set_missile,
}
use patriots_rtes.Tasks.{TaskCall}
use patriots_rtes.Lifecycle.{
  clear_missile, init_def_missile, set_missile_trajectory, init_atk_missile, set_random_start,
}
use patriots_rtes.Movement.{clear_task}
use patriots_rtes.Movement.Ending.{Kept}
use patriots_rtes.Movement.Threads.{started}
use patriots_rtes.Launchers.{Draws, set_queue, launch_atk_missile, launch_def_missile}
use patriots_rtes.System.{IsOther}
use patriots_rtes.System.Others.{set_missile-other, ends-Kept}
use patriots_rtes.System.Keeps.{Takes-Kept, set_missile-Kept, starts-Kept}
use patriots_rtes.System.Runs.{Quiet-Kept}
use patriots_rtes.Launchers.Starts.{
  Takes, Takes-Given, launch_atk_missile-ok, launch_def_missile-ok,
}
use patriots_rtes.System.{Quiet}
use patriots_rtes.System.Whole.{Phase, away, held, samples, flies, ended, State, enters}
use patriots_rtes.System.Phases.{At, Good}
use patriots_rtes.System.Unmoved.{SameCells, set_missile-SameCells, set_queue-same, Quiet-same}
use patriots_rtes.System.Places.{
  spot, spots, HasKind, Tracked, nowhere-Gone, Follows-as, spot-Kept, HasKind-Kept, unused-Gone,
  acts-Tracked,
}

module _ {F D S : Type 0} (fl : Floating F D) ⦃s : Semaphore S⦄ where
  pub quiet-Tracked :
      (w w' : World F S) (phase : MissileType → ℕ → Phase) (stop : Bool)
      → Quiet fl w w'
      → Good (record { world = w; phase = phase; end = stop })
      → Tracked (record { world = w; phase = phase; end = stop })
      → Tracked (record { world = w'; phase = phase; end = stop })
  quiet-Tracked w w' phase stop move g t =
      let before : State F S = record { world = w; phase = phase; end = stop } in
      let after : State F S = record { world = w'; phase = phase; end = stop } in
      let (cells, flags) = Quiet-same fl move g.cells in
      record {
        follows =
            Follows-as (spots before) (spots after) w w' cells
              (λ kind k. inl (
                spot-Kept (phase kind k) kind k w w' (Quiet-Kept fl move g.cells kind k)
                    (g.at kind k),
                flags kind k,
              ))
              t.follows;
        kinds = λ kind k.
            HasKind-Kept (phase kind k) kind k w w' (Quiet-Kept fl move g.cells kind k)
              (g.at kind k) (t.kinds kind k);
      }

  SameFlags-other :
      (kind' : MissileType) (k' : ℕ) (m : Missile F S) (w : World F S)
      → (kind : MissileType) (k : ℕ) → IsOther kind k kind' k'
      → (missile_at kind (set_missile kind' k' m w) k).deleted ≡ (missile_at kind w k).deleted
  SameFlags-other kind' k' m w kind k other =
      ap (λ (u : Missile F S). u.deleted) (set_missile-other kind kind' k k' m w other)

  pub finish-Tracked :
      (kind : MissileType) (k : ℕ) (w w' : World F S) (phase : MissileType → ℕ → Phase)
      (stop : Bool)
      → phase kind k ≡ ended
      → clear_task fl kind k w ≡ ok w'
      → Good (record { world = w; phase = phase; end = stop })
      → Tracked (record { world = w; phase = phase; end = stop })
      → Tracked (record { world = w'; phase = enters kind k away phase; end = stop })
  unfolding clear_task
  finish-Tracked kind k w w' phase stop e h g t =
      let mine = subst (λ p. At p kind k w) e (g.at kind k) in
      let before : State F S = record { world = w; phase = phase; end = stop } in
      let (p, cleared, rest) =
        >>=-eq-ok (clear_missile fl (missile_at kind w k) (gestor_of kind w).gestor) _ h in
      let v = set_queue fl kind p.1 w in
      let last : ◌≡◌ {A = Result (World F S)} (ok (set_missile kind k p.0 v)) (ok w') = rest in
      let same : set_missile kind k p.0 v ≡ w' = cc in
      let (queue_cells, queue_flags) = set_queue-same fl kind p.1 w in
      acts-Tracked kind k away w w' phase stop
        (subst (SameCells w) same
          (λ kind2 j a b. set_missile-SameCells kind k p.0 v kind2 j a b ∙ queue_cells kind2 j a b))
        (λ kind2 j other.
          subst (λ z. (missile_at kind2 z j).deleted ≡ (missile_at kind2 w j).deleted) same
            (SameFlags-other kind k p.0 v kind2 j other ∙ queue_flags kind2 j))
        (nowhere-Gone (spots before) kind k w t.follows (ap (λ p. spot p (missile_at kind w k)) e))
        tt (λ kind2 j other o. ends-Kept fl kind2 j kind k w w' other g.cells mine.0 mine.1 h o) g t

  pub take-Tracked :
      (kind : MissileType) (k : ℕ) (w : World F S) (q : FifoQueueGestor S)
      (phase : MissileType → ℕ → Phase) (stop : Bool)
      → Takes w kind q k
      → Good (record { world = w; phase = phase; end = stop })
      → Tracked (record { world = w; phase = phase; end = stop })
      → Tracked
          (record { world = set_queue fl kind q w; phase = enters kind k held phase; end = stop })
  take-Tracked kind k w q phase stop taken g t =
      let (cells, flags) = set_queue-same fl kind q w in
      let before = g.queues kind in
      let given = Takes-Given before.free before.used taken before.lists in
      acts-Tracked kind k held w (set_queue fl kind q w) phase stop cells
        (λ kind2 j other. flags kind2 j)
        (unused-Gone kind k before.free before.used
          (record { world = w; phase = phase; end = stop }) before.lists given.listed g t)
        tt (λ kind2 j other o. Takes-Kept fl kind2 kind j k w q taken g.cells o) g t

  -- A launch fills the structure of a missile that has no cell.
  launched-Tracked :
      (kind : MissileType) (k : ℕ) (p : Phase) (m : Missile F S) (w w' : World F S)
      (phase : MissileType → ℕ → Phase) (stop : Bool)
      → set_missile kind k m w ≡ w'
      → phase kind k ≡ held
      → HasKind p kind (missile_at kind w' k)
      → Good (record { world = w; phase = phase; end = stop })
      → Tracked (record { world = w; phase = phase; end = stop })
      → Tracked (record { world = w'; phase = enters kind k p phase; end = stop })
  launched-Tracked kind k p m w w' phase stop same e of_kind g t =
      let before : State F S = record { world = w; phase = phase; end = stop } in
      acts-Tracked kind k p w w' phase stop
        (subst (SameCells w) same (set_missile-SameCells kind k m w))
        (λ kind2 j other.
          subst (λ z. (missile_at kind2 z j).deleted ≡ (missile_at kind2 w j).deleted) same
            (SameFlags-other kind k m w kind2 j other))
        (nowhere-Gone (spots before) kind k w t.follows (ap (λ p. spot p (missile_at kind w k)) e))
        of_kind
        (λ kind2 j other o.
          subst (Kept kind2 j w) same (set_missile-Kept fl kind2 kind j k m w other g.cells o))
        g t

  pub launch_atk-Tracked :
      (draws : Draws F) (thread : ℤ) (k : ℕ) (w w' : World F S) (phase : MissileType → ℕ → Phase)
      (stop : Bool) (call : TaskCall)
      → phase attacker k ≡ held
      → launch_atk_missile fl draws thread (pos k) w ≡ ok (w', call)
      → Good (record { world = w; phase = phase; end = stop })
      → Tracked (record { world = w; phase = phase; end = stop })
      → Tracked (record { world = w'; phase = enters attacker k flies phase; end = stop })
  unfolding init_atk_missile set_random_start
  launch_atk-Tracked draws thread k w w' phase stop call e h g t =
      let mine = subst (λ p. At p attacker k w) e (g.at attacker k) in
      let m =
        init_atk_missile fl draws.start draws.speed draws.angle (pos k) (missile_at attacker w k) in
      let same = launch_atk_missile-ok fl k mine.mine.0 thread w draws w' call h in
      launched-Tracked attacker k flies m w w' phase stop same e
        (subst (λ z. (missile_at attacker z k).missile_type ≡ attacker) same
          (ap (λ (u : Missile F S). u.missile_type) (update_self w.atk_gestor.queue k m)))
        g t

  pub launch_def-Tracked :
      (thread : ℤ) (k : ℕ) (w w' : World F S) (phase : MissileType → ℕ → Phase) (stop : Bool)
      (call : TaskCall)
      → phase defender k ≡ held
      → launch_def_missile fl thread (pos k) w ≡ ok (w', call)
      → Good (record { world = w; phase = phase; end = stop })
      → Tracked (record { world = w; phase = phase; end = stop })
      → Tracked (record { world = w'; phase = enters defender k samples phase; end = stop })
  unfolding init_def_missile
  launch_def-Tracked thread k w w' phase stop call e h g t =
      let mine = subst (λ p. At p defender k w) e (g.at defender k) in
      let m = init_def_missile fl (pos k) (missile_at defender w k) in
      let same = launch_def_missile-ok fl k mine.mine.0 thread w w' call h in
      launched-Tracked defender k samples m w w' phase stop same e
        (subst (λ z. (missile_at defender z k).missile_type ≡ defender) same
          (ap (λ (u : Missile F S). u.missile_type) (update_self w.def_gestor.queue k m)))
        g t

  pub start-Tracked :
      (k c : ℕ) (w : World F S) (phase : MissileType → ℕ → Phase) (stop : Bool)
      → phase defender k ≡ samples
      → Good (record { world = w; phase = phase; end = stop })
      → Tracked (record { world = w; phase = phase; end = stop })
      → Tracked (record {
        world = started fl k (pos c) w;
        phase = enters defender k flies phase;
        end = stop;
      })
  unfolding set_missile_trajectory
  start-Tracked k c w phase stop e g t =
      let before : State F S = record { world = w; phase = phase; end = stop } in
      let m = set_missile_trajectory fl (pos c) (missile_at defender w k) in
      acts-Tracked defender k flies w (started fl k (pos c) w) phase stop
        (set_missile-SameCells defender k m w) (SameFlags-other defender k m w)
        (nowhere-Gone (spots before) defender k w t.follows
          (ap (λ p. spot p (missile_at defender w k)) e))
        (ap (λ (u : Missile F S). u.missile_type) (update_self w.def_gestor.queue k m)
          ∙ subst (λ p. HasKind p defender (missile_at defender w k)) e (t.kinds defender k))
        (λ kind j other o. starts-Kept fl kind j k (pos c) w other g.cells o) g t
