-- ===== src/System/Queues.antt =====
-- Each move of the whole program leaves well-formed queues.
use patriots_rtes.Prelude.{
  ℕ, ◌≡◌, Bool, ◌∷◌, ok, some, Option, Result, List, sym, ◌∙◌, subst, >>=-eq-ok, pos,
}
use patriots_rtes.Platform.{Semaphore, Floating}
use patriots_rtes.World.{
  MissileType, attacker, defender, Missile, FifoQueueGestor, World, gestor_of, missile_at,
  set_missile,
}
use patriots_rtes.Fifo.{request_atk_launch}
use patriots_rtes.Fifo.Refinement.{Represents}
use patriots_rtes.Fifo.Requests.{requested_lists, request_atk_launch-Requested}
use patriots_rtes.Fifo.Taking.{get_next_index-must_wait, request_def_index-must_wait}
use patriots_rtes.Collision.Frame.{SameQueues}
use patriots_rtes.Collision.Scan.{Outcome}
use patriots_rtes.Collision.Valid.{HasValidCells}
use patriots_rtes.Lifecycle.{clear_missile}
use patriots_rtes.Movement.{task_round, clear_task}
use patriots_rtes.Movement.Round.{set_missile-SameQueues, task_round-RoundDone}
use patriots_rtes.Lifecycle.Rounds.{Moving}
use patriots_rtes.Movement.Ending.{Owned}
use patriots_rtes.Movement.Threads.{clear_task-Returned}
use patriots_rtes.Launchers.{set_queue}
use patriots_rtes.Tracking.Total.{search_screen_for_target-SameQueues}
use patriots_rtes.Launchers.Starts.{Queued}
use patriots_rtes.System.{Quiet, requests, waits, waits_for_def, searches}

module _ {F S : Type 0} where
  pub SameQueues-Queued :
      (kind : MissileType) (w w' : World F S) → SameQueues w w' → Queued kind w → Queued kind w'
  SameQueues-Queued attacker w w' same q = record {
    free = q.free;
    used = q.used;
    lists = subst (λ g. Represents g q.free q.used) (sym same.0) q.lists;
  }
  SameQueues-Queued defender w w' same q = record {
    free = q.free;
    used = q.used;
    lists = subst (λ g. Represents g q.free q.used) (sym same.1) q.lists;
  }

  pub set_missile-Queued :
      (kind kind' : MissileType) (k' : ℕ) (m : Missile F S) (w : World F S)
      → Queued kind w
      → Queued kind (set_missile kind' k' m w)
  set_missile-Queued kind kind' k' m w before =
      SameQueues-Queued kind w (set_missile kind' k' m w) (set_missile-SameQueues kind' k' m w)
        before

module _ {F D S : Type 0} (fl : Floating F D) ⦃s : Semaphore S⦄ where
  -- A queue that is replaced by another well-formed one.
  pub set_queue-Queued :
      (kind kind' : MissileType) (q : FifoQueueGestor S) (free used : List ℕ) (w : World F S)
      → Represents q free used
      → Queued kind w
      → Queued kind (set_queue fl kind' q w)
  set_queue-Queued attacker attacker q free used w r old = record {
    free = free;
    used = used;
    lists = r;
  }
  set_queue-Queued attacker defender q free used w r old = record {
    free = old.free;
    used = old.used;
    lists = old.lists;
  }
  set_queue-Queued defender attacker q free used w r old = record {
    free = old.free;
    used = old.used;
    lists = old.lists;
  }
  set_queue-Queued defender defender q free used w r old = record {
    free = free;
    used = used;
    lists = r;
  }

  pub Quiet-Queued :
      {w w' : World F S}
      → Quiet fl w w'
      → HasValidCells w
      → ((kind : MissileType) → Queued kind w)
      → (kind : MissileType) → Queued kind w'
  Quiet-Queued {w} {w'} (requests h) cells queues kind =
      let (g, e, rest) = >>=-eq-ok (request_atk_launch w.atk_gestor.gestor) _ h in
      let last : ◌≡◌ {A = Result (World F S)} (ok (set_queue fl attacker g w)) (ok w') = rest in
      let same : set_queue fl attacker g w ≡ w' = cc in
      let before = queues attacker in
      let lists = requested_lists before.free before.used w.atk_gestor.gestor.read_sem.blk in
      let r =
        request_atk_launch-Requested w.atk_gestor.gestor before.free before.used before.lists in
      let both : ◌≡◌ {A = Result (FifoQueueGestor S)} (ok r.out) (ok g) = sym r.returns ∙ e in
      let out : r.out ≡ g = cc in
      subst (Queued kind) same (
        set_queue-Queued kind attacker g lists.0 lists.1 w
          (subst (λ z. Represents z lists.0 lists.1) out r.lists) (queues kind))
  Quiet-Queued {w} (waits {q = q} h) cells queues kind =
      let before = queues attacker in
      set_queue-Queued kind attacker q before.free before.used w
        (get_next_index-must_wait w.atk_gestor.gestor q before.free before.used h before.lists)
        (queues kind)
  Quiet-Queued {w} (waits_for_def {q = q} h) cells queues kind =
      let before = queues defender in
      set_queue-Queued kind defender q before.free before.used w
        (request_def_index-must_wait w.def_gestor.gestor q before.free before.used h before.lists)
        (queues kind)
  Quiet-Queued {w} {w'} (searches getpixel target {c = c} h) cells queues kind =
      SameQueues-Queued kind w w'
        (search_screen_for_target-SameQueues getpixel target w w' c cells h) (queues kind)

  pub finish-Queued :
      (kind : MissileType) (k : ℕ) (w w' : World F S)
      → Owned kind k w
      → (missile_at kind w k).index ≡ pos k
      → clear_task fl kind k w ≡ ok w'
      → (kind2 : MissileType) → Queued kind2 w
      → Queued kind2 w'
  unfolding clear_task
  finish-Queued kind k w w' o index h kind2 before =
      let c = clear_task-Returned fl kind k w o index in
      let done : ◌≡◌ {A = Option (Result (World F S))} (some (clear_task fl kind k w))
          (some (ok c.world)) =
        c.returns in
      let both : ◌≡◌ {A = Result (World F S)} (ok c.world) (ok w') = cc in
      let ends : c.world ≡ w' = cc in
      let (p, cleared, rest) =
        >>=-eq-ok (clear_missile fl (missile_at kind w k) (gestor_of kind w).gestor) _ h in
      let last : ◌≡◌ {A = Result (World F S)}
          (ok (set_missile kind k p.0 (set_queue fl kind p.1 w))) (ok w') =
        rest in
      let same : set_missile kind k p.0 (set_queue fl kind p.1 w) ≡ w' = cc in
      subst (Queued kind2) same (
        by_kinds kind kind2 p.0 p.1
          (subst (λ z. Represents (gestor_of kind z).gestor (k ∷ c.free) c.used) (ends ∙ sym same)
            c.lists)
          before)
    where
      by_kinds :
          (t u : MissileType) (m : Missile F S) (q : FifoQueueGestor S) {free used : List ℕ}
          → Represents (gestor_of t (set_missile t k m (set_queue fl t q w))).gestor free used
          → Queued u w
          → Queued u (set_missile t k m (set_queue fl t q w))
      by_kinds attacker attacker m q {free} {used} r old = record {
        free = free;
        used = used;
        lists = r;
      }
      by_kinds attacker defender m q r old = record {
        free = old.free;
        used = old.used;
        lists = old.lists;
      }
      by_kinds defender attacker m q r old = record {
        free = old.free;
        used = old.used;
        lists = old.lists;
      }
      by_kinds defender defender m q {free} {used} r old = record {
        free = free;
        used = used;
        lists = r;
      }

  pub round-Queued :
      (kind : MissileType) (k : ℕ) (deltatime : F) (w w' : World F S) (c : Bool)
      → Moving (missile_at kind w k) w
      → task_round fl kind k deltatime w ≡ ok (w', c)
      → (kind2 : MissileType) → Queued kind2 w
      → Queued kind2 w'
  round-Queued kind k deltatime w w' c moving h kind2 before =
      let r = task_round-RoundDone fl kind k deltatime w moving in
      let ends : ◌≡◌ {A = Outcome F S} (ok (r.world, r.collided)) (ok (w', c)) =
        sym r.returns ∙ h in
      let same : r.world ≡ w' = cc in
      SameQueues-Queued kind2 w w' (subst (SameQueues w) same r.queues) before
