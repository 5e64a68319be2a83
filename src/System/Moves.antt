-- ===== src/System/Moves.antt =====
-- What each move of the whole program gives the thread that makes it.
use patriots_rtes.Prelude.{
  ℕ, ◌<◌, ◌≡◌, refl, Bool, true, false, ◌||◌, inl, inr, ◌⊎◌, ℤ, pos, List, Result, ok, arith, sym,
  ap, ◌∙◌, subst, >>=-eq-ok, update_self,
}
use patriots_rtes.Config.{xwin, def_missile_start_y}
use patriots_rtes.Platform.{Semaphore, Floating}
use patriots_rtes.World.{
  MissileType, attacker, defender, Missile, FifoQueueGestor, World, gestor_of, missile_at,
  set_missile, set_gestor,
}
use patriots_rtes.Fifo.{request_atk_launch}
use patriots_rtes.Fifo.Given.{Given}
use patriots_rtes.Collision.Scan.{Outcome}
use patriots_rtes.Collision.Valid.{HasValidCells}
use patriots_rtes.Tracking.Total.{search_screen_for_target-Fine}
use patriots_rtes.Tasks.{TaskCall}
use patriots_rtes.Lifecycle.{
  clear_missile, move_missile, init_def_missile, set_missile_trajectory, init_atk_missile,
  set_random_start,
}
use patriots_rtes.Lifecycle.Rounds.{Moving}
use patriots_rtes.Movement.{task_round, clear_task}
use patriots_rtes.Movement.Round.{task_round-RoundDone}
use patriots_rtes.Movement.Threads.{started}
use patriots_rtes.Movement.Ending.{Owned, SameQueues-Owned}
use patriots_rtes.Launchers.{Draws, set_queue, launch_atk_missile, launch_def_missile}
use patriots_rtes.Launchers.Rounds.{to_int-of_int}
use patriots_rtes.Launchers.Starts.{launch_atk_missile-ok, launch_def_missile-ok}
use patriots_rtes.System.{Quiet, requests, waits, waits_for_def, searches}
use patriots_rtes.System.Whole.{samples, flies, after_round}
use patriots_rtes.System.Phases.{At}

module _ {F D S : Type 0} (fl : Floating F D) ⦃s : Semaphore S⦄ where
  pub Quiet-cells : {w w' : World F S} → Quiet fl w w' → HasValidCells w → HasValidCells w'
  Quiet-cells {w} {w'} (requests h) cells =
      let (g, e, rest) = >>=-eq-ok (request_atk_launch w.atk_gestor.gestor) _ h in
      let last : ◌≡◌ {A = Result (World F S)} (ok (set_queue fl attacker g w)) (ok w') = rest in
      let same : set_queue fl attacker g w ≡ w' = cc in subst HasValidCells same cells
  Quiet-cells (waits h) cells = cells
  Quiet-cells (waits_for_def h) cells = cells
  Quiet-cells {w} {w'} (searches getpixel target {c = c} h) cells =
      let (p, e, valid) = search_screen_for_target-Fine getpixel target w cells in
      let both : ◌≡◌ {A = Outcome F S} (ok p) (ok (w', c)) = sym e ∙ h in
      let same : p.0 ≡ w' = cc in subst HasValidCells same valid

  pub round-At :
      (kind : MissileType) (k : ℕ) (deltatime : F) (stop : Bool) (w w' : World F S) (c : Bool)
      → At flies kind k w
      → task_round fl kind k deltatime w ≡ ok (w', c)
      → At (after_round (c || stop)) kind k w' × HasValidCells w'
  unfolding move_missile
  round-At kind k deltatime stop w w' c (o, index, moving) h =
      let r = task_round-RoundDone fl kind k deltatime w moving in
      let e : ◌≡◌ {A = Outcome F S} (ok (r.world, r.collided)) (ok (w', c)) = sym r.returns ∙ h in
      let same : r.world ≡ w' = cc in
      let flag : r.collided ≡ c = cc in
      (
        subst (λ z. At (after_round (c || stop)) kind k z) same
            (by_flag r.world (c || stop) (SameQueues-Owned kind k w r.world r.queues o)
              (r.alike.index ∙ index) (goes_on flag r.again)),
        subst HasValidCells same r.cells,
      )
    where
      goes_on :
          {b : Bool} {u : World F S}
          → b ≡ c
          → (b ≡ true) ⊎ Moving (missile_at kind u k) u
          → (c || stop) ≡ false
          → Moving (missile_at kind u k) u
      goes_on flag (inl hit) off = absurd (ground (arith, flag, hit, off))
      goes_on flag (inr more) off = more

      by_flag :
          (u : World F S) (b : Bool)
          → Owned kind k u
          → (missile_at kind u k).index ≡ pos k
          → (b ≡ false → Moving (missile_at kind u k) u)
          → At (after_round b) kind k u
      by_flag u true own e more = (own, e)
      by_flag u false own e more = (own, e, more refl)

  pub clear-cells :
      (kind : MissileType) (k : ℕ) (w w' : World F S)
      → clear_task fl kind k w ≡ ok w'
      → HasValidCells w
      → HasValidCells w'
  unfolding clear_task
  clear-cells kind k w w' h cells =
      let g = gestor_of kind w in
      let (p, e, rest) = >>=-eq-ok (clear_missile fl (g.queue k) g.gestor) _ h in
      let v = set_missile kind k p.0 (set_gestor kind (record g { gestor = p.1 }) w) in
      let last : ◌≡◌ {A = Result (World F S)} (ok v) (ok w') = rest in
      let same : v ≡ w' = cc in subst HasValidCells same (by_kind kind p.0 p.1)
    where
      by_kind :
          (t : MissileType) (m : Missile F S) (q : FifoQueueGestor S)
          → HasValidCells
              (set_missile t k m (set_gestor t (record (gestor_of t w) { gestor = q }) w))
      by_kind attacker m q = cells
      by_kind defender m q = cells

  pub set_queue-cells :
      (kind : MissileType) (q : FifoQueueGestor S) (w : World F S)
      → HasValidCells w
      → HasValidCells (set_queue fl kind q w)
  set_queue-cells attacker q w cells = cells
  set_queue-cells defender q w cells = cells

  -- An index that has been given is in use.
  pub Given-Owned :
      (kind : MissileType) (k : ℕ) (w : World F S) (q : FifoQueueGestor S) {free used : List ℕ}
      → Given free used q k
      → Owned kind k (set_queue fl kind q w)
  Given-Owned attacker k w q g = record {
    free = g.free_left;
    used = g.used_left;
    lists = g.lists;
    mine = g.mine;
  }
  Given-Owned defender k w q g = record {
    free = g.free_left;
    used = g.used_left;
    lists = g.lists;
    mine = g.mine;
  }

  pub launch_atk-At :
      (draws : Draws F) (thread : ℤ) (k x : ℕ) (w w' : World F S) (call : TaskCall)
      → Owned attacker k w
      → launch_atk_missile fl draws thread (pos k) w ≡ ok (w', call)
      → (missile_at attacker w' k).x ≡ pos x
      → x < xwin
      → HasValidCells w
      → At flies attacker k w' × HasValidCells w'
  unfolding init_atk_missile set_random_start
  launch_atk-At draws thread k x w w' call o h at_x lt cells =
      let m =
        init_atk_missile fl draws.start draws.speed draws.angle (pos k) (missile_at attacker w k) in
      let v = set_missile attacker k m w in
      let same : v ≡ w' = launch_atk_missile-ok fl k o.mine.0 thread w draws w' call h in
      let own : missile_at attacker v k ≡ m = update_self w.atk_gestor.queue k m in
      let index : (missile_at attacker v k).index ≡ pos k = ap (λ (z : Missile F S). z.index) own in
      subst (λ z. At flies attacker k z × HasValidCells z) same
        (
          (
            SameQueues-Owned attacker k w v (refl, refl) o,
            index,
            record {
              index = (k, index, o.mine.0);
              window = record {
                x = x;
                y = 8;
                at_x = subst (λ z. (missile_at attacker z k).x ≡ pos x) (sym same) at_x;
                at_y = ap (λ (z : Missile F S). z.y) own ∙ to_int-of_int fl 8 (omega arith);
                in_x = lt;
                in_y = omega arith;
              };
              cells = cells;
            },
          ),
          cells,
        )

  pub start-At :
      (k c : ℕ) (w : World F S)
      → At samples defender k w
      → c < xwin
      → HasValidCells w
      → At flies defender k (started fl k (pos c) w)
  unfolding set_missile_trajectory
  start-At k c w (o, e) lt cells =
      let m = set_missile_trajectory fl (pos c) (missile_at defender w k) in
      let u = started fl k (pos c) w in
      let own : missile_at defender u k ≡ m = update_self w.def_gestor.queue k m in
      let index : (missile_at defender u k).index ≡ pos k =
        ap (λ (z : Missile F S). z.index) own ∙ e in
      (
        SameQueues-Owned defender k w u (refl, refl) o,
        index,
        record {
          index = (k, index, o.mine.0);
          window = record {
            x = c;
            y = def_missile_start_y;
            at_x = ap (λ (z : Missile F S). z.x) own;
            at_y = ap (λ (z : Missile F S). z.y) own;
            in_x = lt;
            in_y = omega arith;
          };
          cells = cells;
        },
      )

  pub launch_def-At :
      (thread : ℤ) (k : ℕ) (w w' : World F S) (call : TaskCall)
      → Owned defender k w
      → launch_def_missile fl thread (pos k) w ≡ ok (w', call)
      → HasValidCells w
      → At samples defender k w' × HasValidCells w'
  unfolding init_def_missile
  launch_def-At thread k w w' call o h cells =
      let m = init_def_missile fl (pos k) (missile_at defender w k) in
      let same = launch_def_missile-ok fl k o.mine.0 thread w w' call h in
      subst (λ z. At samples defender k z × HasValidCells z) same
        (
          (
            SameQueues-Owned defender k w (set_missile defender k m w) (refl, refl) o,
            ap (λ (z : Missile F S). z.index) (update_self w.def_gestor.queue k m),
          ),
          cells,
        )
