-- ===== src/Movement/Threads.antt =====
-- The whole thread of an attacker and of a defender: it ends, and its index is free again.
use patriots_rtes.Prelude.{
  ℕ, ◌≤◌, ◌<◌, ◌≡◌, refl, ◌==◌, if◌then◌else◌, Bool, true, false, ℤ, pos, Option, some, Result, ok,
  arith, sym, ap, ◌∙◌, subst, List, ◌∷◌, update_self,
}
use patriots_rtes.Config.{
  none_index, atk_missile_period, def_missile_period, def_missile_start_y, xwin,
}
use patriots_rtes.Platform.{Semaphore, Floating}
use patriots_rtes.World.{
  MissileType, attacker, defender, Missile, MissileGestor, FifoQueueGestor, World, gestor_of,
  missile_at, set_missile, set_gestor,
}
use patriots_rtes.Collision.Valid.{HasValidCells}
use patriots_rtes.Fifo.{post_mutex, post_write}
use patriots_rtes.Fifo.Refinement.{Represents, spliced}
use patriots_rtes.Lifecycle.{init_empty_missile, get_deltatime, set_missile_trajectory}
use patriots_rtes.Lifecycle.Rounds.{clear_missile-Represents}
use patriots_rtes.Trajectory.Sampling.{Reading, get_start_x_position}
use patriots_rtes.Movement.{
  clear_task, atk_thread, def_thread, movement_loop, task_missile_movement, then_clear,
}
use patriots_rtes.Movement.Round.{set_missile_self, set_missile-cells, set_missile-SameQueues}
use patriots_rtes.Movement.Ending.{
  Owned, Keeps, Running, LeavesAfter, LoopDone, movement_loop-LoopDone, movement_loop-stops,
  SameQueues-Owned,
}

module _ {F D S : Type 0} (fl : Floating F D) ⦃s : Semaphore S⦄ (kind : MissileType) (k : ℕ) where
  -- The thread has returned: the structure of its missile is empty and not deleted, and its index is
  -- the first free one.
  pub record Returned (r : Option (Result (World F S))) : Type 0 where
    pub world : World F S
    pub returns : r ≡ some (ok world)
    pub no_index : (missile_at kind world k).index ≡ none_index
    pub alive : (missile_at kind world k).deleted ≡ false
    pub free : List ℕ
    pub used : List ℕ
    pub lists : Represents (gestor_of kind world).gestor (k ∷ free) used

  pub posted-Represents :
      (b : Bool) (g : FifoQueueGestor S) (free used : List ℕ)
      → Represents g free used
      → Represents (if b then post_mutex g else post_write g) free used
  posted-Represents true g free used r = record {
    free_chain = r.free_chain;
    used_chain = r.used_chain;
    tail_last = r.tail_last;
    distinct = r.distinct;
  }
  posted-Represents false g free used r = record {
    free_chain = r.free_chain;
    used_chain = r.used_chain;
    tail_last = r.tail_last;
    distinct = r.distinct;
  }

  set_both-missile :
      (m : Missile F S) (g : MissileGestor F S) (w : World F S)
      → (missile_at kind (set_missile kind k m (set_gestor kind g w)) k ≡ m)
        × ((gestor_of kind (set_missile kind k m (set_gestor kind g w))).gestor ≡ g.gestor)
  set_both-missile m g w = by_kind kind
    where
      by_kind :
          (t : MissileType)
          → (missile_at t (set_missile t k m (set_gestor t g w)) k ≡ m)
            × ((gestor_of t (set_missile t k m (set_gestor t g w))).gestor ≡ g.gestor)
      by_kind attacker = (update_self g.queue k m, refl)
      by_kind defender = (update_self g.queue k m, refl)

  pub clear_task-Returned :
      (w : World F S)
      → Owned kind k w
      → (missile_at kind w k).index ≡ pos k
      → Returned (some (clear_task fl kind k w))
  unfolding clear_task init_empty_missile
  clear_task-Returned w o e =
      let m = missile_at kind w k in
      let g = gestor_of kind w in
      let (done, lists) = clear_missile-Represents fl m g.gestor o.free o.used k e o.lists o.mine in
      let pushed = spliced g.gestor o.free o.used k in
      let last = if g.gestor.write_sem.blk == 0 then post_mutex pushed else post_write pushed in
      let (own, queue) =
        set_both-missile (init_empty_missile fl m) (record g { gestor = last }) w in
      record {
        world =
            set_missile kind k (init_empty_missile fl m)
              (set_gestor kind (record g { gestor = last }) w);
        returns = rw done refl;
        no_index = ap (λ (u : Missile F S). u.index) own;
        alive = ap (λ (u : Missile F S). u.deleted) own;
        free = o.free;
        used = o.used;
        lists =
            subst (λ q. Represents q (k ∷ o.free) o.used) (sym queue)
              (posted-Represents (g.gestor.write_sem.blk == 0) pushed (k ∷ o.free) o.used lists);
      }

  module _ (ended : ℕ → Bool) (others : ℕ → World F S → World F S)
      (waited : World F S → World F S) where
    then_clear-Returned :
        (deltatime : F) (keep : (j : ℕ) → Keeps kind k (others j)) (fuel : ℕ) (w : World F S)
        → Keeps kind k waited
        → (missile_at kind w k).index ≡ pos k
        → LoopDone fl kind k deltatime ended others keep fuel 0 w
        → Returned
            (then_clear fl kind k waited (movement_loop fl ended others kind k deltatime fuel 0 w))
    then_clear-Returned deltatime keep fuel w keep_waited e d =
        let kept = keep_waited d.world d.cells d.owned in
        subst (λ r. Returned (then_clear fl kind k waited r)) (sym d.returns)
          (clear_task-Returned (waited d.world) kept.owned (kept.alike.index ∙ (d.index ∙ e)))

module _ {F D S : Type 0} (fl : Floating F D) ⦃s : Semaphore S⦄ (k : ℕ) where
  -- An attacker's thread that runs in the window, with its index in use, ends with the missile cleared
  -- and its index free, if its missile would leave the window after `n` moves: `n` rounds are enough,
  -- whatever the flag `end` is and whatever the others do between the rounds, as long as they leave this
  -- missile's motion, the use of its index and valid cells.
  pub atk_thread-Returned :
      (ended : ℕ → Bool) (others : ℕ → World F S → World F S) (waited : World F S → World F S)
      (n fuel : ℕ) (w : World F S)
      → ((j : ℕ) → Keeps attacker k (others j))
      → Keeps attacker k waited
      → Running fl attacker k (get_deltatime fl (pos atk_missile_period)) w
      → (missile_at attacker w k).index ≡ pos k
      → LeavesAfter fl attacker k
          (get_deltatime fl (pos atk_missile_period))
          n
          (missile_at attacker w k)
      → n ≤ fuel
      → Returned fl attacker k (atk_thread fl ended others waited k fuel w)
  unfolding atk_thread
  atk_thread-Returned ended others waited n fuel w keep keep_waited run e out le =
      then_clear-Returned fl attacker k ended others waited
        (get_deltatime fl (pos atk_missile_period)) keep fuel w keep_waited e
        (movement_loop-LoopDone fl attacker k (get_deltatime fl (pos atk_missile_period)) ended
          others keep n fuel 0 w le run out)

  -- The structure of a defender once its start is known.
  abbrev pub started : ℤ → World F S → World F S
  started start_x v =
      set_missile defender k (set_missile_trajectory fl start_x (missile_at defender v k)) v

  -- A defender's thread whose index is in use and whose samples give a start in the window ends with the
  -- missile cleared and its index free, if the missile, placed at that start, would leave the window
  -- after `n` moves: `n` rounds are enough, whatever the flag `end` is and whatever the others do during
  -- the sampling, between the rounds and while the thread waits, as long as they leave this missile's
  -- motion, the use of its index and valid cells.
  pub def_thread-Returned :
      (ended : ℕ → Bool) (others : ℕ → World F S → World F S)
      (sampled waited : World F S → World F S) (n fuel : ℕ) (start : Reading)
      (readings : ℕ → Reading) (c : ℕ) (w : World F S)
      → ((j : ℕ) → Keeps defender k (others j))
      → Keeps defender k sampled
      → Keeps defender k waited
      → HasValidCells w
      → Owned defender k w
      → (missile_at defender w k).index ≡ pos k
      → get_start_x_position fl start readings ≡ ok (pos c)
      → c < xwin
      → LeavesAfter fl defender k
          (get_deltatime fl (pos def_missile_period))
          n
          (missile_at defender (started (pos c) (sampled w)) k)
      → n ≤ fuel
      → Returned fl defender k (def_thread fl ended others sampled waited start readings k fuel w)
  unfolding def_thread set_missile_trajectory
  def_thread-Returned ended others sampled waited n fuel start readings c w keep keep_sampled
        keep_waited cells owned e found lt out le =
      let kept = keep_sampled w cells owned in
      let v = sampled w in
      let u = started (pos c) v in
      let own =
        set_missile_self defender k (set_missile_trajectory fl (pos c) (missile_at defender v k))
          v in
      let own_index = ap (λ (m : Missile F S). m.index) own ∙ (kept.alike.index ∙ e) in
      let mine =
        SameQueues-Owned defender k v u
          (set_missile-SameQueues defender k
            (set_missile_trajectory fl (pos c) (missile_at defender v k)) v)
          kept.owned in
      let run : Running fl defender k (get_deltatime fl (pos def_missile_period)) u = record {
        moving = record {
          index = (k, own_index, owned.mine.0);
          window = record {
            x = c;
            y = def_missile_start_y;
            at_x = ap (λ (m : Missile F S). m.x) own;
            at_y = ap (λ (m : Missile F S). m.y) own;
            in_x = lt;
            in_y = omega arith;
          };
          cells =
              set_missile-cells defender k
                (set_missile_trajectory fl (pos c) (missile_at defender v k)) v kept.cells;
        };
        owned = mine;
      } in
      rw (found, def_thread)
        (then_clear-Returned fl defender k ended others waited
          (get_deltatime fl (pos def_missile_period)) keep fuel u keep_waited own_index
          (movement_loop-LoopDone fl defender k (get_deltatime fl (pos def_missile_period)) ended
            others keep n fuel 0 u le run out))

-- The thread of either kind, from its loop on: if the flag `end` is set when round `n` ends, `n + 1`
-- rounds are enough, however long the missile would stay in the window. The thread ends with the missile
-- cleared and its index free, if it runs in the window with its index in use, and the others leave this
-- missile's motion, the use of its index and valid cells.
pub thread-Stops :
    {F D S : Type 0} (fl : Floating F D) ⦃s : Semaphore S⦄ (kind : MissileType) (k : ℕ) (period : ℤ)
    (ended : ℕ → Bool) (others : ℕ → World F S → World F S) (waited : World F S → World F S)
    (n fuel : ℕ) (w : World F S)
    → ((j : ℕ) → Keeps kind k (others j))
    → Keeps kind k waited
    → Running fl kind k (get_deltatime fl period) w
    → (missile_at kind w k).index ≡ pos k
    → ended n ≡ true
    → n < fuel
    → Returned fl kind k
        (then_clear fl kind k waited (task_missile_movement fl ended others kind k period fuel w))
unfolding task_missile_movement
thread-Stops fl kind k period ended others waited n fuel w keep keep_waited run e set lt =
    then_clear-Returned fl kind k ended others waited (get_deltatime fl period) keep fuel w
      keep_waited e
      (movement_loop-stops fl kind k (get_deltatime fl period) ended others keep n fuel 0 w lt run
        (subst (λ j. ended j ≡ true) (omega arith) set))
