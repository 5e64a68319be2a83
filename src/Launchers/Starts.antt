-- ===== src/Launchers/Starts.antt =====
-- What a launcher does to the world: it takes an index, and launches the missile of the index.
use patriots_rtes.Prelude.{ℕ, ◌<◌, ◌≡◌, ◌≤ℤ◌, ℤ, pos, List, ok, arith, in_range_pos}
use patriots_rtes.Config.{max_missiles}
use patriots_rtes.Platform.{Semaphore, Floating}
use patriots_rtes.World.{
  MissileType, attacker, defender, FifoQueueGestor, World, gestor_of, missile_at, set_missile,
}
use patriots_rtes.Fifo.{
  granted, get_next_index, get_next_index_woken, request_def_index, request_def_index_woken,
}
use patriots_rtes.Fifo.Refinement.{Represents}
use patriots_rtes.Fifo.Given.{
  Given, get_next_index-Given, get_next_index_woken-Given, request_def_index-Given,
  request_def_index_woken-Given,
}
use patriots_rtes.Lifecycle.{init_atk_missile, init_def_missile}
use patriots_rtes.Tasks.{TaskCall, launch_atk_thread, launch_def_thread}
use patriots_rtes.Launchers.{Draws, launch_atk_missile, launch_def_missile}

module _ {F S : Type 0} where
  -- The queue of a kind is well formed.
  pub record Queued (kind : MissileType) (w : World F S) : Type 0 where
    pub free : List ℕ
    pub used : List ℕ
    pub lists : Represents (gestor_of kind w).gestor free used

module _ {F S : Type 0} ⦃s : Semaphore S⦄ where
  -- A launcher is given an index of its queue, without a wait or after one.
  pub data Takes (w : World F S) : MissileType → FifoQueueGestor S → ℕ → Type 0 where
    asks :
        {q : FifoQueueGestor S} {k : ℕ}
        → get_next_index w.atk_gestor.gestor ≡ ok (q, granted (pos k))
        → Takes w attacker q k
    wakes :
        {q : FifoQueueGestor S} {k : ℕ}
        → get_next_index_woken w.atk_gestor.gestor ≡ ok (q, pos k)
        → Takes w attacker q k
    asks_for_def :
        {q : FifoQueueGestor S} {k : ℕ}
        → request_def_index w.def_gestor.gestor ≡ ok (q, granted (pos k))
        → Takes w defender q k
    wakes_for_def :
        {q : FifoQueueGestor S} {k : ℕ}
        → request_def_index_woken w.def_gestor.gestor ≡ ok (q, pos k)
        → Takes w defender q k

  pub Takes-Given :
      {w : World F S} {kind : MissileType} {q : FifoQueueGestor S} {k : ℕ} (free used : List ℕ)
      → Takes w kind q k
      → Represents (gestor_of kind w).gestor free used
      → Given free used q k
  Takes-Given {w} {q = q} {k = k} free used (asks h) r =
      get_next_index-Given w.atk_gestor.gestor q free used k r h
  Takes-Given {w} {q = q} {k = k} free used (wakes h) r =
      get_next_index_woken-Given w.atk_gestor.gestor q free used k r h
  Takes-Given {w} {q = q} {k = k} free used (asks_for_def h) r =
      request_def_index-Given w.def_gestor.gestor q free used k r h
  Takes-Given {w} {q = q} {k = k} free used (wakes_for_def h) r =
      request_def_index_woken-Given w.def_gestor.gestor q free used k r h

module _ {F D S : Type 0} (fl : Floating F D) ⦃s : Semaphore S⦄ (k : ℕ)
    (in_queue : k < max_missiles) (thread : ℤ) (w : World F S) where
  -- The world after the launch of an attacker, and of a defender.
  abbrev pub with_attacker : Draws F → World F S
  with_attacker draws =
      set_missile attacker k
        (init_atk_missile fl draws.start draws.speed draws.angle (pos k) (missile_at attacker w k))
        w

  abbrev pub with_defender : World F S
  with_defender = set_missile defender k (init_def_missile fl (pos k) (missile_at defender w k)) w

  pub launch_atk_missile_lem :
      (draws : Draws F)
      → pos 0 ≤ℤ thread
      → launch_atk_missile fl draws thread (pos k) w ≡ ok (with_attacker draws, launch_atk_thread k)
  unfolding launch_atk_missile
  launch_atk_missile_lem draws created = ground (arith, in_range_pos max_missiles k in_queue)

  pub launch_def_missile_lem :
      pos 0 ≤ℤ thread
      → launch_def_missile fl thread (pos k) w ≡ ok (with_defender, launch_def_thread k)
  unfolding launch_def_missile
  launch_def_missile_lem created = ground (arith, in_range_pos max_missiles k in_queue)

  pub launch_atk_missile-ok :
      (draws : Draws F) (w' : World F S) (call : TaskCall)
      → launch_atk_missile fl draws thread (pos k) w ≡ ok (w', call)
      → with_attacker draws ≡ w'
  unfolding launch_atk_missile
  launch_atk_missile-ok draws w' call h = ground (arith, in_range_pos max_missiles k in_queue, h)

  pub launch_def_missile-ok :
      (w' : World F S) (call : TaskCall)
      → launch_def_missile fl thread (pos k) w ≡ ok (w', call)
      → with_defender ≡ w'
  unfolding launch_def_missile
  launch_def_missile-ok w' call h = ground (arith, in_range_pos max_missiles k in_queue, h)
