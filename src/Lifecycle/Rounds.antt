-- ===== src/Lifecycle/Rounds.antt =====
-- What the operations on one missile keep: the queue of indices, and the invariant of the loop of
-- `task_missile_movement`.
use patriots_rtes.Prelude.{
  ℕ, zero, suc, ◌-◌, ◌≤◌, ◌<◌, ◌≡◌, refl, ◌==◌, if◌then◌else◌, update, Bool, true, ltb, leb, ◌&&◌,
  pos, Result, ok, arith, subst, sym, List, [], ◌∷◌, ◌⊎◌, inl, inr, Bool-cases,
}
use patriots_rtes.Config.{max_missiles}
use patriots_rtes.Platform.{Semaphore, Floating}
use patriots_rtes.World.{Missile, FifoQueueGestor, MissileGestor, World}
use patriots_rtes.Fifo.{post_mutex, post_write}
use patriots_rtes.Fifo.Refinement.{
  Represents, init_queue-Represents, splice_index-Represents, spliced,
}
use patriots_rtes.Fifo.Refinement.{IsNew}
use patriots_rtes.Collision.{update_missile_env}
use patriots_rtes.Collision.Update.{InWindow, update_missile_env-InWindow}
use patriots_rtes.Collision.Valid.{HasValidCells, HasIndex, update_missile_env-Fine}
use patriots_rtes.Lifecycle.{
  init_empty_missile, init_missiles, init_missiles_gestor, clear_missile, move_missile,
  movement_round,
}

module _ {F S : Type 0} where
  -- What holds before each round of a missile's movement.
  pub record Moving (m : Missile F S) (w : World F S) : Type 0 where
    pub index : HasIndex m
    pub window : InWindow m
    pub cells : HasValidCells w

  -- The round returns, with valid cells, and has collided or is ready for another.
  pub record Rounded (r : Missile F S × Result (World F S × Bool)) : Type 0 where
    pub world : World F S
    pub collided : Bool
    pub returns : r.1 ≡ ok (world, collided)
    pub cells : HasValidCells world
    pub again : (collided ≡ true) ⊎ Moving r.0 world

module _ {F D S : Type 0} (fl : Floating F D) ⦃s : Semaphore S⦄ where
  init_missiles_lem :
      (rounds : ℕ) (queue : ℕ → Missile F S) (k : ℕ)
      → rounds ≤ max_missiles
      → init_missiles fl rounds queue k ≡ (
          if leb (max_missiles - rounds) k && ltb k max_missiles
          then init_empty_missile fl (queue k)
          else queue k)
  unfolding init_missiles
  init_missiles_lem zero queue k le = ground arith
  init_missiles_lem (suc rounds) queue k le = ground (
    arith,
    init_missiles_lem rounds
        (update queue (max_missiles - suc rounds)
          (init_empty_missile fl (queue (max_missiles - suc rounds))))
        k (omega arith),
  )

  -- A new gestor has every index free and none requested, and every missile of its queue is empty.
  pub init_missiles_gestor_lem :
      (m_gestor : MissileGestor F S) (k : ℕ)
      → k < max_missiles
      → Represents (init_missiles_gestor fl m_gestor).gestor (0 ∷ 1 ∷ 2 ∷ 3 ∷ []) []
        × ((init_missiles_gestor fl m_gestor).queue k ≡ init_empty_missile fl (m_gestor.queue k))
  unfolding init_missiles_gestor
  init_missiles_gestor_lem m_gestor k lt = (
    init_queue-Represents m_gestor.gestor.next,
    ground (arith, init_missiles_lem max_missiles m_gestor.queue k (omega arith)),
  )

  -- A missile whose index is in use is cleared without a fault: its index becomes the first free one,
  -- and the structure is empty.
  pub clear_missile-Represents :
      (m : Missile F S) (g : FifoQueueGestor S) (free used : List ℕ) (k : ℕ)
      → m.index ≡ pos k
      → Represents g free used
      → IsNew k free used
      → (clear_missile fl m g
          ≡ ok (
            init_empty_missile fl m,
            if g.write_sem.blk == 0
                then post_mutex (spliced g free used k)
                else post_write (spliced g free used k),
          ))
        × Represents (spliced g free used k) (k ∷ free) used
  unfolding clear_missile
  clear_missile-Represents m g free used k e r new =
      let (done, lists) = splice_index-Represents g free used k r new in (rw (e, done) refl, lists)

  move_missile-HasIndex :
      (m : Missile F S) (deltatime : F) → HasIndex m → HasIndex (move_missile fl m deltatime)
  unfolding move_missile
  move_missile-HasIndex m deltatime h = h

  -- A round of a moving missile returns without a fault and with valid cells; and if it has not
  -- collided, it is moving again, so that every round of `task_missile_movement` starts in the window.
  pub movement_round-Rounded :
      (m : Missile F S) (deltatime : F) (w : World F S)
      → Moving m w
      → Rounded (movement_round fl deltatime m w)
  unfolding movement_round
  movement_round-Rounded m deltatime w h =
      let moved = move_missile fl m deltatime in
      let index = move_missile-HasIndex m deltatime h.index in
      let (p, e, valid) =
        update_missile_env-Fine moved h.window.x h.window.y w index h.window.in_x h.window.in_y
          h.cells in
      let returned : update_missile_env moved m.x m.y w ≡ ok p =
        subst (λ z. update_missile_env moved z m.y w ≡ ok p) (sym h.window.at_x)
          (subst (λ z. update_missile_env moved (pos h.window.x) z w ≡ ok p) (sym h.window.at_y)
            e) in
      record {
        world = p.0;
        collided = p.1;
        returns = returned;
        cells = valid;
        again = elim (Bool-cases p.1) [
          | inl hit ↦ inl hit
          | inr on ↦ inr (record {
            index = index;
            window =
                update_missile_env-InWindow moved m.x m.y w p.0
                  (subst (λ c. update_missile_env moved m.x m.y w ≡ ok (p.0, c)) on returned);
            cells = valid;
          })
        ];
      }
