-- ===== src/Movement/Round.antt =====
-- A round of a missile's thread, and the moves of several rounds.
use patriots_rtes.Prelude.{
  ℕ, zero, suc, ◌<◌, ◌≡◌, refl, update_self, Bool, true, pos, ok, arith, ◌∙◌, subst, inl, inr, ◌⊎◌,
}
use patriots_rtes.Platform.{Semaphore, Floating}
use patriots_rtes.World.{MissileType, attacker, defender, Missile, World, missile_at, set_missile}
use patriots_rtes.Grid.{check_borders}
use patriots_rtes.Collision.Update.{InWindow}
use patriots_rtes.Collision.Valid.{HasValidCells}
use patriots_rtes.Collision.Frame.{
  MovesAlike, SameQueues, update_missile_env-MovesAlike, update_missile_env-SameQueues,
}
use patriots_rtes.Lifecycle.{move_missile, movement_round}
use patriots_rtes.Lifecycle.Rounds.{Moving, movement_round-Rounded}
use patriots_rtes.Movement.{task_round}

module _ {F S : Type 0} where
  pub set_missile_self :
      (kind : MissileType) (k : ℕ) (m : Missile F S) (w : World F S)
      → missile_at kind (set_missile kind k m w) k ≡ m
  set_missile_self attacker k m w = update_self w.atk_gestor.queue k m
  set_missile_self defender k m w = update_self w.def_gestor.queue k m

  pub set_missile-cells :
      (kind : MissileType) (k : ℕ) (m : Missile F S) (w : World F S)
      → HasValidCells w
      → HasValidCells (set_missile kind k m w)
  set_missile-cells attacker k m w h = h
  set_missile-cells defender k m w h = h

  pub set_missile-SameQueues :
      (kind : MissileType) (k : ℕ) (m : Missile F S) (w : World F S)
      → SameQueues w (set_missile kind k m w)
  set_missile-SameQueues attacker k m w = (refl, refl)
  set_missile-SameQueues defender k m w = (refl, refl)

  pub MovesAlike-trans : {a b c : Missile F S} → MovesAlike a b → MovesAlike b c → MovesAlike a c
  MovesAlike-trans p q = record {
    x = q.x ∙ p.x;
    y = q.y ∙ p.y;
    partial_x = q.partial_x ∙ p.partial_x;
    partial_y = q.partial_y ∙ p.partial_y;
    angle = q.angle ∙ p.angle;
    speed = q.speed ∙ p.speed;
    index = q.index ∙ p.index;
    missile_type = q.missile_type ∙ p.missile_type;
  }

  pub MovesAlike-InWindow : {a b : Missile F S} → MovesAlike a b → InWindow a → InWindow b
  MovesAlike-InWindow p h = record {
    x = h.x;
    y = h.y;
    at_x = p.x ∙ h.at_x;
    at_y = p.y ∙ h.at_y;
    in_x = h.in_x;
    in_y = h.in_y;
  }

  pub InWindow-borders : (m : Missile F S) → InWindow m → check_borders m.x m.y ≡ true
  InWindow-borders m h = rw (h.at_x, h.at_y) (in_borders h.x h.y h.in_x h.in_y)
    where
      in_borders : (x y : ℕ) → x < 640 → y < 480 → check_borders (pos x) (pos y) ≡ true
      in_borders x y lx ly = ground arith

module _ {F D S : Type 0} (fl : Floating F D) ⦃s : Semaphore S⦄ where
  -- The missile after a number of moves.
  unfoldable pub moves : ℕ → F → Missile F S → Missile F S
  moves zero deltatime m = m
  moves (suc n) deltatime m = moves n deltatime (move_missile fl m deltatime)

  move_missile-MovesAlike :
      {a b : Missile F S} (deltatime : F)
      → MovesAlike a b
      → MovesAlike (move_missile fl a deltatime) (move_missile fl b deltatime)
  unfolding move_missile
  move_missile-MovesAlike deltatime p = record {
    x = cc;
    y = cc;
    partial_x = cc;
    partial_y = cc;
    angle = p.angle;
    speed = p.speed;
    index = p.index;
    missile_type = p.missile_type;
  }

  pub moves-MovesAlike :
      (n : ℕ) {a b : Missile F S} (deltatime : F)
      → MovesAlike a b
      → MovesAlike (moves n deltatime a) (moves n deltatime b)
  unfolding moves
  moves-MovesAlike zero deltatime p = p
  moves-MovesAlike (suc n) deltatime p =
      moves-MovesAlike n deltatime (move_missile-MovesAlike deltatime p)

  -- What a round of a thread gives.
  pub record RoundDone (kind : MissileType) (k : ℕ) (deltatime : F) (w : World F S) : Type 0 where
    pub world : World F S
    pub collided : Bool
    pub returns : task_round fl kind k deltatime w ≡ ok (world, collided)
    pub cells : HasValidCells world
    pub alike :
        MovesAlike (move_missile fl (missile_at kind w k) deltatime) (missile_at kind world k)
    pub queues : SameQueues w world
    pub again : (collided ≡ true) ⊎ Moving (missile_at kind world k) world

  pub task_round-RoundDone :
      (kind : MissileType) (k : ℕ) (deltatime : F) (w : World F S)
      → Moving (missile_at kind w k) w
      → RoundDone kind k deltatime w
  unfolding task_round movement_round
  task_round-RoundDone kind k deltatime w h =
      let m = missile_at kind w k in
      let moved = move_missile fl m deltatime in
      let w0 = set_missile kind k moved w in
      let r = movement_round-Rounded fl m deltatime w0 (record {
        index = h.index;
        window = h.window;
        cells = set_missile-cells kind k moved w h.cells;
      }) in
      let alike =
        subst (λ u. MovesAlike u (missile_at kind r.world k)) (set_missile_self kind k moved w)
          (update_missile_env-MovesAlike moved m.x m.y w0 r.world r.collided r.returns kind k) in
      let before = set_missile-SameQueues kind k moved w in
      let after = update_missile_env-SameQueues moved m.x m.y w0 r.world r.collided r.returns in
      record {
        world = r.world;
        collided = r.collided;
        returns = r.returns;
        cells = r.cells;
        alike = alike;
        queues = (after.0 ∙ before.0, after.1 ∙ before.1);
        again = elim r.again [
          | inl hit ↦ inl hit
          | inr more ↦ inr (record {
            index = (more.index.0, alike.index ∙ more.index.1, more.index.2);
            window = MovesAlike-InWindow alike more.window;
            cells = r.cells;
          })
        ];
      }
