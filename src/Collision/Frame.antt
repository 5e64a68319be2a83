-- ===== src/Collision/Frame.antt =====
-- What an update leaves of every missile.
use patriots_rtes.Prelude.{
  ℕ, ◌≡◌, refl, Bool, true, ◌||◌, ℤ, ok, arith, sym, ap, subst, Bool-cases, inl, inr,
}
use patriots_rtes.World.{MissileType, attacker, defender, Missile, World, missile_at}
use patriots_rtes.Collision.{update_missile_env, clear_cell, handle_collision, cell_at}
use patriots_rtes.Collision.Update.{Moved, left, hit, placed, update_missile_position-Moved}
use patriots_rtes.Collision.Scan.{Outcome}
use patriots_rtes.Collision.Deletion.{handle_collision-deletes, holds}

module _ {F S : Type 0} where
  -- Two structures that move alike: they may differ in their flags and in their mutex.
  pub record MovesAlike (m m' : Missile F S) : Type 0 where
    pub x : m'.x ≡ m.x
    pub y : m'.y ≡ m.y
    pub partial_x : m'.partial_x ≡ m.partial_x
    pub partial_y : m'.partial_y ≡ m.partial_y
    pub angle : m'.angle ≡ m.angle
    pub speed : m'.speed ≡ m.speed
    pub index : m'.index ≡ m.index
    pub missile_type : m'.missile_type ≡ m.missile_type

  pub MovesAlike-deleted :
      (m m' : Missile F S) (d : Bool) → m' ≡ record m { deleted = d } → MovesAlike m m'
  MovesAlike-deleted m m' d e = record {
    x = ap (λ (u : Missile F S). u.x) e;
    y = ap (λ (u : Missile F S). u.y) e;
    partial_x = ap (λ (u : Missile F S). u.partial_x) e;
    partial_y = ap (λ (u : Missile F S). u.partial_y) e;
    angle = ap (λ (u : Missile F S). u.angle) e;
    speed = ap (λ (u : Missile F S). u.speed) e;
    index = ap (λ (u : Missile F S). u.index) e;
    missile_type = ap (λ (u : Missile F S). u.missile_type) e;
  }

  pub same-MovesAlike : (m m' : Missile F S) → m' ≡ m → MovesAlike m m'
  same-MovesAlike m m' e = MovesAlike-deleted m m' m.deleted e

  clear_cell-same :
      (kind : MissileType) (x y k : ℕ) (w : World F S)
      → missile_at kind (clear_cell x y w) k ≡ missile_at kind w k
  clear_cell-same attacker x y k w = refl
  clear_cell-same defender x y k w = refl

  handle_collision-MovesAlike :
      (t : MissileType) (x y : ℕ) (w w' : World F S) (c : Bool)
      → handle_collision t x y w ≡ ok (w', c)
      → (kind : MissileType) (k : ℕ) → MovesAlike (missile_at kind w k) (missile_at kind w' k)
  handle_collision-MovesAlike t x y w w' c h kind k =
      MovesAlike-deleted (missile_at kind w k) (missile_at kind w' k)
        (holds kind k (cell_at w x y) || (missile_at kind w k).deleted)
        (handle_collision-deletes t x y w w' c h kind k 0 0).0

  Moved-MovesAlike :
      {m : Missile F S} {a b : ℕ} {w w' : World F S} {c : Bool} (kind : MissileType) (k : ℕ)
      → Moved m a b w w' c
      → MovesAlike (missile_at kind w k) (missile_at kind w' k)
  Moved-MovesAlike {a} {b} {w} kind k (left out) =
      same-MovesAlike _ _ (clear_cell-same kind a b k w)
  Moved-MovesAlike {m} {a} {b} {w} {w'} kind k (hit inside first) =
      subst (λ u. MovesAlike u (missile_at kind w' k)) (clear_cell-same kind a b k w)
        (handle_collision-MovesAlike m.missile_type first.x first.y (clear_cell a b w) w' true
          first.handled kind k)
  Moved-MovesAlike attacker k (placed p q hp hq clear) = same-MovesAlike _ _ refl
  Moved-MovesAlike defender k (placed p q hp hq clear) = same-MovesAlike _ _ refl

  -- An update changes no more of any missile than its mark of deletion.
  pub update_missile_env-MovesAlike :
      (m : Missile F S) (oldx oldy : ℤ) (w w' : World F S) (c : Bool)
      → update_missile_env m oldx oldy w ≡ ok (w', c)
      → (kind : MissileType) (k : ℕ) → MovesAlike (missile_at kind w k) (missile_at kind w' k)
  unfolding update_missile_env
  update_missile_env-MovesAlike m oldx oldy w w' c h kind k = elim (Bool-cases m.deleted) [
    | inl dead ↦
        let e : ◌≡◌ {A = Outcome F S} (ok (w, true)) (ok (w', c)) = rw dead at h in
        let same : w ≡ w' = cc in same-MovesAlike _ _ (ap (λ u. missile_at kind u k) (sym same))
    | inr live ↦
        let (a, b, ha, hb, moved) =
          update_missile_position-Moved m oldx oldy w w' c (rw live at h) in
        Moved-MovesAlike kind k moved
  ]

  -- The queues' links and semaphores of a world.
  abbrev pub SameQueues : World F S → World F S → Type 0
  SameQueues w w' =
      (w'.atk_gestor.gestor ≡ w.atk_gestor.gestor) × (w'.def_gestor.gestor ≡ w.def_gestor.gestor)

  handle_collision-SameQueues :
      (t : MissileType) (x y : ℕ) (w w' : World F S) (c : Bool)
      → handle_collision t x y w ≡ ok (w', c)
      → SameQueues w w'
  unfolding handle_collision
  handle_collision-SameQueues t x y w w' c h = ground arith

  Moved-SameQueues :
      {m : Missile F S} {a b : ℕ} {w w' : World F S} {c : Bool}
      → Moved m a b w w' c
      → SameQueues w w'
  Moved-SameQueues (left out) = (refl, refl)
  Moved-SameQueues {m} {a} {b} {w} {w'} (hit inside first) =
      handle_collision-SameQueues m.missile_type first.x first.y (clear_cell a b w) w' true
        first.handled
  Moved-SameQueues (placed p q hp hq clear) = (refl, refl)

  -- An update leaves the queues of indices.
  pub update_missile_env-SameQueues :
      (m : Missile F S) (oldx oldy : ℤ) (w w' : World F S) (c : Bool)
      → update_missile_env m oldx oldy w ≡ ok (w', c)
      → SameQueues w w'
  unfolding update_missile_env
  update_missile_env-SameQueues m oldx oldy w w' c h = elim (Bool-cases m.deleted) [
    | inl dead ↦
        let e : ◌≡◌ {A = Outcome F S} (ok (w, true)) (ok (w', c)) = rw dead at h in
        let same : w ≡ w' = cc in subst (λ u. SameQueues w u) same (refl, refl)
    | inr live ↦
        let (a, b, ha, hb, moved) =
          update_missile_position-Moved m oldx oldy w w' c (rw live at h) in
        Moved-SameQueues moved
  ]
