-- ===== src/Collision/Static.antt =====
-- Collisions and updates leave the walls and the goal alone; and who scores.
use patriots_rtes.Prelude.{
  ℕ, ◌+◌, ◌≤◌, ◌<◌, ◌≡◌, refl, if◌then◌else◌, Bool, true, not, ◌&&◌, ◌||◌, ℤ, pos, ok, arith, subst,
  sym,
}
use native.Mathlib.Decide.{ℕ_discrete}
use patriots_rtes.Prelude.{negsuc, ap, ◌∙◌}
use patriots_rtes.Config.{xwin, ywin, missile_radius}
use patriots_rtes.World.{goal, empty, atk_missile, def_missile, Cell, MissileType, Missile, World}
use patriots_rtes.Grid.{same_type, is_wall_cell, is_goal_cell, init_cell_empty, set_cell}
use patriots_rtes.Collision.{
  cell_at, is_foreign, is_attacker, handle_collision, clear_cell, missile_cell,
  update_missile_position, box_start, box_end,
}
use patriots_rtes.Collision.Update.{Moved, left, hit, placed, update_missile_position-Moved}

-- A wall cell or a goal cell.
abbrev pub IsStatic : Cell → Type 0
IsStatic c = (is_wall_cell c || is_goal_cell c) ≡ true

-- Inside the borders the box around a missile has its own position.
box_around :
    (z : ℤ) (size k : ℕ)
    → z ≡ pos k
    → k < size
    → (box_start z missile_radius ≤ k) × (k < box_end z missile_radius size)
box_around (pos z) size k e lt = ground arith
box_around (negsuc z) size k e lt = cc

set_elsewhere :
    (cells : ℕ → ℕ → Cell) (a b x y : ℕ) (c : Cell)
    → ¬ ((a ≡ x) × (b ≡ y))
    → set_cell cells a b c x y ≡ cells x y
set_elsewhere cells a b x y c away = elim (ℕ_discrete a x) [
  | yes ea ↦ elim (ℕ_discrete b y) [ yes eb ↦ absurd (away (ea, eb)) | no nb ↦ ground arith ]
  | no na ↦ ground arith
]

module _ {F S : Type 0} where
  -- Handling a collision leaves the walls and the goal.
  pub handle_collision-IsStatic :
      (t : MissileType) (x y : ℕ) (w w' : World F S) (c : Bool) (a b : ℕ)
      → handle_collision t x y w ≡ ok (w', c)
      → IsStatic (cell_at w a b)
      → cell_at w' a b ≡ cell_at w a b
  unfolding handle_collision is_wall_cell is_goal_cell
  handle_collision-IsStatic t x y w w' c a b h s = ground arith

  -- A handled collision gives a defender point where an attacker and a defender meet, an attacker point
  -- where an attacker meets the goal, and no other; and it counts unless the cell's type is empty.
  pub handle_collision-points :
      (t : MissileType) (x y : ℕ) (w w' : World F S) (c : Bool)
      → handle_collision t x y w ≡ ok (w', c)
      → let type = (cell_at w x y).type in
        (w'.env.def_points
          ≡ w.env.def_points
            + (if is_attacker t && same_type type def_missile
                  || not (is_attacker t) && same_type type atk_missile
                then 1
                else 0))
        × (w'.env.atk_points
            ≡ w.env.atk_points + (if is_attacker t && same_type type goal then 1 else 0))
        × (c ≡ not (same_type type empty))
  unfolding handle_collision
  handle_collision-points t x y w w' c h = ground arith

  static-foreign : (m : Missile F S) (c : Cell) → IsStatic c → is_foreign m c ≡ true
  unfolding is_wall_cell is_goal_cell
  static-foreign m c s = ground arith

  Moved-IsStatic :
      {m : Missile F S} {a b : ℕ} {w w' : World F S} {c : Bool} (x y : ℕ)
      → Moved m a b w w' c
      → IsStatic (cell_at (clear_cell a b w) x y)
      → cell_at w' x y ≡ cell_at (clear_cell a b w) x y
  Moved-IsStatic x y (left out) s = refl
  Moved-IsStatic {m} {a} {b} {w} {w'} x y (hit inside first) s =
      handle_collision-IsStatic m.missile_type first.x first.y (clear_cell a b w) w' true x y
        first.handled s
  Moved-IsStatic {m} {a} {b} {w} x y (placed p q hp hq clear) s =
      set_elsewhere (clear_cell a b w).env.cell p q x y (missile_cell m) in_box
    where
      in_box : (p ≡ x) × (q ≡ y) → ⊥
      in_box (ex, ey) =
          let bx = box_around m.x xwin p hp.0 hp.1 in
          let by = box_around m.y ywin q hq.0 hq.1 in
          let own = static-foreign m (cell_at (clear_cell a b w) x y) s in
          let seen = rw (ex, ey) at (clear p bx.0 bx.1 q by.0 by.1) in cc

  -- An update leaves every wall and goal cell but the one that the missile came from.
  pub update_missile_position-IsStatic :
      (m : Missile F S) (oldx oldy : ℤ) (w w' : World F S) (c : Bool) (x y : ℕ)
      → update_missile_position m oldx oldy w ≡ ok (w', c)
      → ¬ ((oldx ≡ pos x) × (oldy ≡ pos y))
      → IsStatic (cell_at w x y)
      → cell_at w' x y ≡ cell_at w x y
  update_missile_position-IsStatic m oldx oldy w w' c x y h away s =
      let (a, b, ha, hb, moved) = update_missile_position-Moved m oldx oldy w w' c h in
      let kept =
        set_elsewhere w.env.cell a b x y init_cell_empty
          (λ e. away (ha.0 ∙ ap pos e.0, hb.0 ∙ ap pos e.1)) in
      Moved-IsStatic x y moved (subst IsStatic (sym kept) s) ∙ kept
