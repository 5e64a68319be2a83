-- ===== src/Collision.antt =====
-- The collisions of src/gestor.c, on the three static variables. A missile that moves is given by the
-- value of its structure: no collision changes the fields that are read here. A pointer to a cell is
-- its position.
pub mod Scan
pub mod Update
pub mod Static
pub mod ValidCells
pub mod Valid
pub mod Deletion
pub mod Frame
pub mod Follow
pub mod Place
mod Tests
use patriots_rtes.Prelude.{
  ℕ, zero, suc, ◌+◌, ◌-◌, ◌==◌, if◌then◌else◌, update, in_range, Bool, true, false, not, ◌&&◌, ◌||◌,
  ℤ, pos, pos_part, ltb_ℤ, leb_ℤ, ◌==ℤ◌, ◌+ℤ◌, ◌-ℤ◌, Result, ok, err, ◌>>=◌, ◌>>◌, or_fault,
}
use patriots_rtes.Config.{xwin, ywin, max_missiles, missile_radius}
use patriots_rtes.World.{
  CellType, wall, goal, empty, atk_missile, def_missile, Cell, Env, MissileType, attacker, defender,
  Missile, MissileGestor, World,
}
use patriots_rtes.Grid.{
  same_type, init_cell_empty, is_empty_cell, missile_to_cell_type, check_borders, set_cell,
}

abbrev pub is_attacker : MissileType → Bool
is_attacker attacker = true
is_attacker defender = false

-- `z - span >= 0 ? z - span : 0` and `z + span < size ? z + span : size`, of a `z` in the window.
abbrev pub box_start : ℤ → ℕ → ℕ
box_start z span = if leb_ℤ (pos 0) (z -ℤ pos span) then pos_part (z -ℤ pos span) else 0

abbrev pub box_end : ℤ → ℕ → ℕ → ℕ
box_end z span size = if ltb_ℤ (z +ℤ pos span) (pos size) then pos_part (z +ℤ pos span) else size

-- An access to `env.cell[x][y]` with signed coordinates.
abbrev pub at_cell {ℓ} : {A : Type ℓ} → ℤ → ℤ → (ℕ → ℕ → Result A) → Result A
at_cell x y use_cell =
    or_fault (in_range xwin x) >>= λ a. or_fault (in_range ywin y) >>= λ b. use_cell a b

module _ {F S : Type 0} where
  abbrev pub cell_at : World F S → ℕ → ℕ → Cell
  cell_at w x y = w.env.cell x y

  abbrev pub write_cell : ℕ → ℕ → Cell → World F S → World F S
  write_cell x y c w = record w { env = record (w.env) { cell = set_cell w.env.cell x y c } }

  pub def_point : World F S → World F S
  def_point w = record w { env = record (w.env) { def_points = w.env.def_points + 1 } }

  pub atk_point : World F S → World F S
  atk_point w = record w { env = record (w.env) { atk_points = w.env.atk_points + 1 } }

  -- `queue[index].deleted = 1`
  abbrev pub mark_deleted : ℕ → MissileGestor F S → MissileGestor F S
  mark_deleted k g = record g { queue = update g.queue k (record (g.queue k) { deleted = true }) }

  pub delete_atk_missile : ℤ → World F S → Result (World F S)
  delete_atk_missile index w = or_fault (in_range max_missiles index) >>= λ k.
      ok (record w { atk_gestor = mark_deleted k w.atk_gestor })

  pub delete_def_missile : ℤ → World F S → Result (World F S)
  delete_def_missile index w = or_fault (in_range max_missiles index) >>= λ k.
      ok (record w { def_gestor = mark_deleted k w.def_gestor })

  abbrev pub clear_cell : ℕ → ℕ → World F S → World F S
  clear_cell x y w = write_cell x y init_cell_empty w

  -- The `switch` of `handle_collision_by_cell_type`, on the type of the cell.
  abbrev pub collide_with : CellType → ℕ → ℕ → World F S → Result (World F S)
  collide_with def_missile x y w =
      delete_def_missile (cell_at w x y).value w >>= λ v. ok (clear_cell x y v)
  collide_with atk_missile x y w =
      delete_atk_missile (cell_at w x y).value w >>= λ v. ok (clear_cell x y v)
  collide_with _ x y w = ok w

  pub handle_collision_by_cell_type : ℕ → ℕ → World F S → Result (World F S × CellType)
  unfolding delete_atk_missile delete_def_missile
  handle_collision_by_cell_type x y w =
      let type = (cell_at w x y).type in collide_with type x y w >>= λ v. ok (v, type)

  -- The scores of `handle_collision`, for a cell that is not empty.
  pub score : MissileType → CellType → World F S → World F S
  unfolding def_point atk_point
  score missile_type type w =
      let attacks = is_attacker missile_type in
      let scored =
        if attacks && same_type type def_missile || not attacks && same_type type atk_missile
        then def_point w
        else w in
      if attacks && same_type type goal then atk_point scored else scored

  pub handle_collision : MissileType → ℕ → ℕ → World F S → Result (World F S × Bool)
  unfolding handle_collision_by_cell_type score
  handle_collision missile_type x y w = handle_collision_by_cell_type x y w >>= λ p.
      ok (if not (same_type p.1 empty) then (score missile_type p.1 p.0, true) else (p.0, false))

  -- A cell that is neither empty nor the missile's own.
  abbrev pub is_foreign : Missile F S → Cell → Bool
  is_foreign missile c =
      (not (c.value ==ℤ missile.index)
        || not (same_type c.type (missile_to_cell_type missile.missile_type)))
      && not (is_empty_cell c)

  -- The condition in the loops of `collision_around`, with its effect.
  pub scan_cell : Missile F S → ℕ → ℕ → World F S → Result (World F S × Bool)
  unfolding handle_collision
  scan_cell missile x y w =
      if is_foreign missile (cell_at w x y)
      then handle_collision missile.missile_type x y w
      else ok (w, false)

  -- After a round: the loop stops at a collision.
  abbrev pub unless_hit :
      Result (World F S × Bool)
      → (World F S → Result (World F S × Bool))
      → Result (World F S × Bool)
  unless_hit r next = r >>= λ p. elim (p.1) [ true ↦ ok (p.0, true) | false ↦ next p.0 ]

  -- The inner loop of `collision_around` with a number of rounds to go, and the outer one.
  pub scan_column : Missile F S → ℕ → ℕ → ℕ → World F S → Result (World F S × Bool)
  unfolding scan_cell
  scan_column missile x zero y w = ok (w, false)
  scan_column missile x (suc rounds) y w =
      unless_hit (scan_cell missile x y w) (λ v. scan_column missile x rounds (y + 1) v)

  pub scan_columns : Missile F S → ℕ → ℕ → ℕ → ℕ → World F S → Result (World F S × Bool)
  unfolding scan_column
  scan_columns missile ya height zero x w = ok (w, false)
  scan_columns missile ya height (suc rounds) x w =
      unless_hit (scan_column missile x height ya w)
        (λ v. scan_columns missile ya height rounds (x + 1) v)

  pub collision_around : ℕ → ℕ → ℕ → ℕ → Missile F S → World F S → Result (World F S × Bool)
  unfolding scan_columns
  collision_around xa ya xb yb missile w = scan_columns missile ya (yb - ya) (xb - xa) xa w

  pub handle_collisions_around_missile : Missile F S → ℕ → World F S → Result (World F S × Bool)
  unfolding collision_around
  handle_collisions_around_missile missile span w =
      if check_borders missile.x missile.y
      then collision_around (box_start missile.x span) (box_start missile.y span)
          (box_end missile.x span xwin) (box_end missile.y span ywin) missile w
      else ok (w, true)

  abbrev pub missile_cell : Missile F S → Cell
  missile_cell missile = record {
    type = missile_to_cell_type missile.missile_type;
    value = missile.index;
    target = missile.assigned_target;
  }

  pub update_missile_cell : Missile F S → World F S → Result (World F S)
  update_missile_cell missile w =
      at_cell missile.x missile.y (λ a b. ok (write_cell a b (missile_cell missile) w))

  -- `update_missile_position` from its test of `collided` on.
  pub finish_update : Missile F S → World F S × Bool → Result (World F S × Bool)
  unfolding update_missile_cell
  finish_update missile (w, true) = ok (w, true)
  finish_update missile (w, false) = update_missile_cell missile w >>= λ v. ok (v, false)

  pub update_missile_position : Missile F S → ℤ → ℤ → World F S → Result (World F S × Bool)
  unfolding handle_collisions_around_missile finish_update
  update_missile_position missile oldx oldy w =
      at_cell oldx oldy (λ a b. ok (clear_cell a b w)) >>= λ cleared.
      handle_collisions_around_missile missile missile_radius cleared >>= finish_update missile

  -- `update_missile_env` between `access_env` and `release_env`.
  pub update_missile_env : Missile F S → ℤ → ℤ → World F S → Result (World F S × Bool)
  unfolding update_missile_position
  update_missile_env missile oldx oldy w =
      if missile.deleted then ok (w, true) else update_missile_position missile oldx oldy w
