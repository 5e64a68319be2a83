-- ===== src/Grid.antt =====
-- The cells of the environment in src/gestor.c: their initial contents, the tests on one cell, and the
-- borders.
pub mod Init
mod Tests
use patriots_rtes.Prelude.{
  ℕ, zero, suc, ◌+◌, ◌-◌, ltb, leb, ◌==◌, if◌then◌else◌, update, Bool, true, false, not, ◌&&◌, ◌||◌,
  ℤ, pos, ltb_ℤ, leb_ℤ, ◌==ℤ◌,
}
use patriots_rtes.Config.{
  xwin, ywin, wall_thickness, goal_start_y, env_prios, empty_cell, other_cell,
}
use patriots_rtes.Platform.{Semaphore}
use patriots_rtes.World.{
  CellType, wall, goal, empty, atk_missile, def_missile, Cell, Env, PrivateSem, MissileType,
  attacker, defender,
}
use patriots_rtes.Fifo.{init_private_sem}

-- `==` of `cell_type_t`
abbrev pub same_type : CellType → CellType → Bool
same_type wall wall = true
same_type goal goal = true
same_type empty empty = true
same_type atk_missile atk_missile = true
same_type def_missile def_missile = true
same_type _ _ = false

pub goal_init_check : ℕ → Bool
goal_init_check y = ltb goal_start_y y

-- A difference that would be negative in C is 0 here, and passes the same test.
pub wall_init_check : ℕ → ℕ → Bool
wall_init_check x y =
    ltb x wall_thickness
    || ltb y wall_thickness
    || ltb (xwin - x) wall_thickness
    || ltb (ywin - y) wall_thickness

abbrev pub init_cell_empty : Cell
init_cell_empty = record { type = empty; value = empty_cell; target = empty_cell }

unfoldable pub init_wall_cell : Cell
init_wall_cell = record { type = wall; value = other_cell; target = other_cell }

unfoldable pub init_goal_cell : Cell
init_goal_cell = record { type = goal; value = other_cell; target = other_cell }

unfoldable pub init_cell : ℕ → ℕ → Cell
unfolding goal_init_check wall_init_check init_wall_cell init_goal_cell
init_cell x y =
    if wall_init_check x y
    then init_wall_cell
    else (if goal_init_check y then init_goal_cell else init_cell_empty)

-- `cell[x][y] = c`
abbrev pub set_cell : (ℕ → ℕ → Cell) → ℕ → ℕ → Cell → ℕ → ℕ → Cell
set_cell cells x y c = update cells x (update (cells x) y c)

-- The inner loop of `init_env` with a number of rounds to go, and the outer one.
pub init_column : ℕ → ℕ → (ℕ → ℕ → Cell) → ℕ → ℕ → Cell
init_column zero x cells = cells
init_column (suc rounds) x cells =
    let y = ywin - suc rounds in init_column rounds x (set_cell cells x y (init_cell x y))

pub init_cells : ℕ → (ℕ → ℕ → Cell) → ℕ → ℕ → Cell
init_cells zero cells = cells
init_cells (suc rounds) cells = init_cells rounds (init_column ywin (xwin - suc rounds) cells)

module _ {S : Type 0} ⦃s : Semaphore S⦄ where
  open s use {sem_init}

  -- The loop over `prio_sem`.
  pub init_prio_sems : ℕ → (ℕ → PrivateSem S) → ℕ → PrivateSem S
  init_prio_sems zero sems = sems
  init_prio_sems (suc rounds) sems =
      init_prio_sems rounds (update sems (env_prios - suc rounds) init_private_sem)

  -- `init_env` on whatever the memory held.
  pub init_env : Env S → Env S
  unfolding init_prio_sems
  init_env memory = record {
    cell = init_cells xwin memory.cell;
    def_points = 0;
    atk_points = 0;
    count = 0;
    prio_sem = init_prio_sems env_prios memory.prio_sem;
    mutex = sem_init 1;
  }

abbrev pub missile_to_cell_type : MissileType → CellType
missile_to_cell_type attacker = atk_missile
missile_to_cell_type defender = def_missile

unfoldable pub cell_to_missile_type : CellType → MissileType
cell_to_missile_type cell_type = if same_type cell_type atk_missile then attacker else defender

abbrev pub check_borders : ℤ → ℤ → Bool
check_borders x y = ltb_ℤ x (pos xwin) && ltb_ℤ y (pos ywin) && leb_ℤ (pos 0) x && leb_ℤ (pos 0) y

abbrev pub is_empty_cell : Cell → Bool
is_empty_cell cell = same_type cell.type empty || cell.value ==ℤ empty_cell

unfoldable pub is_missile_cell : Cell → Bool
is_missile_cell cell =
    not (is_empty_cell cell) && (same_type cell.type atk_missile || same_type cell.type def_missile)

unfoldable pub is_wall_cell : Cell → Bool
is_wall_cell cell =
    not (is_empty_cell cell) && same_type cell.type wall && cell.value ==ℤ other_cell

unfoldable pub is_goal_cell : Cell → Bool
is_goal_cell cell =
    not (is_empty_cell cell) && same_type cell.type goal && cell.value ==ℤ other_cell
