-- ===== src/Grid/Init.antt =====
-- What the environment holds once it is initialised.
use patriots_rtes.Prelude.{
  ℕ, zero, suc, ◌-◌, ◌≤◌, ◌<◌, ◌≡◌, refl, ◌↔◌, ◌⊎◌, ltb, leb, ◌==◌, if◌then◌else◌, true, false, not,
  ◌&&◌, arith,
}
use patriots_rtes.Config.{xwin, ywin}
use patriots_rtes.Platform.{Semaphore}
use patriots_rtes.World.{Cell, Env, MissileType, attacker, defender}
use patriots_rtes.Fifo.{init_private_sem}
use patriots_rtes.Access.Protocol.{IsFresh}
use patriots_rtes.Grid.{
  goal_init_check, wall_init_check, init_cell, init_column, init_cells, init_env, set_cell,
  is_empty_cell, is_missile_cell, is_wall_cell, is_goal_cell, missile_to_cell_type,
  cell_to_missile_type,
}

init_column_lem :
    (rounds x : ℕ) (cells : ℕ → ℕ → Cell) (a b : ℕ)
    → rounds ≤ ywin
    → init_column rounds x cells a b
      ≡ (if x == a && leb (ywin - rounds) b && ltb b ywin then init_cell a b else cells a b)
unfolding init_column
init_column_lem zero x cells a b le = ground arith
init_column_lem (suc rounds) x cells a b le = ground (
  arith,
  init_column_lem rounds x (set_cell cells x (ywin - suc rounds) (init_cell x (ywin - suc rounds)))
      a b (omega arith),
)

init_cells_lem :
    (rounds : ℕ) (cells : ℕ → ℕ → Cell) (a b : ℕ)
    → rounds ≤ xwin
    → init_cells rounds cells a b
      ≡ (if leb (xwin - rounds) a && ltb a xwin && ltb b ywin then init_cell a b else cells a b)
unfolding init_cells
init_cells_lem zero cells a b le = ground arith
init_cells_lem (suc rounds) cells a b le = ground (
  arith,
  init_cells_lem rounds (init_column ywin (xwin - suc rounds) cells) a b (omega arith),
  init_column_lem ywin (xwin - suc rounds) cells a b (omega arith),
)

module _ {S : Type 0} ⦃s : Semaphore S⦄ (memory : Env S) where
  -- Whatever the memory held, each pixel of the window gets the cell of its position.
  pub init_env-cells : (x y : ℕ) → x < xwin → y < ywin → (init_env memory).cell x y ≡ init_cell x y
  unfolding init_env
  init_env-cells x y hx hy = ground (arith, init_cells_lem xwin memory.cell x y (omega arith))

  -- The initial environment meets what the access protocol starts from, with no points.
  pub init_env-IsFresh :
      IsFresh (init_env memory)
      × ((init_env memory).def_points ≡ 0)
      × ((init_env memory).atk_points ≡ 0)
  unfolding init_env init_private_sem
  init_env-IsFresh = (
    record {
      mutex_free = s.value-init 1;
      nobody_in = refl;
      none_blocked = λ p lt. ground arith;
      none_posted = λ p lt. ground (arith, s.value-init 0);
    },
    refl,
    refl,
  )

-- Inside the window the wall is two pixels thick on the left and at the top, and one on the right and
-- at the bottom.
pub wall_init_check_lem :
    (x y : ℕ)
    → x < xwin
    → y < ywin
    → (wall_init_check x y ≡ true) ↔ ((x < 2) ⊎ (y < 2) ⊎ (x ≡ 639) ⊎ (y ≡ 479))
unfolding wall_init_check
wall_init_check_lem x y hx hy = (λ h. ground arith, λ h. ground arith)

-- Of the four tests, exactly the one for the position holds of an initial cell: wall cells at the
-- border, goal cells below the goal line, empty cells elsewhere, and no missile anywhere.
pub init_cell-kinds :
    (x y : ℕ)
    → (is_wall_cell (init_cell x y) ≡ wall_init_check x y)
      × (is_goal_cell (init_cell x y) ≡ (not (wall_init_check x y) && goal_init_check y))
      × (is_empty_cell (init_cell x y) ≡ (not (wall_init_check x y) && not (goal_init_check y)))
      × (is_missile_cell (init_cell x y) ≡ false)
unfolding init_cell is_wall_cell is_goal_cell is_missile_cell
init_cell-kinds x y = ground arith

-- The two conversions between types of missiles and of missile cells are inverse to each other.
pub missile_type-roundtrip : (t : MissileType) → cell_to_missile_type (missile_to_cell_type t) ≡ t
unfolding cell_to_missile_type
missile_type-roundtrip attacker = refl
missile_type-roundtrip defender = refl
