-- ===== src/Display.antt =====
-- What src/gestor.c draws: `draw_env` down to `draw_cell`, as the list of the calls of Allegro in their
-- order. The buffer that they draw on is left out of the commands.
pub mod Cells
pub mod Texts
pub mod Scores
mod Tests
use patriots_rtes.Prelude.{
  ℕ, zero, suc, ◌+◌, ◌-◌, ◌*◌, ◌/◌, if◌then◌else◌, Bool, true, false, not, List, [], ◌∷◌, ◌++◌, ℤ,
  Option, none, some, pos,
}
use patriots_rtes.Config.{
  xwin, ywin, missile_radius, wall_color, goal_color, label_color, bkg_color, attacker_color,
  defender_color, tutorial_y, rect_h, rect_w, legend_x, legend_y, label_x, get_y_label, spacing,
}
use patriots_rtes.World.{Cell, Env, Pos, MissileType, attacker, defender}
use patriots_rtes.Grid.{
  check_borders, is_empty_cell, is_missile_cell, is_wall_cell, is_goal_cell, cell_to_missile_type,
}

-- The strings that are drawn.
pub data Label : Type 0 where
  tutorial_text : Label
  attack_points : ℕ → Label
  defender_points : ℕ → Label
  goal_text : Label
  wall_text : Label
  atk_missile_text : Label
  def_missile_text : Label

-- The calls, with their arguments in the order of the source.
pub data DrawCommand : Type 0 where
  rectfill : ℕ → ℕ → ℕ → ℕ → ℕ → DrawCommand
  textout_ex : Label → ℕ → ℕ → ℕ → ℕ → DrawCommand
  textout_centre_ex : Label → ℕ → ℕ → ℕ → ℕ → DrawCommand
  circlefill : ℤ → ℤ → ℕ → ℕ → DrawCommand
  putpixel : ℤ → ℤ → ℕ → DrawCommand
  clear_to_color : ℕ → DrawCommand
  blit : ℕ → ℕ → ℕ → ℕ → ℕ → ℕ → DrawCommand

-- The calls of Allegro that set up the screen and the keyboard; the screen is `GFX_AUTODETECT_WINDOWED`.
pub data SetupCommand : Type 0 where
  allegro_init : SetupCommand
  set_gfx_mode : ℕ → ℕ → ℕ → ℕ → SetupCommand
  clear_screen : ℕ → SetupCommand
  install_keyboard : SetupCommand

abbrev pub display_init : List SetupCommand
display_init =
    allegro_init ∷ set_gfx_mode xwin ywin 0 0 ∷ clear_screen bkg_color ∷ install_keyboard ∷ []

pub draw_legend : ℕ → ℕ → Label → List DrawCommand
draw_legend spaces color label =
    let divergence = spaces * (spacing + rect_h) in
    let y_end = legend_y + divergence + rect_h in
    let y_start = legend_y + divergence in
    rectfill (legend_x - rect_w) y_end legend_x y_start color
    ∷ textout_ex label (legend_x + spacing) y_start label_color bkg_color
    ∷ []

pub draw_legends : List DrawCommand
unfolding draw_legend
draw_legends =
    draw_legend 0 goal_color goal_text
    ++ draw_legend 1 wall_color wall_text
    ++ draw_legend 2 attacker_color atk_missile_text
    ++ draw_legend 3 defender_color def_missile_text

pub draw_labels : ℕ → ℕ → List DrawCommand
unfolding draw_legends
draw_labels atk_p def_p =
    textout_centre_ex tutorial_text (xwin / 2) tutorial_y label_color bkg_color
    ∷ textout_ex (attack_points atk_p) label_x (get_y_label 1) label_color bkg_color
    ∷ textout_ex (defender_points def_p) label_x (get_y_label 2) label_color bkg_color
    ∷ draw_legends

abbrev missile_color : MissileType → ℕ
missile_color attacker = attacker_color
missile_color defender = defender_color

pub draw_missile : Pos → MissileType → List DrawCommand
draw_missile p type =
    if check_borders p.x p.y
    then circlefill p.x p.y missile_radius (missile_color type) ∷ []
    else []

pub draw_wall : Pos → List DrawCommand
draw_wall p = putpixel p.x p.y wall_color ∷ []

pub draw_goal : Pos → List DrawCommand
draw_goal p = putpixel p.x p.y goal_color ∷ []

pub draw_cell : Cell → ℕ → ℕ → List DrawCommand
unfolding draw_missile draw_wall draw_goal
draw_cell cell x y =
    let p : Pos = record { x = pos x; y = pos y } in
    if is_missile_cell cell
    then draw_missile p (cell_to_missile_type cell.type)
    else (if is_wall_cell cell
        then draw_wall p
        else (if is_goal_cell cell then draw_goal p else []))

module _ {S : Type 0} where
  -- The inner loop of `draw_env` with a number of rounds to go, and the outer one.
  pub draw_column : ℕ → ℕ → ℕ → Env S → List DrawCommand
  unfolding draw_cell
  draw_column zero x y e = []
  draw_column (suc rounds) x y e =
      (if not (is_empty_cell (e.cell x y)) then draw_cell (e.cell x y) x y else [])
      ++ draw_column rounds x (y + 1) e

  pub draw_columns : ℕ → ℕ → Env S → List DrawCommand
  unfolding draw_column
  draw_columns zero x e = []
  draw_columns (suc rounds) x e = draw_column ywin x 0 e ++ draw_columns rounds (x + 1) e

  -- `draw_env` between `access_env` and `release_env`.
  pub draw_env : Env S → List DrawCommand
  unfolding draw_columns draw_labels
  draw_env e = draw_columns xwin 0 e ++ draw_labels e.atk_points e.def_points

pub reset_buffer : List DrawCommand
reset_buffer = clear_to_color bkg_color ∷ []

-- The buffer has the size of the window.
pub draw_buffer_to_screen : List DrawCommand
draw_buffer_to_screen = blit 0 0 0 0 xwin ywin ∷ []

module _ {S : Type 0} where
  -- The body of the loop of `display_manager` up to `check_deadline`.
  pub display_round : Env S → List DrawCommand
  unfolding reset_buffer draw_env draw_buffer_to_screen
  display_round e = reset_buffer ++ draw_env e ++ draw_buffer_to_screen

-- What is written on `stderr` if `ptask_deadline_miss` says that a deadline was missed.
unfoldable pub check_deadline {ℓ} : {M : Type ℓ} → Bool → M → List M
check_deadline missed message = if missed then message ∷ [] else []

-- With `sprintf` on the message, the kind of the missile and its index.
unfoldable pub check_missile_deadline {ℓ} :
    {M : Type ℓ} → Bool → (MissileType → ℤ → M) → MissileType → ℤ → List M
unfolding check_deadline
check_missile_deadline missed message type index = check_deadline missed (message type index)

module _ {S : Type 0} where
  -- The loop from round `i` on, on the environments that it draws: the calls of each round, and how often
  -- it has missed its deadline; `none` if the fuel runs out.
  unfoldable pub display_manager :
      (ℕ → Bool) → (ℕ → Env S) → (ℕ → Bool) → ℕ → ℕ → Option (List (List DrawCommand × List ℕ))
  unfolding display_round check_deadline
  display_manager ended envs missed zero i = none
  display_manager ended envs missed (suc fuel) i = elim (ended i) [
    | true ↦ some []
    | false ↦ elim (display_manager ended envs missed fuel (i + 1)) [
      | none ↦ none
      | some rest ↦ some ((display_round (envs i), check_deadline (missed i) i) ∷ rest)
    ]
  ]
