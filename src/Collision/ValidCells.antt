-- ===== src/Collision/ValidCells.antt =====
-- Valid cells: a missile's cell has the index of one; and a collision keeps them valid.
use patriots_rtes.Prelude.{
  ℕ, ◌<◌, ◌≡◌, refl, inl, inr, ◌==◌, if◌then◌else◌, Bool, true, false, ℤ, pos, ok, arith,
  Bool-cases, subst, sym,
}
use patriots_rtes.Config.{xwin, ywin, max_missiles, empty_cell, other_cell}
use patriots_rtes.World.{
  CellType, wall, goal, empty, atk_missile, def_missile, Cell, MissileType, World, Env,
}
use patriots_rtes.Grid.{
  init_cell_empty, init_cell, init_env, wall_init_check, goal_init_check, init_wall_cell,
  init_goal_cell,
}
use patriots_rtes.Grid.Init.{init_env-cells}
use patriots_rtes.Platform.{Semaphore}
use patriots_rtes.Collision.{
  cell_at, score, mark_deleted, handle_collision, unless_hit, clear_cell, write_cell,
}
use patriots_rtes.Collision.Scan.{Outcome}

-- The value that a cell of a type may hold: a missile's cell has the index of a missile.
abbrev pub IsValidAs : CellType → ℤ → Type 0
IsValidAs wall v = v ≡ other_cell
IsValidAs goal v = v ≡ other_cell
IsValidAs empty v = v ≡ empty_cell
IsValidAs atk_missile v = (k : ℕ) × (v ≡ pos k) × (k < max_missiles)
IsValidAs def_missile v = (k : ℕ) × (v ≡ pos k) × (k < max_missiles)

abbrev pub IsValidCell : Cell → Type 0
IsValidCell c = IsValidAs c.type c.value

init_cell-IsValidCell : (x y : ℕ) → IsValidCell (init_cell x y)
unfolding init_cell init_wall_cell init_goal_cell
init_cell-IsValidCell x y = by_tests (wall_init_check x y) (goal_init_check y)
  where
    by_tests :
        (w g : Bool)
        → IsValidCell
            (if w then init_wall_cell else (if g then init_goal_cell else init_cell_empty))
    by_tests true g = refl
    by_tests false true = refl
    by_tests false false = refl

module _ {F S : Type 0} where
  abbrev pub HasValidCells : World F S → Type 0
  HasValidCells w = (x y : ℕ) → x < xwin → y < ywin → IsValidCell (cell_at w x y)

  -- The outcome is no fault, and its cells are valid.
  abbrev pub Fine : Outcome F S → Type 0
  Fine r = (p : World F S × Bool) × (r ≡ ok p) × HasValidCells p.0

  pub set-HasValidCells :
      (w : World F S) (a b : ℕ) (c : Cell)
      → IsValidCell c
      → HasValidCells w
      → HasValidCells (write_cell a b c w)
  set-HasValidCells w a b c one all x y hx hy = elim (Bool-cases (a == x)) [
    | inl ea ↦ elim (Bool-cases (b == y)) [
      | inl eb ↦ rw (ea, eb) one
      | inr nb ↦
          rw (ea, nb) (subst (λ z. IsValidCell (cell_at w z y)) (ground arith) (all x y hx hy))
    ]
    | inr na ↦ rw na (all x y hx hy)
  ]

  pub unless_hit-Fine :
      (r : Outcome F S) (next : World F S → Outcome F S)
      → Fine r
      → ((v : World F S) → HasValidCells v → Fine (next v))
      → Fine (unless_hit r next)
  unless_hit-Fine r next ((v, true), e, valid) rest = ((v, true), rw e refl, valid)
  unless_hit-Fine r next ((v, false), e, valid) rest =
      let (q, eq, more) = rest v valid in (q, rw e eq, more)

  score-cell :
      (t : MissileType) (type : CellType) (w : World F S) → (score t type w).env.cell ≡ w.env.cell
  unfolding score
  score-cell t type w = ground arith

  score-HasValidCells :
      (t : MissileType) (type : CellType) (w : World F S)
      → HasValidCells w
      → HasValidCells (score t type w)
  score-HasValidCells t type w valid =
      subst (λ (f : ℕ → ℕ → Cell). (x y : ℕ) → x < xwin → y < ywin → IsValidCell (f x y))
        (sym (score-cell t type w)) valid

  pub handle_collision-Fine :
      (t : MissileType) (x y : ℕ) (w : World F S)
      → x < xwin
      → y < ywin
      → HasValidCells w
      → Fine (handle_collision t x y w)
  unfolding handle_collision
  handle_collision-Fine t x y w hx hy valid = by_type (cell_at w x y).type refl (valid x y hx hy)
    where
      done : (v : World F S) → HasValidCells v → HasValidCells (clear_cell x y v)
      done v hv = set-HasValidCells v x y init_cell_empty refl hv

      by_type :
          (ty : CellType)
          → (cell_at w x y).type ≡ ty
          → IsValidAs ty (cell_at w x y).value
          → Fine (handle_collision t x y w)
      by_type wall e h = ((score t wall w, true), ground arith, score-HasValidCells t wall w valid)
      by_type goal e h = ((score t goal w, true), ground arith, score-HasValidCells t goal w valid)
      by_type empty e h = ((w, false), ground arith, valid)
      by_type atk_missile e (k, ek, lt) =
          let v : World F S = record w { atk_gestor = mark_deleted k w.atk_gestor } in
          (
            (score t atk_missile (clear_cell x y v), true),
            ground arith,
            score-HasValidCells t atk_missile (clear_cell x y v) (done v valid),
          )
      by_type def_missile e (k, ek, lt) =
          let v : World F S = record w { def_gestor = mark_deleted k w.def_gestor } in
          (
            (score t def_missile (clear_cell x y v), true),
            ground arith,
            score-HasValidCells t def_missile (clear_cell x y v) (done v valid),
          )

-- The initial environment has valid cells, whatever the memory held.
pub init_env-HasValidCells :
    {F S : Type 0} ⦃s : Semaphore S⦄ (w : World F S) (memory : Env S)
    → HasValidCells (record w { env = init_env memory })
init_env-HasValidCells w memory x y hx hy =
    subst IsValidCell (sym (init_env-cells memory x y hx hy)) (init_cell-IsValidCell x y)
