-- ===== src/Display/Cells.antt =====
-- Which circles a drawing of the environment has.
use patriots_rtes.Prelude.{
  ℕ, zero, suc, ◌+◌, ◌≤◌, ◌<◌, ◌≡◌, refl, if◌then◌else◌, ltb, leb, ◌==◌, Bool, false, not, ◌&&◌,
  ◌||◌, List, [], ◌∷◌, ◌++◌, pos, ◌==ℤ◌, arith, ◌∙◌,
}
use patriots_rtes.Config.{xwin, ywin, missile_radius, attacker_color}
use patriots_rtes.World.{Cell, Env, atk_missile}
use patriots_rtes.Grid.{
  same_type, is_missile_cell, is_wall_cell, is_goal_cell, cell_to_missile_type, is_empty_cell,
}
use patriots_rtes.Display.{
  DrawCommand, circlefill, draw_cell, draw_column, draw_columns, draw_env, draw_labels,
  display_round, reset_buffer, draw_buffer_to_screen,
}

-- A circle of a missile's size in the attackers' colour around (x, y).
abbrev pub is_red_at : ℕ → ℕ → DrawCommand → Bool
is_red_at x y (circlefill a b r c) =
    a ==ℤ pos x && b ==ℤ pos y && r == missile_radius && c == attacker_color
is_red_at x y _ = false

-- Some command passes a test.
unfoldable pub draws : (DrawCommand → Bool) → List DrawCommand → Bool
draws p [] = false
draws p (c ∷ cs) = p c || draws p cs

draws-++ :
    (p : DrawCommand → Bool) (cs ds : List DrawCommand)
    → draws p (cs ++ ds) ≡ (draws p cs || draws p ds)
unfolding draws
draws-++ p [] ds = refl
draws-++ p (c ∷ cs) ds = ground (arith, draws-++ p cs ds)

-- The cell of an attacker.
abbrev pub attacks : Cell → Bool
attacks c = is_missile_cell c && same_type c.type atk_missile

module _ (x y : ℕ) where
  draws-draw_cell :
      (c : Cell) (a b : ℕ)
      → a < xwin
      → b < ywin
      → draws (is_red_at x y) (if not (is_empty_cell c) then draw_cell c a b else [])
        ≡ (a == x && b == y && attacks c)
  unfolding draws draw_cell is_missile_cell is_wall_cell is_goal_cell cell_to_missile_type
  draws-draw_cell c a b la lb = ground arith

  module _ {S : Type 0} (e : Env S) where
    same_place :
        (a b : ℕ)
        → (a == x && b == y && attacks (e.cell a b)) ≡ (a == x && b == y && attacks (e.cell x y))
    same_place a b = ground arith

    draws-draw_column :
        (rounds a b : ℕ)
        → a < xwin
        → b + rounds ≤ ywin
        → draws (is_red_at x y) (draw_column rounds a b e)
          ≡ (a == x && leb b y && ltb y (b + rounds) && attacks (e.cell x y))
    unfolding draws draw_column
    draws-draw_column zero a b la lb = ground arith
    draws-draw_column (suc rounds) a b la lb =
        draws-++ (is_red_at x y)
          (if not (is_empty_cell (e.cell a b)) then draw_cell (e.cell a b) a b else [])
          (draw_column rounds a (b + 1) e)
        ∙ join (draws-draw_cell (e.cell a b) a b la (omega arith) ∙ same_place a b)
            (draws-draw_column rounds a (b + 1) la (omega arith))
      where
        join :
            {p q : Bool}
            → p ≡ (a == x && b == y && attacks (e.cell x y))
            → q ≡ (a == x && leb (b + 1) y && ltb y (b + 1 + rounds) && attacks (e.cell x y))
            → (p || q) ≡ (a == x && leb b y && ltb y (b + suc rounds) && attacks (e.cell x y))
        join {p} {q} hp hq = rw (hp, hq) (flags (attacks (e.cell x y)))
          where
            flags :
                (r : Bool)
                → (a == x && b == y && r || a == x && leb (b + 1) y && ltb y (b + 1 + rounds) && r)
                  ≡ (a == x && leb b y && ltb y (b + suc rounds) && r)
            flags r = ground arith

    draws-draw_columns :
        (rounds a : ℕ)
        → a + rounds ≤ xwin
        → draws (is_red_at x y) (draw_columns rounds a e)
          ≡ (leb a x && ltb x (a + rounds) && ltb y ywin && attacks (e.cell x y))
    unfolding draws draw_columns
    draws-draw_columns zero a la = ground arith
    draws-draw_columns (suc rounds) a la =
        draws-++ (is_red_at x y) (draw_column ywin a 0 e) (draw_columns rounds (a + 1) e)
        ∙ join (draws-draw_column ywin a 0 (omega arith) (omega arith))
            (draws-draw_columns rounds (a + 1) (omega arith))
      where
        join :
            {p q : Bool}
            → p ≡ (a == x && leb 0 y && ltb y ywin && attacks (e.cell x y))
            → q ≡ (leb (a + 1) x && ltb x (a + 1 + rounds) && ltb y ywin && attacks (e.cell x y))
            → (p || q) ≡ (leb a x && ltb x (a + suc rounds) && ltb y ywin && attacks (e.cell x y))
        join {p} {q} hp hq = rw (hp, hq) (flags (attacks (e.cell x y)))
          where
            flags :
                (r : Bool)
                → (a == x && leb 0 y && ltb y ywin && r
                    || leb (a + 1) x && ltb x (a + 1 + rounds) && ltb y ywin && r)
                  ≡ (leb a x && ltb x (a + suc rounds) && ltb y ywin && r)
            flags r = ground arith

    draws-draw_labels : (m n : ℕ) → draws (is_red_at x y) (draw_labels m n) ≡ false
    unfolding draws draw_labels
    draws-draw_labels m n = refl

    -- A drawing of the environment has a circle in the attackers' colour around (x, y) exactly if (x, y) is in the window
    -- and the cell there is an attacker's.
    draws-draw_env :
        draws (is_red_at x y) (draw_env e) ≡ (ltb x xwin && ltb y ywin && attacks (e.cell x y))
    unfolding draw_env
    draws-draw_env =
        draws-++ (is_red_at x y) (draw_columns xwin 0 e) (draw_labels e.atk_points e.def_points)
        ∙ join (draws-draw_columns xwin 0 (omega arith))
            (draws-draw_labels e.atk_points e.def_points)
      where
        join :
            {p q : Bool}
            → p ≡ (leb 0 x && ltb x xwin && ltb y ywin && attacks (e.cell x y))
            → q ≡ false
            → (p || q) ≡ (ltb x xwin && ltb y ywin && attacks (e.cell x y))
        join {p} {q} hp hq = rw (hp, hq) (flags (attacks (e.cell x y)))
          where
            flags :
                (r : Bool)
                → (leb 0 x && ltb x xwin && ltb y ywin && r || false)
                  ≡ (ltb x xwin && ltb y ywin && r)
            flags r = ground arith

    -- A round of the display has a circle in the attackers' colour around (x, y) exactly if (x, y) is in
    -- the window and the cell there is an attacker's.
    pub draws-display_round :
        draws (is_red_at x y) (display_round e) ≡ (ltb x xwin && ltb y ywin && attacks (e.cell x y))
    unfolding draws display_round reset_buffer draw_buffer_to_screen
    draws-display_round =
        draws-++ (is_red_at x y) (draw_env e) draw_buffer_to_screen ∙ with_end draws-draw_env
      where
        with_end :
            {p : Bool}
            → p ≡ (ltb x xwin && ltb y ywin && attacks (e.cell x y))
            → (p || false) ≡ (ltb x xwin && ltb y ywin && attacks (e.cell x y))
        with_end {p} h = ground (arith, h)
