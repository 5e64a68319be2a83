-- ===== src/Trajectory.antt =====
-- The prediction of a defender's start in src/launchers.c. `float` and `double` are those of the
-- interface; a sampled position and a measured time enter as arguments.
pub mod Bisection
pub mod Sampling
pub mod Asserts
mod Tests
use patriots_rtes.Prelude.{
  ℕ, zero, suc, ◌+◌, ◌-◌, ◌==◌, ltb, if◌then◌else◌, Bool, true, false, not, ◌&&◌, ◌||◌, ℤ, pos,
  ◌-ℤ◌, ◌==ℤ◌, Result, ok, err, ◌>>=◌, ◌>>◌, check,
}
use patriots_rtes.Config.{
  xwin, wall_thickness, missile_radius, def_missile_start_y, def_missile_speed, sample_limit,
  min_samples, epsilon,
}
use patriots_rtes.Platform.{Floating}
use patriots_rtes.World.{Pos}

-- `trajectory_t`
pub record Trajectory (F : Type 0) : Type 0 where
  pub m : F
  pub b : F
  pub speed : F

-- A reading of the clock, as `struct timespec`.
pub record Timespec : Type 0 where
  pub tv_sec : ℤ
  pub tv_nsec : ℤ

module _ {F D : Type 0} (fl : Floating F D) where
  open fl use {
    of_int, add, sub, mul, div, neg, lt, le, to_int, widen, narrow, double_of_int, double_add,
    double_sub, double_div, double_lt, fabs, sqrt, square,
  }

  pub get_pos_distance : Pos → Pos → F
  get_pos_distance pos_a pos_b = narrow (
      sqrt (
        double_add (square (double_of_int (pos_a.x -ℤ pos_b.x)))
          (square (double_of_int (pos_a.y -ℤ pos_b.y)))))

  pub get_line_m : Pos → Pos → F
  get_line_m pos_a pos_b =
      if not (pos_b.x ==ℤ pos_a.x)
      then div (of_int (pos_b.y -ℤ pos_a.y)) (of_int (pos_b.x -ℤ pos_a.x))
      else of_int (pos 0)

  pub get_line_b : F → Pos → F
  get_line_b m p = add (mul (neg m) (of_int p.x)) (of_int p.y)

  pub get_y_from_trajectory : Trajectory F → F → F
  get_y_from_trajectory t x = add (mul t.m x) t.b

  -- The variables of the loop of `get_expected_position_x` that the next round reads.
  pub record Bracket : Type 0 where
    pub x_min : F
    pub x_max : F

  abbrev pub goes_left : Trajectory F → Bool
  goes_left t = lt t.m (of_int (pos 0))

  -- The left and the right limit of the screen for a missile.
  abbrev pub left_limit : ℕ
  left_limit = wall_thickness + missile_radius + 1

  abbrev pub right_limit : ℕ
  right_limit = xwin - wall_thickness - missile_radius - 1

  pub init_bracket : Trajectory F → Pos → Bracket
  init_bracket t current = record {
    x_min = if goes_left t then of_int (pos left_limit) else of_int current.x;
    x_max = if goes_left t then of_int current.x else of_int (pos right_limit);
  }

  abbrev pub middle : Bracket → F
  middle k = div (add k.x_min k.x_max) (of_int (pos 2))

  -- `dsa` and `tmp_dsa` at an `x`.
  pub distances : Trajectory F → Pos → F → F × F
  unfolding get_y_from_trajectory
  distances t current x =
      let y = get_y_from_trajectory t x in
      let dsb = narrow (fabs (double_sub (double_of_int (pos def_missile_start_y)) (widen y))) in
      let dsa = narrow (
        sqrt (
          double_add (square (widen (sub y (of_int current.y))))
            (square (widen (sub x (of_int current.x)))))) in
      (dsa, mul (div t.speed (of_int (pos def_missile_speed))) dsb)

  -- The two assignments at the end of a round.
  pub narrow_bracket : Trajectory F → F × F → Bracket → Bracket
  narrow_bracket t (dsa, tmp_dsa) k =
      let x = middle k in
      record {
        x_min =
            if goes_left t
            then (if lt tmp_dsa dsa then x else k.x_min)
            else (if lt dsa tmp_dsa then x else k.x_min);
        x_max =
            if goes_left t
            then (if lt dsa tmp_dsa then x else k.x_max)
            else (if lt tmp_dsa dsa then x else k.x_max);
      }

  abbrev pub above_epsilon : F → F → Bool
  above_epsilon a b = double_lt (double_of_int (pos epsilon)) (fabs (widen (sub a b)))

  -- The `do` loop with at most a number of rounds to go; the result is the last `x`.
  pub bisect : ℕ → Trajectory F → Pos → Bracket → F
  unfolding distances narrow_bracket
  bisect zero t current k = middle k
  bisect (suc rounds) t current k =
      let d = distances t current (middle k) in
      let rest = bisect rounds t current (narrow_bracket t d k) in
      if above_epsilon d.1 d.0 && not (rounds == 0) then rest else middle k

  pub get_expected_position_x : Trajectory F → Pos → ℤ
  unfolding init_bracket bisect
  get_expected_position_x t current =
      to_int (bisect sample_limit t current (init_bracket t current))

  unfoldable pub calc_speed : Pos → Pos → F → Result F
  unfolding get_pos_distance
  calc_speed pos_a pos_b t_time =
      check (lt (of_int (pos 0)) t_time) >> ok (div (get_pos_distance pos_a pos_b) t_time)
