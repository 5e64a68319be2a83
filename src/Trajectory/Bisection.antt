-- ===== src/Trajectory/Bisection.antt =====
-- The bisection of `get_expected_position_x` stays on the screen, on the side the missile flies to.
use patriots_rtes.Prelude.{
  ℕ, zero, suc, ◌≤◌, ◌≡◌, refl, if◌then◌else◌, Bool, true, false, not, ◌&&◌, ◌==◌, pos, ◌≤ℤ◌, arith,
  sym,
}
use mathlib.Core.Bool.{false≢true}
use patriots_rtes.Config.{xwin, sample_limit}
use patriots_rtes.Platform.{Floating}
use patriots_rtes.World.{Pos}
use patriots_rtes.Trajectory.{
  Trajectory, Bracket, goes_left, left_limit, right_limit, init_bracket, middle, distances,
  narrow_bracket, above_epsilon, bisect, get_expected_position_x,
}

module _ {F D : Type 0} (fl : Floating F D) where
  open fl use {
    of_int, le, lt, div, add, to_int, le_trans, lt_asym, of_int-le, midpoint, to_int-bounds,
  }

  -- `x` is between two whole numbers.
  abbrev pub IsBetween : ℕ → ℕ → F → Type 0
  IsBetween m n x = (le (of_int (pos m)) x ≡ true) × (le x (of_int (pos n)) ≡ true)

  -- The bracket is ordered and lies between two whole numbers.
  record IsBracket (m n : ℕ) (k : Bracket fl) : Type 0 where
    pub from : le (of_int (pos m)) k.x_min ≡ true
    pub ordered : le k.x_min k.x_max ≡ true
    pub upto : le k.x_max (of_int (pos n)) ≡ true

  module _ (m n : ℕ) (inside : n ≤ xwin) where
    middle_lem :
        (k : Bracket fl)
        → IsBracket m n k
        → (le k.x_min (middle fl k) ≡ true) × (le (middle fl k) k.x_max ≡ true)
    middle_lem k h =
        midpoint k.x_min k.x_max
          (le_trans (of_int (pos 0)) (of_int (pos m)) k.x_min (of_int-le 0 m (omega arith)) h.from)
          h.ordered
          (le_trans k.x_max (of_int (pos n)) (of_int (pos xwin)) h.upto (of_int-le n xwin inside))

    middle-IsBetween : (k : Bracket fl) → IsBracket m n k → IsBetween m n (middle fl k)
    middle-IsBetween k h = (
      le_trans (of_int (pos m)) k.x_min (middle fl k) h.from (middle_lem k h).0,
      le_trans (middle fl k) k.x_max (of_int (pos n)) (middle_lem k h).1 h.upto,
    )

    -- Each end may move to the middle, but not both.
    narrowed-IsBracket :
        (k : Bracket fl)
        → IsBracket m n k
        → (p q : Bool) → (p ≡ true → q ≡ false)
        → IsBracket m n (record {
          x_min = if p then middle fl k else k.x_min;
          x_max = if q then middle fl k else k.x_max;
        })
    narrowed-IsBracket k h true true one = absurd (false≢true (sym (one refl)))
    narrowed-IsBracket k h true false one = record {
      from = (middle-IsBetween k h).0;
      ordered = (middle_lem k h).1;
      upto = h.upto;
    }
    narrowed-IsBracket k h false true one = record {
      from = h.from;
      ordered = (middle_lem k h).0;
      upto = (middle-IsBetween k h).1;
    }
    narrowed-IsBracket k h false false one = h

    narrow_bracket-IsBracket :
        (t : Trajectory F) (d : F × F) (k : Bracket fl)
        → IsBracket m n k
        → IsBracket m n (narrow_bracket fl t d k)
    unfolding narrow_bracket
    narrow_bracket-IsBracket t (a, b) k h = by_side (goes_left fl t)
      where
        by_side :
            (left : Bool)
            → IsBracket m n (record {
              x_min =
                  if left
                  then (if lt b a then middle fl k else k.x_min)
                  else (if lt a b then middle fl k else k.x_min);
              x_max =
                  if left
                  then (if lt a b then middle fl k else k.x_max)
                  else (if lt b a then middle fl k else k.x_max);
            })
        by_side true = narrowed-IsBracket k h (lt b a) (lt a b) (lt_asym b a)
        by_side false = narrowed-IsBracket k h (lt a b) (lt b a) (lt_asym a b)

    bisect-IsBetween :
        (rounds : ℕ) (t : Trajectory F) (current : Pos) (k : Bracket fl)
        → IsBracket m n k
        → IsBetween m n (bisect fl rounds t current k)
    unfolding bisect
    bisect-IsBetween zero t current k h = middle-IsBetween k h
    bisect-IsBetween (suc rounds) t current k h =
        let d = distances fl t current (middle fl k) in
        let rest =
          bisect-IsBetween rounds t current (narrow_bracket fl t d k)
            (narrow_bracket-IsBracket t d k h) in
        by_flag (above_epsilon fl d.1 d.0 && not (rounds == 0)) rest
      where
        by_flag :
            (b : Bool) {x : F} → IsBetween m n x → IsBetween m n (if b then x else middle fl k)
        by_flag true done = done
        by_flag false done = middle-IsBetween k h

  init_bracket-IsBracket :
      (t : Trajectory F) (current : Pos) (c : ℕ)
      → current.x ≡ pos c
      → left_limit fl ≤ c
      → c ≤ right_limit fl
      → IsBracket
          (if goes_left fl t then left_limit fl else c)
          (if goes_left fl t then c else right_limit fl)
          (init_bracket fl t current)
  unfolding init_bracket
  init_bracket-IsBracket t current c e lo hi = rw e (by_side (goes_left fl t))
    where
      by_side :
          (left : Bool)
          → IsBracket
              (if left then left_limit fl else c)
              (if left then c else right_limit fl)
              (record {
                x_min = if left then of_int (pos (left_limit fl)) else of_int (pos c);
                x_max = if left then of_int (pos c) else of_int (pos (right_limit fl));
              })
      by_side true = record {
        from = of_int-le 8 8 (omega arith);
        ordered = of_int-le 8 c lo;
        upto = of_int-le c c (omega arith);
      }
      by_side false = record {
        from = of_int-le c c (omega arith);
        ordered = of_int-le c 632 hi;
        upto = of_int-le 632 632 (omega arith);
      }

  -- From a position at least 8 and at most 632 pixels from the left of the screen, the predicted x lies
  -- between the position and the limit on the side that the missile flies to: 8 on the left, 632 on the
  -- right.
  pub get_expected_position_x-bounds :
      (t : Trajectory F) (current : Pos) (c : ℕ)
      → current.x ≡ pos c
      → left_limit fl ≤ c
      → c ≤ right_limit fl
      → (pos (if goes_left fl t then left_limit fl else c) ≤ℤ get_expected_position_x fl t current)
        × (get_expected_position_x fl t current
            ≤ℤ pos (if goes_left fl t then c else right_limit fl))
  unfolding get_expected_position_x
  get_expected_position_x-bounds t current c e lo hi =
      let lower = if goes_left fl t then left_limit fl else c in
      let upper = if goes_left fl t then c else right_limit fl in
      let found =
        bisect-IsBetween lower upper (ground arith) sample_limit t current
          (init_bracket fl t current) (init_bracket-IsBracket t current c e lo hi) in
      to_int-bounds lower upper _ (ground arith) found.0 found.1
