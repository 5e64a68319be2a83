-- ===== src/Tracking/Position.antt =====
-- `scan_env_for_target_pos` finds the first cell with a target.
use patriots_rtes.Prelude.{
  ℕ, zero, suc, ◌+◌, ◌≤◌, ◌<◌, ◌≡◌, refl, ◌⊎◌, inl, inr, Bool, true, false, ℤ, pos, ◌==ℤ◌, ==ℤ_iff,
  Bool-cases, subst, arith, sym, ap, ◌∙◌,
}
use mathlib.Core.Bool.{false≢true}
use native.Mathlib.Decide.{dec_lt}
use patriots_rtes.Config.{xwin, ywin}
use patriots_rtes.World.{Pos, World}
use patriots_rtes.Collision.{cell_at}
use patriots_rtes.Tracking.{scan_ys, scan_xs, scan_env_for_target_pos, not_found}

module _ {F S : Type 0} (target : ℤ) (w : World F S) where
  abbrev pub HasTarget : ℕ → ℕ → Type 0
  HasTarget x y = (cell_at w x y).target ≡ target

  -- The cell at (x, y) is the first with the target, column by column.
  pub record FirstAt (xa xb : ℕ) (p : Pos) : Type 0 where
    pub x : ℕ
    pub y : ℕ
    pub place : p ≡ record { x = pos x; y = pos y }
    pub in_x : (xa ≤ x) × (x < xb)
    pub in_y : y < ywin
    pub found : HasTarget x y
    pub left_of : (a b : ℕ) → xa ≤ a → a < x → b < ywin → ¬ HasTarget a b
    pub above : (b : ℕ) → b < y → ¬ HasTarget x b

  abbrev Column : ℕ → ℕ → Pos × Bool → Type 0
  Column x y r =
      (r ≡ (not_found, false)) × ((b : ℕ) → y ≤ b → b < ywin → ¬ HasTarget x b)
      ⊎ (b : ℕ) × (r ≡ (record { x = pos x; y = pos b }, true))
        × ((y ≤ b) × (b < ywin))
        × HasTarget x b
        × ((c : ℕ) → y ≤ c → c < b → ¬ HasTarget x c)

  -- What holds of the first cell and below it holds from it on.
  from_next :
      (x y : ℕ)
      → ¬ HasTarget x y
      → (end : ℕ) → ((b : ℕ) → y + 1 ≤ b → b < end → ¬ HasTarget x b)
      → (b : ℕ) → y ≤ b
      → b < end
      → ¬ HasTarget x b
  from_next x y skip end below b lo hi = elim (dec_lt y b) [
    | yes lt ↦ below b (omega arith) hi
    | no ge ↦ let e : y ≡ b = omega arith in subst (λ z. ¬ HasTarget x z) e skip
  ]

  split_column :
      (x a : ℕ)
      → x ≤ a
      → ((b : ℕ) → b < ywin → ¬ HasTarget x b)
      → (x < a → (b : ℕ) → b < ywin → ¬ HasTarget a b)
      → (b : ℕ) → b < ywin
      → ¬ HasTarget a b
  split_column x a lo first right b lt = elim (dec_lt x a) [
    | yes gt ↦ right gt b lt
    | no eq ↦ let e : x ≡ a = omega arith in subst (λ z. ¬ HasTarget z b) e (first b lt)
  ]

  scan_ys-Column : (x rounds y : ℕ) → y + rounds ≡ ywin → Column x y (scan_ys target x rounds y w)
  unfolding scan_ys
  scan_ys-Column x zero y e = inl (refl, λ b lo hi. absurd (omega arith))
  scan_ys-Column x (suc rounds) y e = elim (Bool-cases ((cell_at w x y).target ==ℤ target)) [
    | inl here ↦
        rw (here, scan_ys)
          (inr (
            y,
            refl,
            (omega arith, omega arith),
            (==ℤ_iff (cell_at w x y).target target).0 here,
            λ c lo hi. absurd (omega arith),
          ))
    | inr other ↦
        let skip : ¬ HasTarget x y =
          λ h. false≢true ((sym other) ∙ (==ℤ_iff (cell_at w x y).target target).1 h) in
        rw (other, scan_ys)
          (elim (scan_ys-Column x rounds (y + 1) (omega arith)) [
            | inl (r, none_below) ↦ inl (r, from_next x y skip ywin none_below)
            | inr (b, r, range, hit, before) ↦
                inr (b, r, (omega arith, range.1), hit, from_next x y skip b before)
          ])
  ]

  abbrev Area : ℕ → ℕ → Pos × Bool → Type 0
  Area x end r =
      (r ≡ (not_found, false)) × ((a b : ℕ) → x ≤ a → a < end → b < ywin → ¬ HasTarget a b)
      ⊎ (r.1 ≡ true) × FirstAt x end r.0

  scan_xs-Area : (rounds x end : ℕ) → x + rounds ≡ end → Area x end (scan_xs target rounds x w)
  unfolding scan_xs
  scan_xs-Area zero x end e = inl (refl, λ a b lo hi. absurd (omega arith))
  scan_xs-Area (suc rounds) x end e = elim (scan_ys-Column x ywin 0 (omega arith)) [
    | inl (r, none_here) ↦
        let first : (b : ℕ) → b < ywin → ¬ HasTarget x b = λ b lt. none_here b (omega arith) lt in
        rw r (elim (scan_xs-Area rounds (x + 1) end (omega arith)) [
          | inl (q, none_right) ↦ inl (
            q,
            λ a b lo hi lt.
                split_column x a lo first (λ gt c lc. none_right a c (omega arith) hi lc) b lt,
          )
          | inr (q, f) ↦ inr (
            q,
            record {
              x = f.x;
              y = f.y;
              place = f.place;
              in_x = omega (arith, f.in_x);
              in_y = f.in_y;
              found = f.found;
              left_of = λ a b lo hi lt.
                  split_column x a lo first (λ gt c lc. f.left_of a c (omega arith) hi lc) b lt;
              above = f.above;
            },
          )
        ])
    | inr (b, r, range, hit, before) ↦ rw r (
        inr (
          refl,
          record {
            x = x;
            y = b;
            place = refl;
            in_x = omega arith;
            in_y = range.1;
            found = hit;
            left_of = λ a c lo hi lt. absurd (omega arith);
            above = λ c hi. before c (omega arith) hi;
          },
        ))
  ]

  -- Either the position is (NONE, NONE) and no cell of the window has the target, or it is the first
  -- one that has, column by column from the left.
  pub scan_env_for_target_pos_lem :
      (scan_env_for_target_pos target w ≡ not_found)
        × ((a b : ℕ) → a < xwin → b < ywin → ¬ HasTarget a b)
      ⊎ FirstAt 0 xwin (scan_env_for_target_pos target w)
  unfolding scan_env_for_target_pos
  scan_env_for_target_pos_lem = elim (scan_xs-Area xwin 0 xwin (omega arith)) [
    | inl (r, nowhere) ↦
        inl (ap (λ (q : Pos × Bool). q.0) r, λ a b la lb. nowhere a b (omega arith) la lb)
    | inr (q, f) ↦ inr f
  ]
