-- ===== src/Collision/Scan.antt =====
-- The loops of `collision_around` stop at the first foreign cell of the box, and handle that one alone.
use patriots_rtes.Prelude.{
  ℕ, zero, suc, ◌+◌, ◌-◌, ◌≤◌, ◌<◌, ◌≡◌, refl, ◌⊎◌, inl, inr, Bool, true, false, Result, ok, err,
  arith, Bool-cases, subst,
}
use native.Mathlib.Decide.{dec_lt}
use patriots_rtes.World.{Missile, World}
use patriots_rtes.Collision.{
  cell_at, is_foreign, handle_collision, scan_cell, scan_column, scan_columns, collision_around,
  unless_hit,
}

abbrev pub Outcome : Type 0 → Type 0 → Type 0
Outcome F S = Result (World F S × Bool)

module _ {F S : Type 0} where
  pub unless_hit-false :
      (r : Outcome F S) (next : World F S → Outcome F S) (w' : World F S)
      → unless_hit r next ≡ ok (w', false)
      → (v : World F S) × (r ≡ ok (v, false)) × (next v ≡ ok (w', false))
  unless_hit-false (ok (v, true)) next w' h = cc
  unless_hit-false (ok (v, false)) next w' h = (v, refl, h)
  unless_hit-false (err e) next w' h = cc

  pub unless_hit-true :
      (r : Outcome F S) (next : World F S → Outcome F S) (w' : World F S)
      → unless_hit r next ≡ ok (w', true)
      → (r ≡ ok (w', true)) ⊎ ((v : World F S) × (r ≡ ok (v, false)) × (next v ≡ ok (w', true)))
  unless_hit-true (ok (v, true)) next w' h = inl h
  unless_hit-true (ok (v, false)) next w' h = inr (v, refl, h)
  unless_hit-true (err e) next w' h = cc

  module _ (missile : Missile F S) where
    -- The scan passes this cell by.
    abbrev pub IsClear : World F S → ℕ → ℕ → Type 0
    IsClear w x y = is_foreign missile (cell_at w x y) ≡ false

    handle_collision_foreign :
        (x y : ℕ) (w w' : World F S) (c : Bool)
        → is_foreign missile (cell_at w x y) ≡ true
        → handle_collision missile.missile_type x y w ≡ ok (w', c)
        → c ≡ true
    unfolding handle_collision
    handle_collision_foreign x y w w' c f h = ground arith

    scan_cell-false :
        (x y : ℕ) (w w' : World F S)
        → scan_cell missile x y w ≡ ok (w', false)
        → (w' ≡ w) × IsClear w x y
    unfolding scan_cell
    scan_cell-false x y w w' h = elim (Bool-cases (is_foreign missile (cell_at w x y))) [
      | inl f ↦
          let h' : handle_collision missile.missile_type x y w ≡ ok (w', false) = ground arith in
          let bad = handle_collision_foreign x y w w' false f h' in cc
      | inr clear ↦
          let e : ◌≡◌ {A = Outcome F S} (ok (w, false)) (ok (w', false)) = ground arith in
          (cc, clear)
    ]

    scan_cell-true :
        (x y : ℕ) (w w' : World F S)
        → scan_cell missile x y w ≡ ok (w', true)
        → (is_foreign missile (cell_at w x y) ≡ true)
          × (handle_collision missile.missile_type x y w ≡ ok (w', true))
    unfolding scan_cell
    scan_cell-true x y w w' h = elim (Bool-cases (is_foreign missile (cell_at w x y))) [
      | inl f ↦ (f, rw f at h)
      | inr clear ↦
          let e : ◌≡◌ {A = Outcome F S} (ok (w, false)) (ok (w', true)) = rw clear at h in cc
    ]

    -- The scan passes a stretch of a column by, and a stretch of columns.
    abbrev pub IsClearColumn : World F S → ℕ → ℕ → ℕ → Type 0
    IsClearColumn w x y end = (b : ℕ) → y ≤ b → b < end → IsClear w x b

    abbrev pub IsClearBox : World F S → ℕ → ℕ → ℕ → ℕ → Type 0
    IsClearBox w xa ya xb yb = (a : ℕ) → xa ≤ a → a < xb → IsClearColumn w a ya yb

    -- The cell at (x, y) is the first foreign one of the box, column by column, and its collision is
    -- handled.
    pub record FirstHit (w w' : World F S) (xa ya xb yb : ℕ) : Type 0 where
      pub x : ℕ
      pub y : ℕ
      pub in_x : (xa ≤ x) × (x < xb)
      pub in_y : (ya ≤ y) × (y < yb)
      pub foreign : is_foreign missile (cell_at w x y) ≡ true
      pub columns_before : IsClearBox w xa ya x yb
      pub cells_before : IsClearColumn w x ya y
      pub handled : handle_collision missile.missile_type x y w ≡ ok (w', true)

    column_false :
        (x rounds y end : ℕ) (w w' : World F S)
        → y + rounds ≡ end
        → scan_column missile x rounds y w ≡ ok (w', false)
        → (w' ≡ w) × IsClearColumn w x y end
    unfolding scan_column
    column_false x zero y end w w' e h = (
      let e' : ◌≡◌ {A = Outcome F S} (ok (w, false)) (ok (w', false)) = h in cc,
      λ b lo hi. absurd (omega arith),
    )
    column_false x (suc rounds) y end w w' e h =
        let (v, one, rest) =
          unless_hit-false (scan_cell missile x y w) (λ u. scan_column missile x rounds (y + 1) u)
            w' h in
        let (same, clear) = scan_cell-false x y w v one in
        let (same', below) =
          column_false x rounds (y + 1) end w w' (omega arith)
            (subst (λ u. scan_column missile x rounds (y + 1) u ≡ ok (w', false)) same rest) in
        (
          same',
          λ b lo hi. elim (dec_lt y b) [
            | yes lt ↦ below b (omega arith) hi
            | no ge ↦ let eq : y ≡ b = omega arith in subst (λ z. IsClear w x z) eq clear
          ],
        )

    column_true :
        (x rounds y end : ℕ) (w w' : World F S)
        → y + rounds ≡ end
        → scan_column missile x rounds y w ≡ ok (w', true)
        → (b : ℕ) × ((y ≤ b) × (b < end))
          × (is_foreign missile (cell_at w x b) ≡ true)
          × IsClearColumn w x y b
          × (handle_collision missile.missile_type x b w ≡ ok (w', true))
    unfolding scan_column
    column_true x zero y end w w' e h =
        let e' : ◌≡◌ {A = Outcome F S} (ok (w, false)) (ok (w', true)) = h in cc
    column_true x (suc rounds) y end w w' e h =
        elim (unless_hit-true (scan_cell missile x y w)
          (λ u. scan_column missile x rounds (y + 1) u) w' h) [
            | inl now ↦
                let (f, done) = scan_cell-true x y w w' now in
                (y, (omega arith, omega arith), f, (λ b lo hi. absurd (omega arith)), done)
            | inr (v, one, rest) ↦
                let (same, clear) = scan_cell-false x y w v one in
                let (b, range, f, before, done) =
                  column_true x rounds (y + 1) end w w' (omega arith) (
                    subst (λ u. scan_column missile x rounds (y + 1) u ≡ ok (w', true)) same
                      rest) in
                (
                  b,
                  (omega arith, range.1),
                  f,
                  (λ c lo hi. elim (dec_lt y c) [
                    | yes lt ↦ before c (omega arith) hi
                    | no ge ↦ let eq : y ≡ c = omega arith in subst (λ z. IsClear w x z) eq clear
                  ]),
                  done,
                )
          ]

    columns_false :
        (ya yb height rounds x end : ℕ) (w w' : World F S)
        → ya + height ≡ yb
        → x + rounds ≡ end
        → scan_columns missile ya height rounds x w ≡ ok (w', false)
        → (w' ≡ w) × IsClearBox w x ya end yb
    unfolding scan_columns
    columns_false ya yb height zero x end w w' ey e h = (
      let e' : ◌≡◌ {A = Outcome F S} (ok (w, false)) (ok (w', false)) = h in cc,
      λ a lo hi. absurd (omega arith),
    )
    columns_false ya yb height (suc rounds) x end w w' ey e h =
        let next = λ (u : World F S). scan_columns missile ya height rounds (x + 1) u in
        let (v, one, rest) = unless_hit-false (scan_column missile x height ya w) next w' h in
        let (same, clear) = column_false x height ya yb w v ey one in
        let (same', right) =
          columns_false ya yb height rounds (x + 1) end w w' ey (omega arith)
            (subst (λ u. next u ≡ ok (w', false)) same rest) in
        (
          same',
          λ a lo hi. elim (dec_lt x a) [
            | yes lt ↦ right a (omega arith) hi
            | no ge ↦ let eq : x ≡ a = omega arith in subst (λ z. IsClearColumn w z ya yb) eq clear
          ],
        )

    columns_true :
        (ya yb height rounds x end : ℕ) (w w' : World F S)
        → ya + height ≡ yb
        → x + rounds ≡ end
        → scan_columns missile ya height rounds x w ≡ ok (w', true)
        → FirstHit w w' x ya end yb
    unfolding scan_columns
    columns_true ya yb height zero x end w w' ey e h =
        let e' : ◌≡◌ {A = Outcome F S} (ok (w, false)) (ok (w', true)) = h in absurd (cc)
    columns_true ya yb height (suc rounds) x end w w' ey e h =
        let next = λ (u : World F S). scan_columns missile ya height rounds (x + 1) u in
        elim (unless_hit-true (scan_column missile x height ya w) next w' h) [
          | inl now ↦
              let (b, range, f, before, done) = column_true x height ya yb w w' ey now in
              record {
                x = x;
                y = b;
                in_x = omega arith;
                in_y = range;
                foreign = f;
                columns_before = λ a lo hi. absurd (omega arith);
                cells_before = before;
                handled = done;
              }
          | inr (v, one, rest) ↦
              let (same, clear) = column_false x height ya yb w v ey one in
              let later =
                columns_true ya yb height rounds (x + 1) end w w' ey (omega arith)
                  (subst (λ u. next u ≡ ok (w', true)) same rest) in
              record {
                x = later.x;
                y = later.y;
                in_x = omega (arith, later.in_x);
                in_y = later.in_y;
                foreign = later.foreign;
                columns_before = λ a lo hi. elim (dec_lt x a) [
                  | yes lt ↦ later.columns_before a (omega arith) hi
                  | no ge ↦
                      let eq : x ≡ a = omega arith in subst (λ z. IsClearColumn w z ya yb) eq clear
                ];
                cells_before = later.cells_before;
                handled = later.handled;
              }
        ]

    pub collision_around_cases :
        (xa ya xb yb : ℕ) (w w' : World F S) (c : Bool)
        → xa ≤ xb
        → ya ≤ yb
        → collision_around xa ya xb yb missile w ≡ ok (w', c)
        → (c ≡ false → (w' ≡ w) × IsClearBox w xa ya xb yb) × (c ≡ true → FirstHit w w' xa ya xb yb)
    unfolding collision_around
    collision_around_cases xa ya xb yb w w' c hx hy h = (
      λ e.
          columns_false ya yb (yb - ya) (xb - xa) xa xb w w' (omega arith) (omega arith)
            (rw e at h),
      λ e.
          columns_true ya yb (yb - ya) (xb - xa) xa xb w w' (omega arith) (omega arith) (rw e at h),
    )

    -- If `collision_around` reports no collision, it has changed nothing and no cell of the box is
    -- foreign. If it reports one, it has handled the first foreign cell of the box, and no other.
    pub collision_around_lem :
        (xa ya xb yb : ℕ) (w w' : World F S) (c : Bool)
        → xa ≤ xb
        → ya ≤ yb
        → collision_around xa ya xb yb missile w ≡ ok (w', c)
        → (c ≡ false) × (w' ≡ w) × IsClearBox w xa ya xb yb ⊎ (c ≡ true) × FirstHit w w' xa ya xb yb
    collision_around_lem xa ya xb yb w w' c hx hy h =
        let cases = collision_around_cases xa ya xb yb w w' c hx hy h in
        elim (Bool-cases c) [
          | inl e ↦ inr (e, cases.1 e)
          | inr e ↦ (let (same, clear) = cases.0 e in inl (e, same, clear))
        ]
