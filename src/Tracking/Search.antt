-- ===== src/Tracking/Search.antt =====
-- Which targets count as tracked, and what a search that finds one changes.
use patriots_rtes.Prelude.{
  ℕ, zero, suc, ◌+◌, ◌≤◌, ◌<◌, ◌≡◌, ◌⊎◌, inl, inr, ◌↔◌, Bool, true, false, ℤ, pos, leb_ℤ, ==ℤ_iff,
  ok, Bool-cases, arith, subst,
}
use native.Mathlib.Decide.{dec_lt}
use patriots_rtes.Config.{xwin, ywin, attacker_color, none_index}
use patriots_rtes.World.{World, def_missile}
use patriots_rtes.Collision.{cell_at}
use patriots_rtes.Collision.Scan.{Outcome, unless_hit-false, unless_hit-true}
use patriots_rtes.Tracking.{
  is_already_tracked, check_pixel, mark_target, search_row, search_rows, search_screen_for_target,
}

module _ {F S : Type 0} where
  -- A target is tracked exactly if it is an index that one of the defenders has.
  pub is_already_tracked_lem :
      (target : ℤ) (w : World F S)
      → (is_already_tracked target w ≡ true) ↔ (
          (leb_ℤ (pos 0) target ≡ true)
          × (((w.def_gestor.queue 0).index ≡ target)
              ⊎ ((w.def_gestor.queue 1).index ≡ target)
              ⊎ ((w.def_gestor.queue 2).index ≡ target)
              ⊎ ((w.def_gestor.queue 3).index ≡ target)))
  unfolding is_already_tracked
  is_already_tracked_lem target w = (
    λ h. ground (
      arith,
      ==ℤ_iff (w.def_gestor.queue 0).index target,
      ==ℤ_iff (w.def_gestor.queue 1).index target,
      ==ℤ_iff (w.def_gestor.queue 2).index target,
      ==ℤ_iff (w.def_gestor.queue 3).index target,
    ),
    λ h. ground (
      arith,
      ==ℤ_iff (w.def_gestor.queue 0).index target,
      ==ℤ_iff (w.def_gestor.queue 1).index target,
      ==ℤ_iff (w.def_gestor.queue 2).index target,
      ==ℤ_iff (w.def_gestor.queue 3).index target,
    ),
  )

  module _ (getpixel : ℕ → ℕ → ℕ) where
    -- The test looks at the colour on the screen and not at the type of the cell: it takes the cell of
    -- a defender for an attacker, if the pixel still has the attacker's colour and the cell no target.
    pub check_pixel_any_missile :
        (x y : ℕ) (w : World F S)
        → getpixel x y ≡ attacker_color
        → (cell_at w x y).type ≡ def_missile
        → ((k : ℕ) × ((cell_at w x y).value ≡ pos k))
        → (cell_at w x y).target ≡ none_index
        → check_pixel getpixel x y w ≡ true
    unfolding check_pixel
    check_pixel_any_missile x y w red kind (k, value) free = ground arith

    abbrev pub Passes : World F S → ℕ → ℕ → Type 0
    Passes w x y = check_pixel getpixel x y w ≡ true

    abbrev pub NoneInRow : World F S → ℕ → ℕ → ℕ → Type 0
    NoneInRow w y xa xb = (a : ℕ) → xa ≤ a → a < xb → check_pixel getpixel a y w ≡ false

    abbrev pub NoneInRows : World F S → ℕ → ℕ → Type 0
    NoneInRows w ya yb = (b : ℕ) → ya ≤ b → b < yb → NoneInRow w b 0 xwin

    -- The pixel at (x, y) is the first that passes, row by row, and it is marked.
    pub record FirstMarked (t_assign : ℤ) (w w' : World F S) (ya yb : ℕ) : Type 0 where
      pub x : ℕ
      pub y : ℕ
      pub in_x : x < xwin
      pub in_y : (ya ≤ y) × (y < yb)
      pub passes : Passes w x y
      pub rows_before : NoneInRows w ya y
      pub before : NoneInRow w y 0 x
      pub marked : mark_target t_assign x y w ≡ ok (w', true)

    mark_true :
        (t_assign : ℤ) (x y : ℕ) (w w' : World F S) (c : Bool)
        → mark_target t_assign x y w ≡ ok (w', c)
        → c ≡ true
    unfolding mark_target
    mark_true t_assign x y w w' c h = ground arith

    row_false :
        (t_assign : ℤ) (y rounds x : ℕ) (w w' : World F S)
        → x + rounds ≡ xwin
        → search_row getpixel t_assign y rounds x w ≡ ok (w', false)
        → (w' ≡ w) × NoneInRow w y x xwin
    unfolding search_row
    row_false t y zero x w w' e h = (
      let e' : ◌≡◌ {A = Outcome F S} (ok (w, false)) (ok (w', false)) = h in cc,
      λ a lo hi. absurd (omega arith),
    )
    row_false t y (suc rounds) x w w' e h = elim (Bool-cases (check_pixel getpixel x y w)) [
      | inl found ↦ let bad = mark_true t x y w w' false (rw (found, search_row) at h) in cc
      | inr none_here ↦
          let (same, right) =
            row_false t y rounds (x + 1) w w' (omega arith) (rw (none_here, search_row) at h) in
          (
            same,
            λ a lo hi. elim (dec_lt x a) [
              | yes lt ↦ right a (omega arith) hi
              | no ge ↦
                  let eq : x ≡ a = omega arith in
                  subst (λ z. check_pixel getpixel z y w ≡ false) eq none_here
            ],
          )
    ]

    row_true :
        (t_assign : ℤ) (y rounds x : ℕ) (w w' : World F S)
        → x + rounds ≡ xwin
        → search_row getpixel t_assign y rounds x w ≡ ok (w', true)
        → (a : ℕ) × ((x ≤ a) × (a < xwin))
          × Passes w a y
          × NoneInRow w y x a
          × (mark_target t_assign a y w ≡ ok (w', true))
    unfolding search_row
    row_true t y zero x w w' e h =
        let e' : ◌≡◌ {A = Outcome F S} (ok (w, false)) (ok (w', true)) = h in absurd (cc)
    row_true t y (suc rounds) x w w' e h = elim (Bool-cases (check_pixel getpixel x y w)) [
      | inl found ↦ (
        x,
        (omega arith, omega arith),
        found,
        (λ a lo hi. absurd (omega arith)),
        rw (found, search_row) at h,
      )
      | inr none_here ↦
          let (a, range, found, before, done) =
            row_true t y rounds (x + 1) w w' (omega arith) (rw (none_here, search_row) at h) in
          (
            a,
            (omega arith, range.1),
            found,
            (λ b lo hi. elim (dec_lt x b) [
              | yes lt ↦ before b (omega arith) hi
              | no ge ↦
                  let eq : x ≡ b = omega arith in
                  subst (λ z. check_pixel getpixel z y w ≡ false) eq none_here
            ]),
            done,
          )
    ]

    rows_false :
        (t_assign : ℤ) (rounds y end : ℕ) (w w' : World F S)
        → y + rounds ≡ end
        → search_rows getpixel t_assign rounds y w ≡ ok (w', false)
        → (w' ≡ w) × NoneInRows w y end
    unfolding search_rows
    rows_false t zero y end w w' e h = (
      let e' : ◌≡◌ {A = Outcome F S} (ok (w, false)) (ok (w', false)) = h in cc,
      λ b lo hi. absurd (omega arith),
    )
    rows_false t (suc rounds) y end w w' e h =
        let next = λ (u : World F S). search_rows getpixel t rounds (y + 1) u in
        let (v, one, rest) = unless_hit-false (search_row getpixel t y xwin 0 w) next w' h in
        let (same, clear) = row_false t y xwin 0 w v (omega arith) one in
        let (same', below) =
          rows_false t rounds (y + 1) end w w' (omega arith)
            (subst (λ u. next u ≡ ok (w', false)) same rest) in
        (
          same',
          λ b lo hi. elim (dec_lt y b) [
            | yes lt ↦ below b (omega arith) hi
            | no ge ↦ let eq : y ≡ b = omega arith in subst (λ z. NoneInRow w z 0 xwin) eq clear
          ],
        )

    rows_true :
        (t_assign : ℤ) (rounds y end : ℕ) (w w' : World F S)
        → y + rounds ≡ end
        → search_rows getpixel t_assign rounds y w ≡ ok (w', true)
        → FirstMarked t_assign w w' y end
    unfolding search_rows
    rows_true t zero y end w w' e h =
        let e' : ◌≡◌ {A = Outcome F S} (ok (w, false)) (ok (w', true)) = h in absurd (cc)
    rows_true t (suc rounds) y end w w' e h =
        let next = λ (u : World F S). search_rows getpixel t rounds (y + 1) u in
        elim (unless_hit-true (search_row getpixel t y xwin 0 w) next w' h) [
          | inl now ↦
              let (a, range, found, earlier, done) = row_true t y xwin 0 w w' (omega arith) now in
              record {
                x = a;
                y = y;
                in_x = range.1;
                in_y = omega arith;
                passes = found;
                rows_before = λ b lo hi. absurd (omega arith);
                before = earlier;
                marked = done;
              }
          | inr (v, one, rest) ↦
              let (same, clear) = row_false t y xwin 0 w v (omega arith) one in
              let later =
                rows_true t rounds (y + 1) end w w' (omega arith)
                  (subst (λ u. next u ≡ ok (w', true)) same rest) in
              record {
                x = later.x;
                y = later.y;
                in_x = later.in_x;
                in_y = omega (arith, later.in_y);
                passes = later.passes;
                rows_before = λ b lo hi. elim (dec_lt y b) [
                  | yes lt ↦ later.rows_before b (omega arith) hi
                  | no ge ↦
                      let eq : y ≡ b = omega arith in subst (λ z. NoneInRow w z 0 xwin) eq clear
                ];
                before = later.before;
                marked = later.marked;
              }
        ]

    search_screen_for_target_cases :
        (t_assign : ℤ) (w w' : World F S) (c : Bool)
        → search_screen_for_target getpixel t_assign w ≡ ok (w', c)
        → (c ≡ false → (w' ≡ w) × NoneInRows w 0 ywin)
          × (c ≡ true → FirstMarked t_assign w w' 0 ywin)
    unfolding search_screen_for_target
    search_screen_for_target_cases t w w' c h = (
      λ e. rows_false t ywin 0 ywin w w' (omega arith) (rw e at h),
      λ e. rows_true t ywin 0 ywin w w' (omega arith) (rw e at h),
    )

    -- A search that returns 0 has changed nothing, and no pixel of the window passes the test. One that
    -- returns 1 has marked the first pixel that passes, row by row from the top, and no other.
    pub search_screen_for_target_lem :
        (t_assign : ℤ) (w w' : World F S) (c : Bool)
        → search_screen_for_target getpixel t_assign w ≡ ok (w', c)
        → (c ≡ false) × (w' ≡ w) × NoneInRows w 0 ywin
          ⊎ (c ≡ true) × FirstMarked t_assign w w' 0 ywin
    search_screen_for_target_lem t w w' c h =
        let cases = search_screen_for_target_cases t w w' c h in
        elim (Bool-cases c) [
          | inl e ↦ inr (e, cases.1 e)
          | inr e ↦ (let (same, clear) = cases.0 e in inl (e, same, clear))
        ]
