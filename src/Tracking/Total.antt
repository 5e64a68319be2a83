-- ===== src/Tracking/Total.antt =====
-- With valid cells a search never faults, and leaves valid cells.
use patriots_rtes.Prelude.{
  ℕ, zero, suc, ◌+◌, ◌<◌, ◌≡◌, refl, true, false, ℤ, pos, ok, ◌>>=◌, leb_ℤ, arith, ap, update,
  in_range_pos, Bool, Bool-cases, inl, inr, sym, ◌∙◌, subst,
}
use patriots_rtes.Config.{xwin, ywin, max_missiles}
use patriots_rtes.World.{World, CellType, wall, goal, empty, atk_missile, def_missile}
use patriots_rtes.Collision.{cell_at, write_cell}
use patriots_rtes.Collision.Valid.{
  HasValidCells, IsValidAs, Fine, set-HasValidCells, unless_hit-Fine,
}
use patriots_rtes.Collision.Frame.{SameQueues}
use patriots_rtes.Collision.Scan.{Outcome}
use patriots_rtes.Tracking.Search.{is_already_tracked_lem, search_screen_for_target_lem}
use patriots_rtes.Tracking.{
  assign_target_to_atk, is_already_tracked, check_pixel, mark_target, search_row, search_rows,
  search_screen_for_target,
}

-- A valid value that is not negative is the index of a missile.
IsValidAs-index :
    (t : CellType) (v : ℤ)
    → IsValidAs t v
    → leb_ℤ (pos 0) v ≡ true
    → (k : ℕ) × (v ≡ pos k) × (k < max_missiles)
IsValidAs-index wall v h p = absurd (ground (arith, h))
IsValidAs-index goal v h p = absurd (ground (arith, h))
IsValidAs-index empty v h p = absurd (ground (arith, h))
IsValidAs-index atk_missile v h p = h
IsValidAs-index def_missile v h p = h

module _ {F S : Type 0} where
  abbrev assigned : ℤ → ℕ → World F S → World F S
  assigned t_assign k w = record w {
    atk_gestor = record (w.atk_gestor) {
      queue =
          update w.atk_gestor.queue k
            (record (w.atk_gestor.queue k) { assigned_target = t_assign });
    };
  }

  -- The world with the target `t_assign` in the cell at (x, y) and in the attacker `k`.
  abbrev pub marked : ℤ → ℕ → ℕ → ℕ → World F S → World F S
  marked t_assign k x y w =
      write_cell x y (record (cell_at w x y) { target = t_assign }) (assigned t_assign k w)

  assign_target_lem :
      (t_assign : ℤ) (k : ℕ) (value : ℤ) (w : World F S)
      → value ≡ pos k
      → k < max_missiles
      → assign_target_to_atk value t_assign w ≡ ok (assigned t_assign k w)
  unfolding assign_target_to_atk
  assign_target_lem t k value w e lt = rw (e, in_range_pos max_missiles k lt) refl

  pub mark_target_lem :
      (t_assign : ℤ) (k x y : ℕ) (w : World F S)
      → (cell_at w x y).value ≡ pos k
      → k < max_missiles
      → mark_target t_assign x y w ≡ ok (marked t_assign k x y w, true)
  unfolding mark_target
  mark_target_lem t k x y w e lt =
      ap (λ r. r >>= λ v. ok (write_cell x y (record (cell_at v x y) { target = t }) v, true))
        (assign_target_lem t k (cell_at w x y).value w e lt)

  -- A pixel that passes has the index of a missile in its cell.
  pub check_pixel-index :
      (getpixel : ℕ → ℕ → ℕ) (x y : ℕ) (w : World F S)
      → HasValidCells w
      → x < xwin
      → y < ywin
      → check_pixel getpixel x y w ≡ true
      → (k : ℕ) × ((cell_at w x y).value ≡ pos k) × (k < max_missiles)
  unfolding check_pixel
  check_pixel-index getpixel x y w valid lx ly passes =
      IsValidAs-index (cell_at w x y).type (cell_at w x y).value (valid x y lx ly)
        (ground (arith, passes))

module _ {F S : Type 0} (getpixel : ℕ → ℕ → ℕ) where
  mark_target-Fine :
      (t_assign : ℤ) (x y : ℕ) (w : World F S)
      → HasValidCells w
      → x < xwin
      → y < ywin
      → check_pixel getpixel x y w ≡ true
      → Fine (mark_target t_assign x y w)
  unfolding mark_target
  mark_target-Fine t x y w valid lx ly passes =
      let (k, e, lt) = check_pixel-index getpixel x y w valid lx ly passes in
      (
        (marked t k x y w, true),
        mark_target_lem t k x y w e lt,
        set-HasValidCells w x y (record (cell_at w x y) { target = t }) (valid x y lx ly) valid,
      )

  search_row-Fine :
      (t_assign : ℤ) (y rounds x : ℕ) (w : World F S)
      → HasValidCells w
      → y < ywin
      → x + rounds ≡ xwin
      → Fine (search_row getpixel t_assign y rounds x w)
  unfolding search_row
  search_row-Fine t y zero x w valid ly e = ((w, false), refl, valid)
  search_row-Fine t y (suc rounds) x w valid ly e = elim (Bool-cases (check_pixel getpixel x y w)) [
    | inl found ↦ rw (found, search_row) (mark_target-Fine t x y w valid (omega arith) ly found)
    | inr none_here ↦
        rw (none_here, search_row) (search_row-Fine t y rounds (x + 1) w valid ly (omega arith))
  ]

  search_rows-Fine :
      (t_assign : ℤ) (rounds y : ℕ) (w : World F S)
      → HasValidCells w
      → y + rounds ≡ ywin
      → Fine (search_rows getpixel t_assign rounds y w)
  unfolding search_rows
  search_rows-Fine t zero y w valid e = ((w, false), refl, valid)
  search_rows-Fine t (suc rounds) y w valid e =
      unless_hit-Fine (search_row getpixel t y xwin 0 w)
        (λ v. search_rows getpixel t rounds (y + 1) v)
        (search_row-Fine t y xwin 0 w valid (omega arith) (omega arith))
        (λ v more. search_rows-Fine t rounds (y + 1) v more (omega arith))

  -- With valid cells a search returns, and leaves valid cells.
  pub search_screen_for_target-Fine :
      (t_assign : ℤ) (w : World F S)
      → HasValidCells w
      → Fine (search_screen_for_target getpixel t_assign w)
  unfolding search_screen_for_target
  search_screen_for_target-Fine t w valid = search_rows-Fine t ywin 0 w valid (omega arith)

module _ {F S : Type 0} where
  -- The index of a defender that is launched is tracked.
  pub launched-tracked :
      (w : World F S) (k : ℕ)
      → k < max_missiles
      → (w.def_gestor.queue k).index ≡ pos k
      → is_already_tracked (pos k) w ≡ true
  launched-tracked w zero lt e = (is_already_tracked_lem (pos 0) w).1 (refl, inl e)
  launched-tracked w (suc zero) lt e = (is_already_tracked_lem (pos 1) w).1 (refl, inr (inl e))
  launched-tracked w (suc (suc zero)) lt e =
      (is_already_tracked_lem (pos 2) w).1 (refl, inr (inr (inl e)))
  launched-tracked w (suc (suc (suc zero))) lt e =
      (is_already_tracked_lem (pos 3) w).1 (refl, inr (inr (inr e)))
  launched-tracked w (suc (suc (suc (suc k)))) lt e = absurd (omega arith)

  -- A pixel whose target is tracked does not pass, whatever the screen shows.
  pub check_pixel-tracked :
      (getpixel : ℕ → ℕ → ℕ) (x y : ℕ) (w : World F S)
      → is_already_tracked (cell_at w x y).target w ≡ true
      → check_pixel getpixel x y w ≡ false
  unfolding check_pixel
  check_pixel-tracked getpixel x y w e = ground (arith, e)

  -- A search leaves both queues.
  pub search_screen_for_target-SameQueues :
      (getpixel : ℕ → ℕ → ℕ) (t_assign : ℤ) (w w' : World F S) (c : Bool)
      → HasValidCells w
      → search_screen_for_target getpixel t_assign w ≡ ok (w', c)
      → SameQueues w w'
  search_screen_for_target-SameQueues getpixel t w w' c valid h =
      elim (search_screen_for_target_lem getpixel t w w' c h) [
        | inl (none_found, same, clear) ↦ subst (SameQueues w) (sym same) (refl, refl)
        | inr (found, f) ↦
            let (j, stands, lt) =
              check_pixel-index getpixel f.x f.y w valid f.in_x f.in_y.1 f.passes in
            let e : ◌≡◌ {A = Outcome F S} (ok (w', true)) (ok (marked t j f.x f.y w, true)) =
              sym f.marked ∙ mark_target_lem t j f.x f.y w stands lt in
            let same : w' ≡ marked t j f.x f.y w = cc in
            subst (SameQueues w) (sym same) (refl, refl)
      ]
