-- ===== src/Collision/Valid.antt =====
-- With valid cells an update never faults, and leaves valid cells.
use patriots_rtes.Prelude.{
  ℕ, zero, suc, ◌+◌, ◌-◌, ◌≤◌, ◌<◌, ◌≡◌, refl, inl, inr, if◌then◌else◌, Bool, true, false, ℤ, pos,
  negsuc, ok, ◌>>=◌, in_range_pos, arith, Bool-cases, subst, ap, ◌∙◌,
}
use patriots_rtes.Config.{xwin, ywin, max_missiles, missile_radius}
use patriots_rtes.World.{MissileType, attacker, defender, Missile, World}
use patriots_rtes.Grid.{missile_to_cell_type, check_borders, init_cell_empty}
use patriots_rtes.Collision.{
  cell_at, is_foreign, scan_cell, scan_column, scan_columns, collision_around, clear_cell,
  write_cell, missile_cell, update_missile_position, update_missile_env,
  handle_collisions_around_missile, finish_update, box_start, box_end,
}
use patriots_rtes.Collision.Scan.{Outcome}
pub use patriots_rtes.Collision.ValidCells.{
  IsValidAs, IsValidCell, HasValidCells, Fine, set-HasValidCells, unless_hit-Fine,
  handle_collision-Fine, init_env-HasValidCells,
}

module _ {F S : Type 0} where
  module _ (m : Missile F S) where
    scan_cell-Fine :
        (x y : ℕ) (w : World F S) → x < xwin → y < ywin → HasValidCells w → Fine (scan_cell m x y w)
    unfolding scan_cell
    scan_cell-Fine x y w hx hy valid = elim (Bool-cases (is_foreign m (cell_at w x y))) [
      | inl f ↦ rw f (handle_collision-Fine m.missile_type x y w hx hy valid)
      | inr f ↦ rw f ((w, false), refl, valid)
    ]

    scan_column-Fine :
        (x rounds y : ℕ) (w : World F S)
        → x < xwin
        → y + rounds ≤ ywin
        → HasValidCells w
        → Fine (scan_column m x rounds y w)
    unfolding scan_column
    scan_column-Fine x zero y w hx hy valid = ((w, false), refl, valid)
    scan_column-Fine x (suc rounds) y w hx hy valid =
        unless_hit-Fine (scan_cell m x y w) (λ v. scan_column m x rounds (y + 1) v)
          (scan_cell-Fine x y w hx (omega arith) valid)
          (λ v hv. scan_column-Fine x rounds (y + 1) v hx (omega arith) hv)

    scan_columns-Fine :
        (ya height rounds x : ℕ) (w : World F S)
        → ya + height ≤ ywin
        → x + rounds ≤ xwin
        → HasValidCells w
        → Fine (scan_columns m ya height rounds x w)
    unfolding scan_columns
    scan_columns-Fine ya height zero x w hy hx valid = ((w, false), refl, valid)
    scan_columns-Fine ya height (suc rounds) x w hy hx valid =
        unless_hit-Fine (scan_column m x height ya w)
          (λ v. scan_columns m ya height rounds (x + 1) v)
          (scan_column-Fine x height ya w (omega arith) hy valid)
          (λ v hv. scan_columns-Fine ya height rounds (x + 1) v hy (omega arith) hv)

    -- The index of a missile that is on its way.
    abbrev pub HasIndex : Type 0
    HasIndex = (k : ℕ) × (m.index ≡ pos k) × (k < max_missiles)

    borders-pos :
        check_borders m.x m.y ≡ true
        → ((a : ℕ) × (m.x ≡ pos a) × (a < xwin)) × ((b : ℕ) × (m.y ≡ pos b) × (b < ywin))
    borders-pos h = inside m.x m.y h
      where
        inside :
            (x y : ℤ)
            → check_borders x y ≡ true
            → ((a : ℕ) × (x ≡ pos a) × (a < xwin)) × ((b : ℕ) × (y ≡ pos b) × (b < ywin))
        inside (pos a) (pos b) h = ((a, refl, ground arith), (b, refl, ground arith))
        inside (pos a) (negsuc b) h = absurd (ground arith)
        inside (negsuc a) y h = absurd (ground arith)

    missile_cell-IsValidCell : HasIndex → IsValidCell (missile_cell m)
    missile_cell-IsValidCell (k, e, lt) = by_kind m.missile_type
      where
        by_kind : (t : MissileType) → IsValidAs (missile_to_cell_type t) m.index
        by_kind attacker = (k, e, lt)
        by_kind defender = (k, e, lt)

    finish_update-Fine :
        (p : World F S × Bool)
        → HasIndex
        → check_borders m.x m.y ≡ true
        → HasValidCells p.0
        → Fine (finish_update m p)
    unfolding finish_update
    finish_update-Fine (v, true) index inside valid = ((v, true), refl, valid)
    finish_update-Fine (v, false) index inside valid =
        let ((a, ea, la), (b, eb, lb)) = borders-pos inside in
        (
          (write_cell a b (missile_cell m) v, false),
          ground arith,
          set-HasValidCells v a b (missile_cell m) (missile_cell-IsValidCell index) valid,
        )

    box_scan : World F S → Outcome F S
    unfolding collision_around
    box_scan w =
        collision_around (box_start m.x missile_radius) (box_start m.y missile_radius)
          (box_end m.x missile_radius xwin) (box_end m.y missile_radius ywin) m w

    box_scan-Fine :
        (w : World F S) → check_borders m.x m.y ≡ true → HasValidCells w → Fine (box_scan w)
    unfolding box_scan
    box_scan-Fine w inside valid =
        scan_columns-Fine (box_start m.y missile_radius)
          (box_end m.y missile_radius ywin - box_start m.y missile_radius)
          (box_end m.x missile_radius xwin - box_start m.x missile_radius)
          (box_start m.x missile_radius) w (ground arith) (ground arith) valid

    bind_finish :
        (r : Outcome F S)
        → HasIndex
        → check_borders m.x m.y ≡ true
        → Fine r
        → Fine (r >>= finish_update m)
    bind_finish r index inside (p, e, fine) =
        let (q, f, finer) = finish_update-Fine p index inside fine in
        (q, ap (λ (o : Outcome F S). o >>= finish_update m) e ∙ f, finer)

    around-Fine :
        (w : World F S)
        → HasIndex
        → HasValidCells w
        → Fine (handle_collisions_around_missile m missile_radius w >>= finish_update m)
    unfolding handle_collisions_around_missile box_scan
    around-Fine w index valid = by_borders (check_borders m.x m.y) refl
      where
        by_borders :
            (b : Bool)
            → check_borders m.x m.y ≡ b
            → Fine ((if b then box_scan w else ok (w, true)) >>= finish_update m)
        by_borders true inside =
            bind_finish (box_scan w) index inside (box_scan-Fine w inside valid)
        by_borders false outside = unfold finish_update in ((w, true), refl, valid)

    update_missile_position-Fine :
        (a b : ℕ) (w : World F S)
        → HasIndex
        → a < xwin
        → b < ywin
        → HasValidCells w
        → Fine (update_missile_position m (pos a) (pos b) w)
    unfolding update_missile_position
    update_missile_position-Fine a b w index la lb valid =
        rw (in_range_pos xwin a la, in_range_pos ywin b lb)
          (around-Fine (clear_cell a b w) index
            (set-HasValidCells w a b init_cell_empty refl valid))

    -- With valid cells, a missile that has its index and comes from a cell of the window is updated
    -- without a fault, and the cells stay valid: no access to a grid or to a queue is out of bounds.
    pub update_missile_env-Fine :
        (a b : ℕ) (w : World F S)
        → HasIndex
        → a < xwin
        → b < ywin
        → HasValidCells w
        → Fine (update_missile_env m (pos a) (pos b) w)
    unfolding update_missile_env
    update_missile_env-Fine a b w index la lb valid =
        subst (λ d. Fine (if d then ok (w, true) else update_missile_position m (pos a) (pos b) w))
          refl (by_flag m.deleted)
      where
        by_flag :
            (d : Bool)
            → Fine (if d then ok (w, true) else update_missile_position m (pos a) (pos b) w)
        by_flag true = ((w, true), refl, valid)
        by_flag false = update_missile_position-Fine a b w index la lb valid
