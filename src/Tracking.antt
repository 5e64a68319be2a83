-- ===== src/Tracking.antt =====
-- How targets are found and followed: `check_pixel`, `search_screen_for_target` and
-- `scan_env_for_target_pos` of src/gestor.c, `is_already_tracked` and `assign_target_to_atk` of
-- src/launchers.c. `getpixel` stands for Allegro's reading of the screen. The functions that take and
-- release the environment are given between these calls.
pub mod Search
pub mod Position
pub mod Total
mod Tests
use patriots_rtes.Prelude.{
  ℕ, zero, suc, ◌+◌, ◌-◌, ◌==◌, if◌then◌else◌, update, in_range, Bool, true, false, not, ◌&&◌, ◌||◌,
  ℤ, pos, leb_ℤ, ◌==ℤ◌, Result, ok, err, ◌>>=◌, or_fault,
}
use patriots_rtes.Config.{xwin, ywin, max_missiles, none_index, attacker_color}
use patriots_rtes.World.{Cell, Pos, Missile, MissileGestor, World}
use patriots_rtes.Collision.{cell_at, write_cell, unless_hit}

abbrev pub not_found : Pos
not_found = record { x = none_index; y = none_index }

abbrev pub or_next : Pos × Bool → Pos × Bool → Pos × Bool
or_next (p, true) q = (p, true)
or_next (p, false) q = q

module _ {F S : Type 0} where
  -- `atk_gestor.queue[index].assigned_target = target`
  pub assign_target_to_atk : ℤ → ℤ → World F S → Result (World F S)
  assign_target_to_atk index target w = or_fault (in_range max_missiles index) >>= λ k.
      ok (record w {
        atk_gestor = record (w.atk_gestor) {
          queue =
              update w.atk_gestor.queue k
                (record (w.atk_gestor.queue k) { assigned_target = target });
        };
      })

  -- The loop of `is_already_tracked` with a number of rounds to go.
  pub tracked_loop : ℕ → ℤ → World F S → Bool → Bool
  tracked_loop zero target w ret = ret
  tracked_loop (suc rounds) target w ret =
      tracked_loop rounds target w
        (ret || (w.def_gestor.queue (max_missiles - suc rounds)).index ==ℤ target)

  pub is_already_tracked : ℤ → World F S → Bool
  unfolding tracked_loop
  is_already_tracked target w =
      if leb_ℤ (pos 0) target then tracked_loop max_missiles target w false else false

  -- The body of the loops of `search_screen_for_target`, where the pixel passes.
  pub mark_target : ℤ → ℕ → ℕ → World F S → Result (World F S × Bool)
  unfolding assign_target_to_atk
  mark_target t_assign x y w = assign_target_to_atk (cell_at w x y).value t_assign w >>= λ v.
      ok (write_cell x y (record (cell_at v x y) { target = t_assign }) v, true)

  module _ (getpixel : ℕ → ℕ → ℕ) where
    pub check_pixel : ℕ → ℕ → World F S → Bool
    unfolding is_already_tracked
    check_pixel x y w =
        if getpixel x y == attacker_color && leb_ℤ (pos 0) (cell_at w x y).value
        then not (is_already_tracked (cell_at w x y).target w)
        else false

    -- The inner loop with a number of rounds to go, and the outer one.
    pub search_row : ℤ → ℕ → ℕ → ℕ → World F S → Result (World F S × Bool)
    unfolding check_pixel mark_target
    search_row t_assign y zero x w = ok (w, false)
    search_row t_assign y (suc rounds) x w = elim (check_pixel x y w) [
      | true ↦ mark_target t_assign x y w
      | false ↦ search_row t_assign y rounds (x + 1) w
    ]

    pub search_rows : ℤ → ℕ → ℕ → World F S → Result (World F S × Bool)
    unfolding search_row
    search_rows t_assign zero y w = ok (w, false)
    search_rows t_assign (suc rounds) y w =
        unless_hit (search_row t_assign y xwin 0 w) (λ v. search_rows t_assign rounds (y + 1) v)

    pub search_screen_for_target : ℤ → World F S → Result (World F S × Bool)
    unfolding search_rows
    search_screen_for_target t_assign w = search_rows t_assign ywin 0 w

  -- The loops of `scan_env_for_target_pos`: `ret_pos` and `ret`.
  pub scan_ys : ℤ → ℕ → ℕ → ℕ → World F S → Pos × Bool
  scan_ys target x zero y w = (not_found, false)
  scan_ys target x (suc rounds) y w = elim ((cell_at w x y).target ==ℤ target) [
    | true ↦ (record { x = pos x; y = pos y }, true)
    | false ↦ scan_ys target x rounds (y + 1) w
  ]

  pub scan_xs : ℤ → ℕ → ℕ → World F S → Pos × Bool
  unfolding scan_ys
  scan_xs target zero x w = (not_found, false)
  scan_xs target (suc rounds) x w =
      let right = scan_xs target rounds (x + 1) w in or_next (scan_ys target x ywin 0 w) right

  pub scan_env_for_target_pos : ℤ → World F S → Pos
  unfolding scan_xs
  scan_env_for_target_pos target w = (scan_xs target xwin 0 w).0
