-- ===== src/Collision/Update.antt =====
-- What one update of a missile's position changes.
use patriots_rtes.Prelude.{
  ℕ, ◌<◌, ◌≡◌, refl, inl, inr, Bool, true, false, ℤ, pos, Result, ok, ◌>>=◌, >>=-eq-ok, or_fault,
  in_range, in_range-some, Option, none, some, arith, Bool-cases, subst, sym,
}
use patriots_rtes.Prelude.{negsuc, err, out_of_bounds}
use patriots_rtes.Config.{xwin, ywin, missile_radius}
use patriots_rtes.World.{Missile, World}
use patriots_rtes.Grid.{check_borders}
use patriots_rtes.Collision.{
  collision_around, clear_cell, write_cell, missile_cell, update_missile_env,
  update_missile_position, handle_collisions_around_missile, update_missile_cell, finish_update,
  box_start, box_end, at_cell,
}
use patriots_rtes.Collision.Scan.{Outcome, IsClearBox, FirstHit, collision_around_cases}

pub or_fault_ok {ℓ} : {A : Type ℓ} (o : Option A) {a : A} → or_fault o ≡ ok a → o ≡ some a
or_fault_ok none h = cc
or_fault_ok (some b) h = cc

pub at_cell_ok {ℓ} :
    {A : Type ℓ} (x y : ℤ) (use_cell : ℕ → ℕ → Result A) {r : A}
    → at_cell x y use_cell ≡ ok r
    → (a b : ℕ) × ((x ≡ pos a) × (a < xwin)) × ((y ≡ pos b) × (b < ywin)) × (use_cell a b ≡ ok r)
at_cell_ok x y use_cell h =
    let (a, ea, h1) = >>=-eq-ok (or_fault (in_range xwin x)) _ h in
    let (b, eb, h2) = >>=-eq-ok (or_fault (in_range ywin y)) _ h1 in
    (
      a,
      b,
      in_range-some xwin x (or_fault_ok (in_range xwin x) ea),
      in_range-some ywin y (or_fault_ok (in_range ywin y) eb),
      h2,
    )

at_cell-outside {ℓ} :
    {A : Type ℓ} (x y : ℤ) (use_cell : ℕ → ℕ → Result A)
    → check_borders x y ≡ false
    → at_cell x y use_cell ≡ err out_of_bounds
at_cell-outside (pos a) (pos b) use_cell h = ground arith
at_cell-outside (pos a) (negsuc b) use_cell h = ground arith
at_cell-outside (negsuc a) y use_cell h = ground arith

module _ {F S : Type 0} where
  -- The three ends of an update, from the cell (a, b) that is cleared first: the missile has left the
  -- window; it has hit the first foreign cell of its box; or the box is clear and it is placed.
  pub data Moved (m : Missile F S) (a b : ℕ) (w : World F S) : World F S → Bool → Type 0 where
    left : check_borders m.x m.y ≡ false → Moved m a b w (clear_cell a b w) true
    hit :
        {w' : World F S}
        → check_borders m.x m.y ≡ true
        → FirstHit m
            (clear_cell a b w)
            w'
            (box_start m.x missile_radius)
            (box_start m.y missile_radius)
            (box_end m.x missile_radius xwin)
            (box_end m.y missile_radius ywin)
        → Moved m a b w w' true
    placed :
        (p q : ℕ)
        → (m.x ≡ pos p) × (p < xwin)
        → (m.y ≡ pos q) × (q < ywin)
        → IsClearBox m
            (clear_cell a b w)
            (box_start m.x missile_radius)
            (box_start m.y missile_radius)
            (box_end m.x missile_radius xwin)
            (box_end m.y missile_radius ywin)
        → Moved m a b w (write_cell p q (missile_cell m) (clear_cell a b w)) false

  scan_ends :
      (m : Missile F S) (a b : ℕ) (w w' : World F S) (c : Bool)
      → check_borders m.x m.y ≡ true
      → (v : World F S) (h : Bool)
      → collision_around
          (box_start m.x missile_radius)
          (box_start m.y missile_radius)
          (box_end m.x missile_radius xwin)
          (box_end m.y missile_radius ywin)
          m
          (clear_cell a b w)
        ≡ ok (v, h)
      → finish_update m (v, h) ≡ ok (w', c)
      → Moved m a b w w' c
  unfolding finish_update
  scan_ends m a b w w' c inside v true e f =
      let same : ◌≡◌ {A = World F S × Bool} (v, true) (w', c) = cc in
      subst (λ r. Moved m a b w r.0 r.1) same
        (hit inside (
          (collision_around_cases m _ _ _ _ (clear_cell a b w) v true (ground arith) (ground arith)
              e).1
            refl))
  scan_ends m a b w w' c inside v false e f =
      let (clean, clear) =
        (collision_around_cases m _ _ _ _ (clear_cell a b w) v false (ground arith) (ground arith)
            e).0
          refl in
      let (u, eu, f') = >>=-eq-ok (update_missile_cell m v) (λ u. ok (u, false)) f in
      let (p, q, hp, hq, done) =
        at_cell_ok m.x m.y (λ p q. ok (write_cell p q (missile_cell m) v)) eu in
      let built : ◌≡◌ {A = World F S × Bool} (write_cell p q (missile_cell m) v, false) (w', c) =
        cc in
      subst (λ r. Moved m a b w r.0 r.1) built
        (subst (λ u. Moved m a b w (write_cell p q (missile_cell m) u) false) (sym clean)
          (placed p q hp hq clear))

  around_ends :
      (m : Missile F S) (a b : ℕ) (w w' : World F S) (c : Bool) (r : World F S × Bool)
      → handle_collisions_around_missile m missile_radius (clear_cell a b w) ≡ ok r
      → finish_update m r ≡ ok (w', c)
      → Moved m a b w w' c
  unfolding handle_collisions_around_missile finish_update
  around_ends m a b w w' c (v, h) e f = elim (Bool-cases (check_borders m.x m.y)) [
    | inl inside ↦ scan_ends m a b w w' c inside v h (rw inside at e) f
    | inr outside ↦
        let stop : ◌≡◌ {A = World F S × Bool} (clear_cell a b w, true) (v, h) =
          by_outside outside e in
        let f' : ◌≡◌ {A = Outcome F S} (ok (clear_cell a b w, true)) (ok (w', c)) =
          subst (λ r. finish_update m r ≡ ok (w', c)) (sym stop) f in
        let same : ◌≡◌ {A = World F S × Bool} (clear_cell a b w, true) (w', c) = cc in
        subst (λ r. Moved m a b w r.0 r.1) same (left outside)
  ]
    where
      by_outside :
          check_borders m.x m.y ≡ false
          → handle_collisions_around_missile m missile_radius (clear_cell a b w) ≡ ok (v, h)
          → ◌≡◌ {A = World F S × Bool} (clear_cell a b w, true) (v, h)
      by_outside out e =
          let e' : ◌≡◌ {A = Outcome F S} (ok (clear_cell a b w, true)) (ok (v, h)) = rw out at e in
          cc

  -- An update that returns has started from a cell of the window, and ends in one of the three ways of
  -- `Moved`: the missile has left the window, has hit a foreign cell, or is placed in the grid.
  pub update_missile_position-Moved :
      (m : Missile F S) (oldx oldy : ℤ) (w w' : World F S) (c : Bool)
      → update_missile_position m oldx oldy w ≡ ok (w', c)
      → (a b : ℕ) × ((oldx ≡ pos a) × (a < xwin))
        × ((oldy ≡ pos b) × (b < ywin))
        × Moved m a b w w' c
  unfolding update_missile_position
  update_missile_position-Moved m oldx oldy w w' c h =
      let (v, ev, h1) =
        >>=-eq-ok (at_cell oldx oldy (λ a b. ok (clear_cell a b w)))
          (λ v. handle_collisions_around_missile m missile_radius v >>= finish_update m) h in
      let (a, b, ha, hb, built) = at_cell_ok oldx oldy (λ a b. ok (clear_cell a b w)) ev in
      let (r, er, h2) =
        >>=-eq-ok (handle_collisions_around_missile m missile_radius v) (finish_update m) h1 in
      let start : v ≡ clear_cell a b w = cc in
      (
        a,
        b,
        ha,
        hb,
        around_ends m a b w w' c r
            (subst (λ u. handle_collisions_around_missile m missile_radius u ≡ ok r) start er) h2,
      )

  -- The missile is at a pixel of the window.
  pub record InWindow (m : Missile F S) : Type 0 where
    pub x : ℕ
    pub y : ℕ
    pub at_x : m.x ≡ pos x
    pub at_y : m.y ≡ pos y
    pub in_x : x < xwin
    pub in_y : y < ywin

  Moved-InWindow :
      {m : Missile F S} {a b : ℕ} {w w' : World F S} {c : Bool}
      → Moved m a b w w' c
      → c ≡ false
      → InWindow m
  Moved-InWindow (left out) e = cc
  Moved-InWindow (hit inside first) e = cc
  Moved-InWindow (placed p q hp hq clear) e = record {
    x = p;
    y = q;
    at_x = hp.0;
    at_y = hq.0;
    in_x = hp.1;
    in_y = hq.1;
  }

  -- A missile that an update has not stopped is in the window.
  pub update_missile_env-InWindow :
      (m : Missile F S) (oldx oldy : ℤ) (w w' : World F S)
      → update_missile_env m oldx oldy w ≡ ok (w', false)
      → InWindow m
  unfolding update_missile_env
  update_missile_env-InWindow m oldx oldy w w' h = elim (Bool-cases m.deleted) [
    | inl gone ↦ let e : ◌≡◌ {A = Outcome F S} (ok (w, true)) (ok (w', false)) = rw gone at h in cc
    | inr live ↦
        let (a, b, ha, hb, moved) =
          update_missile_position-Moved m oldx oldy w w' false (rw live at h) in
        Moved-InWindow moved refl
  ]

  -- The update of a missile that is not deleted accesses the grid out of bounds if it comes from outside
  -- the window: the old position is cleared before any test.
  pub update_missile_env-outside :
      (m : Missile F S) (oldx oldy : ℤ) (w : World F S)
      → m.deleted ≡ false
      → check_borders oldx oldy ≡ false
      → update_missile_env m oldx oldy w ≡ err out_of_bounds
  unfolding update_missile_env update_missile_position
  update_missile_env-outside m oldx oldy w live out =
      rw (live, at_cell-outside oldx oldy (λ a b. ok (clear_cell a b w)) out)
