-- ===== src/Collision/Place.antt =====
-- An update keeps the cells with the missiles: the cell of a missile moves with it, or is lost.
use patriots_rtes.Prelude.{
  ℕ, ◌≤◌, ◌≡◌, refl, ◌==◌, if◌then◌else◌, Bool, true, false, ◌&&◌, ℤ, pos, ok, arith, Bool-cases,
  inl, inr, ◌⊎◌, sym, ◌∙◌, subst,
}
use mathlib.Core.Bool.{false≢true}
use patriots_rtes.Config.{xwin, ywin, missile_radius}
use patriots_rtes.World.{Cell, MissileType, attacker, defender, Missile, World, missile_at, Pos}
use patriots_rtes.Grid.{missile_to_cell_type}
use patriots_rtes.Collision.{
  cell_at, clear_cell, write_cell, missile_cell, update_missile_env, box_end,
}
use patriots_rtes.Collision.Scan.{Outcome}
use patriots_rtes.Collision.Update.{Moved, left, hit, placed, update_missile_position-Moved}
use patriots_rtes.Collision.Deletion.{holds}
use patriots_rtes.Collision.Follow.{
  at, same_kind, moved_to, Gone, Follows, clear_cell-Follows, clear_cell-Gone,
  handle_collision-Gone, handle_collision-Follows, clear_cell-missile,
}

-- A cell holds one missile.
holds_one :
    (kind kind' : MissileType) (k k' : ℕ) (c : Cell)
    → c.type ≡ missile_to_cell_type kind
    → c.value ≡ pos k
    → holds kind' k' c ≡ (same_kind kind kind' && k == k')
holds_one attacker attacker k k' c e v = ground arith
holds_one attacker defender k k' c e v = ground arith
holds_one defender attacker k k' c e v = ground arith
holds_one defender defender k k' c e v = ground arith

pub same_kind-eq :
    (kind kind' : MissileType) (k k' : ℕ)
    → (same_kind kind kind' && k == k') ≡ true
    → (kind ≡ kind') × (k ≡ k')
same_kind-eq attacker attacker k k' e = (refl, ground arith)
same_kind-eq attacker defender k k' e = cc
same_kind-eq defender attacker k k' e = cc
same_kind-eq defender defender k k' e = (refl, ground arith)

-- What is so for a missile is so for one of the same kind and index.
pub same_kind-subst :
    (P : MissileType → ℕ → Type 0) (kind kind' : MissileType) (k k' : ℕ)
    → (same_kind kind kind' && k == k') ≡ true
    → P kind k
    → P kind' k'
same_kind-subst P kind kind' k k' e p =
    let (ek, en) = same_kind-eq kind kind' k k' e in
    subst (λ u. P u k') ek (subst (λ n. P kind n) en p)

box_end-le : (z : ℤ) (span size : ℕ) → box_end z span size ≤ size
box_end-le z span size = ground arith

module _ {F S : Type 0} where
  -- A missile without a cell may be anywhere.
  moved_to-Follows :
      (place : MissileType → ℕ → Pos) (kind : MissileType) (k : ℕ) (p : Pos) (w : World F S)
      → Gone kind k w
      → Follows place w
      → Follows (moved_to kind k p place) w
  moved_to-Follows place kind k p w gone f = record {
    at_place = λ kind' k' a b la lb on. elim (Bool-cases (same_kind kind kind' && k == k')) [
      | inl same ↦ absurd (
          false≢true
            (sym (same_kind-subst (λ u n. Gone u n w) kind kind' k k' same gone a b la lb) ∙ on))
      | inr other ↦ rw other (f.at_place kind' k' a b la lb on)
    ];
    no_ghost = f.no_ghost;
  }

  write_lem :
      (x y : ℕ) (c : Cell) (w : World F S) (a b : ℕ)
      → cell_at (write_cell x y c w) a b ≡ (if x == a && y == b then c else cell_at w a b)
  write_lem x y c w a b = ground arith

  write_cell-missile :
      (kind : MissileType) (x y k : ℕ) (c : Cell) (w : World F S)
      → missile_at kind (write_cell x y c w) k ≡ missile_at kind w k
  write_cell-missile attacker x y k c w = refl
  write_cell-missile defender x y k c w = refl

  -- A missile without a cell gets one.
  write_cell-Follows :
      (place : MissileType → ℕ → Pos) (m : Missile F S) (k p q : ℕ) (w : World F S)
      → m.index ≡ pos k
      → (missile_at m.missile_type w k).deleted ≡ false
      → Gone m.missile_type k w
      → Follows place w
      → Follows (moved_to m.missile_type k (at p q) place) (write_cell p q (missile_cell m) w)
  write_cell-Follows place m k p q w e alive gone f = record {
    at_place = λ kind' k' a b la lb on. elim (Bool-cases (p == a && q == b)) [
      | inl here ↦ own kind' k' a b here (
          rw here at
            (subst (λ c. holds kind' k' c ≡ true) (write_lem p q (missile_cell m) w a b) on))
      | inr away ↦
          (moved_to-Follows place m.missile_type k (at p q) w gone f).at_place kind' k' a b la lb (
            rw away at
              (subst (λ c. holds kind' k' c ≡ true) (write_lem p q (missile_cell m) w a b) on))
    ];
    no_ghost = λ kind' k' dead a b la lb.
        let dead' =
          subst (λ (u : Missile F S). u.deleted ≡ true)
            (write_cell-missile kind' p q k' (missile_cell m) w) dead in
        elim (Bool-cases (p == a && q == b)) [
          | inl here ↦
              subst (λ c. holds kind' k' c ≡ false) (sym (write_lem p q (missile_cell m) w a b))
                (rw here (other kind' k' dead'))
          | inr away ↦
              subst (λ c. holds kind' k' c ≡ false) (sym (write_lem p q (missile_cell m) w a b))
                (rw away (f.no_ghost kind' k' dead' a b la lb))
        ];
  }
    where
      own :
          (kind' : MissileType) (k' a b : ℕ)
          → (p == a && q == b) ≡ true
          → holds kind' k' (missile_cell m) ≡ true
          → moved_to m.missile_type k (at p q) place kind' k' ≡ at a b
      own kind' k' a b here on =
          let mine = sym (holds_one m.missile_type kind' k k' (missile_cell m) refl e) ∙ on in
          rw mine (ground arith)

      other :
          (kind' : MissileType) (k' : ℕ)
          → (missile_at kind' w k').deleted ≡ true
          → holds kind' k' (missile_cell m) ≡ false
      other kind' k' dead = elim (Bool-cases (same_kind m.missile_type kind' && k == k')) [
        | inl same ↦ absurd (
            false≢true (
              sym (
                same_kind-subst (λ u n. (missile_at u w n).deleted ≡ false) m.missile_type kind' k
                  k' same alive)
              ∙ dead))
        | inr apart ↦ holds_one m.missile_type kind' k k' (missile_cell m) refl e ∙ apart
      ]

  module _ (place : MissileType → ℕ → Pos) (m : Missile F S) (k : ℕ) (index : m.index ≡ pos k) where
    -- The place that the missile moves to.
    abbrev pub now : MissileType → ℕ → Pos
    now = moved_to m.missile_type k (record { x = m.x; y = m.y }) place

    abbrev Ends : World F S → Bool → Type 0
    Ends w' c = Follows now w' × ((c ≡ false) ⊎ Gone m.missile_type k w')

    lost-Ends : (w : World F S) (c : Bool) → Gone m.missile_type k w → Follows place w → Ends w c
    lost-Ends w c gone f =
        (moved_to-Follows place m.missile_type k (record { x = m.x; y = m.y }) w gone f, inr gone)

    Moved-Ends :
        {a b : ℕ} {w w' : World F S} {c : Bool}
        → Moved m a b w w' c
        → place m.missile_type k ≡ at a b
        → (missile_at m.missile_type w k).deleted ≡ false
        → Follows place w
        → Ends w' c
    Moved-Ends {a} {b} {w} (left out) here alive f =
        lost-Ends (clear_cell a b w) true (clear_cell-Gone place m.missile_type k a b w f here)
          (clear_cell-Follows place a b w f)
    Moved-Ends {a} {b} {w} {w'} (hit inside first) here alive f =
        lost-Ends w' true
          (handle_collision-Gone m.missile_type k first.x first.y m.missile_type (clear_cell a b w)
            w' true first.handled (clear_cell-Gone place m.missile_type k a b w f here))
          (handle_collision-Follows place first.x first.y m.missile_type (clear_cell a b w) w' true
            (omega (arith, first.in_x, box_end-le m.x missile_radius xwin))
            (omega (arith, first.in_y, box_end-le m.y missile_radius ywin)) first.handled
            (clear_cell-Follows place a b w f))
    Moved-Ends {a} {b} {w} (placed p q hp hq clear) here alive f =
        let written =
          write_cell-Follows place m k p q (clear_cell a b w) index
            (subst (λ (u : Missile F S). u.deleted ≡ false)
              (sym (clear_cell-missile m.missile_type a b k w)) alive)
            (clear_cell-Gone place m.missile_type k a b w f here)
            (clear_cell-Follows place a b w f) in
        (
          subst
              (λ z.
                Follows (moved_to m.missile_type k z place)
                  (write_cell p q (missile_cell m) (clear_cell a b w)))
              (spot (sym hp.0) (sym hq.0)) written,
          inl refl,
        )
      where
        spot : {x y : ℤ} → pos p ≡ x → pos q ≡ y → at p q ≡ record { x = x; y = y }
        spot ex ey = cc

    -- If the cells follow the missiles, they do so after an update, with the missile at its new place;
    -- and if the update reports a collision, no cell is the missile's any more.
    pub update_missile_env-Follows :
        (oldx oldy : ℤ) (w w' : World F S) (c : Bool)
        → place m.missile_type k ≡ record { x = oldx; y = oldy }
        → (missile_at m.missile_type w k).deleted ≡ m.deleted
        → Follows place w
        → update_missile_env m oldx oldy w ≡ ok (w', c)
        → Follows now w' × ((c ≡ false) ⊎ Gone m.missile_type k w')
    unfolding update_missile_env
    update_missile_env-Follows oldx oldy w w' c here flag f h = elim (Bool-cases m.deleted) [
      | inl dead ↦
          let e : ◌≡◌ {A = Outcome F S} (ok (w, true)) (ok (w', c)) = rw dead at h in
          let same : w ≡ w' = cc in
          subst (λ u. Ends u c) same (lost-Ends w c (f.no_ghost m.missile_type k (flag ∙ dead)) f)
      | inr live ↦
          let (a, b, ha, hb, moved) =
            update_missile_position-Moved m oldx oldy w w' c (rw live at h) in
          Moved-Ends moved (here ∙ spot ha.0 hb.0) (flag ∙ live) f
    ]
      where
        spot :
            {x y : ℤ} {a b : ℕ}
            → x ≡ pos a
            → y ≡ pos b
            → ◌≡◌ {A = Pos} (record { x = x; y = y }) (at a b)
        spot ex ey = cc
