-- ===== src/Collision/Follow.antt =====
-- The cells follow the missiles: each missile has one cell at most, where it is, and a deleted one has
-- none.
use patriots_rtes.Prelude.{
  ℕ, ◌<◌, ◌≡◌, refl, ◌==◌, if◌then◌else◌, Bool, true, false, ◌&&◌, ◌||◌, pos, ok, arith, Bool-cases,
  inl, inr, ◌⊎◌, sym, ap, ◌∙◌, subst,
}
use mathlib.Core.Bool.{false≢true}
use patriots_rtes.Config.{xwin, ywin}
use patriots_rtes.World.{Cell, MissileType, attacker, defender, Missile, World, missile_at, Pos}
use patriots_rtes.Grid.{init_cell_empty}
use patriots_rtes.Collision.{cell_at, handle_collision, clear_cell}
use patriots_rtes.Collision.Deletion.{holds, holds_missile, handle_collision-deletes}

abbrev pub at : ℕ → ℕ → Pos
at a b = record { x = pos a; y = pos b }

abbrev pub same_kind : MissileType → MissileType → Bool
same_kind attacker attacker = true
same_kind defender defender = true
same_kind _ _ = false

-- The places, with that of one missile changed.
abbrev pub moved_to : MissileType → ℕ → Pos → (MissileType → ℕ → Pos) → MissileType → ℕ → Pos
moved_to kind k p place kind' k' = if same_kind kind kind' && k == k' then p else place kind' k'

at_injective : (a b c d : ℕ) → at a b ≡ at c d → (a ≡ c) × (b ≡ d)
at_injective a b c d h = ground arith

-- What a cell that may have been emptied still holds, it held before.
emptied :
    (kind : MissileType) (k : ℕ) (b : Bool) (c : Cell)
    → holds kind k (if b then init_cell_empty else c) ≡ true
    → (b ≡ false) × (holds kind k c ≡ true)
emptied attacker k true c h = cc
emptied defender k true c h = cc
emptied kind k false c h = (refl, h)

module _ {F S : Type 0} where
  -- No cell of the window is that of the missile.
  abbrev pub Gone : MissileType → ℕ → World F S → Type 0
  Gone kind k w = (a b : ℕ) → a < xwin → b < ywin → holds kind k (cell_at w a b) ≡ false

  pub record Follows (place : MissileType → ℕ → Pos) (w : World F S) : Type 0 where
    pub at_place :
        (kind : MissileType) (k a b : ℕ)
        → a < xwin
        → b < ywin
        → holds kind k (cell_at w a b) ≡ true
        → place kind k ≡ at a b
    pub no_ghost :
        (kind : MissileType) (k : ℕ) → (missile_at kind w k).deleted ≡ true → Gone kind k w

  clear_lem :
      (x y : ℕ) (w : World F S) (a b : ℕ)
      → cell_at (clear_cell x y w) a b
        ≡ (if x == a && y == b then init_cell_empty else cell_at w a b)
  clear_lem x y w a b = ground arith

  pub clear_cell-missile :
      (kind : MissileType) (x y k : ℕ) (w : World F S)
      → missile_at kind (clear_cell x y w) k ≡ missile_at kind w k
  clear_cell-missile attacker x y k w = refl
  clear_cell-missile defender x y k w = refl

  -- Cells that only lose their missiles keep them absent.
  lose-Gone :
      (kind : MissileType) (k : ℕ) (w w' : World F S) (lost : ℕ → ℕ → Bool)
      → ((a b : ℕ) → cell_at w' a b ≡ (if lost a b then init_cell_empty else cell_at w a b))
      → Gone kind k w
      → Gone kind k w'
  lose-Gone kind k w w' lost cells gone a b la lb =
      elim (Bool-cases (holds kind k (cell_at w' a b))) [
        | inl on ↦
            let held =
              (emptied kind k (lost a b) (cell_at w a b)
                (subst (λ c. holds kind k c ≡ true) (cells a b) on)).1 in
            absurd (false≢true (sym (gone a b la lb) ∙ held))
        | inr off ↦ off
      ]

  lose-Follows :
      (place : MissileType → ℕ → Pos) (w w' : World F S) (lost : ℕ → ℕ → Bool)
      → ((a b : ℕ) → cell_at w' a b ≡ (if lost a b then init_cell_empty else cell_at w a b))
      → ((kind : MissileType) (k : ℕ)
          → (missile_at kind w' k).deleted ≡ true
          → ((missile_at kind w k).deleted ≡ true) ⊎ Gone kind k w')
      → Follows place w
      → Follows place w'
  lose-Follows place w w' lost cells marks f = record {
    at_place = λ kind k a b la lb on.
        f.at_place kind k a b la lb
          (emptied kind k (lost a b) (cell_at w a b)
            (subst (λ c. holds kind k c ≡ true) (cells a b) on)).1;
    no_ghost = λ kind k dead. elim (marks kind k dead) [
      | inl old ↦ lose-Gone kind k w w' lost cells (f.no_ghost kind k old)
      | inr gone ↦ gone
    ];
  }

  pub clear_cell-Follows :
      (place : MissileType → ℕ → Pos) (x y : ℕ) (w : World F S)
      → Follows place w
      → Follows place (clear_cell x y w)
  clear_cell-Follows place x y w f =
      lose-Follows place w (clear_cell x y w) (λ a b. x == a && y == b) (clear_lem x y w)
        (λ kind k dead.
          inl
            (subst (λ (m : Missile F S). m.deleted ≡ true) (clear_cell-missile kind x y k w) dead))
        f

  pub clear_cell-Gone :
      (place : MissileType → ℕ → Pos) (kind : MissileType) (k x y : ℕ) (w : World F S)
      → Follows place w
      → place kind k ≡ at x y
      → Gone kind k (clear_cell x y w)
  clear_cell-Gone place kind k x y w f here a b la lb =
      elim (Bool-cases (holds kind k (cell_at (clear_cell x y w) a b))) [
        | inl on ↦
            let (kept, held) =
              emptied kind k (x == a && y == b) (cell_at w a b)
                (subst (λ c. holds kind k c ≡ true) (clear_lem x y w a b) on) in
            let same = at_injective x y a b (sym here ∙ f.at_place kind k a b la lb held) in
            absurd (apart kept same)
        | inr off ↦ off
      ]
    where
      apart : (x == a && y == b) ≡ false → (x ≡ a) × (y ≡ b) → ⊥
      apart kept (ea, eb) = ground arith

  pub handle_collision-Gone :
      (kind : MissileType) (k x y : ℕ) (t : MissileType) (w w' : World F S) (c : Bool)
      → handle_collision t x y w ≡ ok (w', c)
      → Gone kind k w
      → Gone kind k w'
  handle_collision-Gone kind k x y t w w' c h =
      lose-Gone kind k w w' (λ a b. x == a && y == b && holds_missile (cell_at w x y))
        (λ a b. (handle_collision-deletes t x y w w' c h attacker 0 a b).1)

  pub handle_collision-Follows :
      (place : MissileType → ℕ → Pos) (x y : ℕ) (t : MissileType) (w w' : World F S) (c : Bool)
      → x < xwin
      → y < ywin
      → handle_collision t x y w ≡ ok (w', c)
      → Follows place w
      → Follows place w'
  handle_collision-Follows place x y t w w' c lx ly h f =
      lose-Follows place w w' (λ a b. x == a && y == b && holds_missile (cell_at w x y))
        (λ a b. (handle_collision-deletes t x y w w' c h attacker 0 a b).1) marks f
    where
      marks :
          (kind : MissileType) (k : ℕ)
          → (missile_at kind w' k).deleted ≡ true
          → ((missile_at kind w k).deleted ≡ true) ⊎ Gone kind k w'
      marks kind k dead = elim (Bool-cases (holds kind k (cell_at w x y))) [
        | inl on ↦ inr (λ a b la lb. elim (Bool-cases (holds kind k (cell_at w' a b))) [
          | inl still ↦
              let (kept, held) =
                emptied kind k (x == a && y == b && holds_missile (cell_at w x y)) (cell_at w a b) (
                  subst (λ c. holds kind k c ≡ true)
                    ((handle_collision-deletes t x y w w' c h kind k a b).1) still) in
              let same =
                at_injective x y a b
                  (sym (f.at_place kind k x y lx ly on) ∙ f.at_place kind k a b la lb held) in
              absurd (apart kind k (cell_at w x y) a b on kept same)
          | inr off ↦ off
        ])
        | inr off ↦ inl (
            was
              (ap (λ (m : Missile F S). m.deleted)
                (handle_collision-deletes t x y w w' c h kind k x y).0)
              off dead)
      ]
        where
          was : {new old on : Bool} → new ≡ (on || old) → on ≡ false → new ≡ true → old ≡ true
          was e off dead = ground arith

          apart :
              (kind : MissileType) (k : ℕ) (cell : Cell) (a b : ℕ)
              → holds kind k cell ≡ true
              → (x == a && y == b && holds_missile cell) ≡ false
              → (x ≡ a) × (y ≡ b)
              → ⊥
          apart attacker k cell a b on kept (ea, eb) = ground arith
          apart defender k cell a b on kept (ea, eb) = ground arith
