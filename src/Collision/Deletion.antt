-- ===== src/Collision/Deletion.antt =====
-- Which missile a collision deletes, and what it leaves of the others.
use patriots_rtes.Prelude.{ℕ, ◌≡◌, ◌==◌, if◌then◌else◌, Bool, ◌&&◌, ◌||◌, pos, ◌==ℤ◌, ok, arith}
use patriots_rtes.World.{
  atk_missile, def_missile, Cell, MissileType, attacker, defender, World, missile_at,
}
use patriots_rtes.Grid.{same_type, missile_to_cell_type, init_cell_empty}
use patriots_rtes.Collision.{cell_at, handle_collision}

-- The cell of the missile of a kind with an index.
abbrev pub holds : MissileType → ℕ → Cell → Bool
holds kind k c = same_type c.type (missile_to_cell_type kind) && c.value ==ℤ pos k

abbrev pub holds_missile : Cell → Bool
holds_missile c = same_type c.type atk_missile || same_type c.type def_missile

module _ {F S : Type 0} where
  -- A handled collision deletes the missile whose cell it is, if it is one, and changes nothing else of
  -- any missile; and it empties that cell, and no other.
  pub handle_collision-deletes :
      (t : MissileType) (x y : ℕ) (w w' : World F S) (c : Bool)
      → handle_collision t x y w ≡ ok (w', c)
      → (kind : MissileType) (k a b : ℕ)
      → (missile_at kind w' k ≡ record (missile_at kind w k) {
        deleted = holds kind k (cell_at w x y) || (missile_at kind w k).deleted;
      })
        × (cell_at w' a b ≡ (
            if x == a && y == b && holds_missile (cell_at w x y)
            then init_cell_empty
            else cell_at w a b))
  unfolding handle_collision
  handle_collision-deletes t x y w w' c h attacker k a b = (ground arith, ground arith)
  handle_collision-deletes t x y w w' c h defender k a b = (ground arith, ground arith)
