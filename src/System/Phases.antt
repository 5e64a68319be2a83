-- ===== src/System/Phases.antt =====
-- What a thread of the whole program has in each phase of its index.
use patriots_rtes.Prelude.{
  ℕ, ◌≡◌, refl, ◌==◌, if◌then◌else◌, Bool, true, false, ◌&&◌, pos, arith, ◌∙◌,
}
use patriots_rtes.World.{MissileType, attacker, defender, World, missile_at}
use patriots_rtes.Collision.Valid.{HasValidCells}
use patriots_rtes.Collision.Follow.{same_kind}
use patriots_rtes.Collision.Place.{same_kind-subst}
use patriots_rtes.Movement.Round.{MovesAlike-InWindow}
use patriots_rtes.Movement.Ending.{Owned, Kept}
use patriots_rtes.Lifecycle.Rounds.{Moving}
use patriots_rtes.Launchers.Starts.{Queued}
use patriots_rtes.System.{IsOther}
use patriots_rtes.System.Whole.{Phase, away, held, samples, flies, ended, State, enters}

-- Missiles that differ in their kind or in their index.
pub differs-IsOther :
    (kind kind' : MissileType) (k k' : ℕ)
    → (same_kind kind' kind && k' == k) ≡ false
    → IsOther kind k kind' k'
differs-IsOther attacker attacker k k' e p q = ground arith
differs-IsOther attacker defender k k' e p q = cc
differs-IsOther defender attacker k k' e p q = cc
differs-IsOther defender defender k k' e p q = ground arith

module _ {F S : Type 0} where
  -- What a thread has in each phase of its index.
  abbrev pub At : Phase → MissileType → ℕ → World F S → Type 0
  At away kind k w = Unit {0}
  At held kind k w = Owned kind k w
  At samples kind k w = Owned kind k w × ((missile_at kind w k).index ≡ pos k)
  At flies kind k w =
      Owned kind k w × ((missile_at kind w k).index ≡ pos k) × Moving (missile_at kind w k) w
  At ended kind k w = Owned kind k w × ((missile_at kind w k).index ≡ pos k)

  pub record Good (t : State F S) : Type 0 where
    pub cells : HasValidCells t.world
    pub queues : (kind : MissileType) → Queued kind t.world
    pub at : (kind : MissileType) (k : ℕ) → At (t.phase kind k) kind k t.world

  pub Moving-Kept :
      (kind : MissileType) (k : ℕ) (w w' : World F S)
      → Kept kind k w w'
      → Moving (missile_at kind w k) w
      → Moving (missile_at kind w' k) w'
  Moving-Kept kind k w w' kept m = record {
    index = (m.index.0, kept.alike.index ∙ m.index.1, m.index.2);
    window = MovesAlike-InWindow kept.alike m.window;
    cells = kept.cells;
  }

  pub At-Kept :
      (p : Phase) (kind : MissileType) (k : ℕ) (w w' : World F S)
      → (Owned kind k w → Kept kind k w w')
      → At p kind k w
      → At p kind k w'
  At-Kept away kind k w w' f a = tt
  At-Kept held kind k w w' f a = (f a).owned
  At-Kept samples kind k w w' f (o, e) = let kept = f o in (kept.owned, kept.alike.index ∙ e)
  At-Kept flies kind k w w' f (o, e, m) =
      let kept = f o in (kept.owned, kept.alike.index ∙ e, Moving-Kept kind k w w' kept m)
  At-Kept ended kind k w w' f (o, e) = let kept = f o in (kept.owned, kept.alike.index ∙ e)

  -- A move of one missile keeps the others, and gives it what its new phase needs.
  pub acts-Good :
      (kind' : MissileType) (k' : ℕ) (p : Phase) (w w' : World F S)
      (phase : MissileType → ℕ → Phase) (stop : Bool)
      → At p kind' k' w'
      → HasValidCells w'
      → ((kind : MissileType) → Queued kind w')
      → ((kind : MissileType) (k : ℕ) → IsOther kind k kind' k' → Owned kind k w → Kept kind k w w')
      → Good (record { world = w; phase = phase; end = stop })
      → Good (record { world = w'; phase = enters kind' k' p phase; end = stop })
  acts-Good kind' k' p w w' phase stop new cells queues others g = record {
    cells = cells;
    queues = queues;
    at = λ kind k. by_test kind k (same_kind kind' kind && k' == k) refl;
  }
    where
      by_test :
          (kind : MissileType) (k : ℕ) (b : Bool)
          → (same_kind kind' kind && k' == k) ≡ b
          → At (if b then p else phase kind k) kind k w'
      by_test kind k true e = same_kind-subst (λ u n. At p u n w') kind' kind k' k e new
      by_test kind k false e =
          At-Kept (phase kind k) kind k w w' (others kind k (differs-IsOther kind kind' k k' e))
            (g.at kind k)
