-- ===== src/Movement/Ending.antt =====
-- A missile's thread ends, without a fault, once its missile has left the window at the latest.
use patriots_rtes.Prelude.{
  ℕ, zero, suc, ◌+◌, ◌≤◌, ◌<◌, ◌≡◌, refl, Bool, true, false, not, ◌&&◌, some, ok, arith, sym, ◌∙◌,
  subst, Bool-cases, inl, inr, ◌⊎◌, List,
}
use mathlib.Core.Bool.{false≢true}
use patriots_rtes.Platform.{Semaphore, Floating}
use patriots_rtes.World.{MissileType, attacker, defender, Missile, World, gestor_of, missile_at}
use patriots_rtes.Grid.{check_borders}
use patriots_rtes.Collision.Valid.{HasValidCells}
use patriots_rtes.Collision.Frame.{MovesAlike, SameQueues}
use patriots_rtes.Fifo.Refinement.{Represents, IsNew}
use patriots_rtes.Lifecycle.{move_missile}
use patriots_rtes.Lifecycle.Rounds.{Moving}
use patriots_rtes.Movement.{movement_loop}
use patriots_rtes.Movement.Round.{
  moves, moves-MovesAlike, MovesAlike-trans, MovesAlike-InWindow, InWindow-borders,
  task_round-RoundDone,
}

module _ {F S : Type 0} (kind : MissileType) (k : ℕ) where
  -- The queue of a kind is well formed, and the index is in use.
  pub record Owned (w : World F S) : Type 0 where
    pub free : List ℕ
    pub used : List ℕ
    pub lists : Represents (gestor_of kind w).gestor free used
    pub mine : IsNew k free used

  -- What a thread relies on in the others: they leave valid cells, they move only their own missiles,
  -- and the index stays in use.
  pub record Kept (w w' : World F S) : Type 0 where
    pub cells : HasValidCells w'
    pub alike : MovesAlike (missile_at kind w k) (missile_at kind w' k)
    pub owned : Owned w'

  abbrev pub Keeps : (World F S → World F S) → Type 0
  Keeps f = (w : World F S) → HasValidCells w → Owned w → Kept w (f w)

-- Others that do nothing are such.
pub idle-Keeps : {F S : Type 0} (kind : MissileType) (k : ℕ) → Keeps {F = F} {S = S} kind k (λ w. w)
idle-Keeps kind k w cells o = record {
  cells = cells;
  alike = record {
    x = refl;
    y = refl;
    partial_x = refl;
    partial_y = refl;
    angle = refl;
    speed = refl;
    index = refl;
    missile_type = refl;
  };
  owned = o;
}

pub SameQueues-Owned :
    {F S : Type 0} (kind : MissileType) (k : ℕ) (w w' : World F S)
    → SameQueues w w'
    → Owned kind k w
    → Owned kind k w'
SameQueues-Owned attacker k w w' same o = record {
  free = o.free;
  used = o.used;
  lists = subst (λ g. Represents g o.free o.used) (sym same.0) o.lists;
  mine = o.mine;
}
SameQueues-Owned defender k w w' same o = record {
  free = o.free;
  used = o.used;
  lists = subst (λ g. Represents g o.free o.used) (sym same.1) o.lists;
  mine = o.mine;
}

module _ {F D S : Type 0} (fl : Floating F D) ⦃s : Semaphore S⦄ (kind : MissileType) (k : ℕ)
    (deltatime : F) where
  -- What a thread has before each round.
  pub record Running (w : World F S) : Type 0 where
    pub moving : Moving (missile_at kind w k) w
    pub owned : Owned kind k w

  -- The missile would be out of the window after that many moves.
  abbrev pub LeavesAfter : ℕ → Missile F S → Type 0
  LeavesAfter n m = check_borders (moves fl n deltatime m).x (moves fl n deltatime m).y ≡ false

  LeavesAfter-MovesAlike :
      (n : ℕ) {a b : Missile F S} → MovesAlike a b → LeavesAfter n a → LeavesAfter n b
  LeavesAfter-MovesAlike n p h = let q = moves-MovesAlike fl n deltatime p in rw (q.x, q.y) h

  module _ (ended : ℕ → Bool) (others : ℕ → World F S → World F S)
      (keep : (j : ℕ) → Keeps kind k (others j)) where
    -- The loop has returned a world with valid cells, in which the missile has its index still.
    pub record LoopDone (fuel i : ℕ) (w : World F S) : Type 0 where
      pub world : World F S
      pub returns : movement_loop fl ended others kind k deltatime fuel i w ≡ some (ok world)
      pub cells : HasValidCells world
      pub index : (missile_at kind world k).index ≡ (missile_at kind w k).index
      pub owned : Owned kind k world

    start_again :
        {u v : World F S} {c : Bool} (i : ℕ)
        → Kept kind k u v
        → (not c && not (ended i)) ≡ true
        → (c ≡ true) ⊎ Moving (missile_at kind u k) u
        → Running v
    start_again i kept on (inl hit) = absurd (ground arith)
    start_again i kept on (inr more) = record {
      moving = record {
        index = (more.index.0, kept.alike.index ∙ more.index.1, more.index.2);
        window = MovesAlike-InWindow kept.alike more.window;
        cells = kept.cells;
      };
      owned = kept.owned;
    }

    -- A round, and the rest of the loop if it goes on.
    round-LoopDone :
        (fuel i : ℕ) (w : World F S)
        → Running w
        → ((v : World F S)
            → Running v
            → ended i ≡ false
            → MovesAlike (move_missile fl (missile_at kind w k) deltatime) (missile_at kind v k)
            → LoopDone fuel (i + 1) v)
        → LoopDone (suc fuel) i w
    unfolding movement_loop move_missile
    round-LoopDone fuel i w run next =
        let r = task_round-RoundDone fl kind k deltatime w run.moving in
        let owned = SameQueues-Owned kind k w r.world r.queues run.owned in
        elim (Bool-cases (not r.collided && not (ended i))) [
          | inl on ↦
              let v = others i r.world in
              let kept = keep i r.world r.cells owned in
              let alike = MovesAlike-trans r.alike kept.alike in
              let rest = next v (start_again i kept on r.again) (ground arith) alike in
              record {
                world = rest.world;
                returns = rw (r.returns, on, movement_loop) rest.returns;
                cells = rest.cells;
                index = rest.index ∙ alike.index;
                owned = rest.owned;
              }
          | inr off ↦ record {
            world = r.world;
            returns = rw (r.returns, off, movement_loop) refl;
            cells = r.cells;
            index = r.alike.index;
            owned = owned;
          }
        ]

    pub movement_loop-LoopDone :
        (n fuel i : ℕ) (w : World F S)
        → n ≤ fuel
        → Running w
        → LeavesAfter n (missile_at kind w k)
        → LoopDone fuel i w
    unfolding moves
    movement_loop-LoopDone zero fuel i w le run out =
        absurd (false≢true (sym out ∙ InWindow-borders (missile_at kind w k) run.moving.window))
    movement_loop-LoopDone (suc n) zero i w le run out = absurd (omega arith)
    movement_loop-LoopDone (suc n) (suc fuel) i w le run out =
        round-LoopDone fuel i w run (λ v again on alike.
          movement_loop-LoopDone n fuel (i + 1) v (omega arith) again
            (LeavesAfter-MovesAlike n alike out))

    -- The loop ends with the round in which the flag is set.
    pub movement_loop-stops :
        (n fuel i : ℕ) (w : World F S)
        → n < fuel
        → Running w
        → ended (i + n) ≡ true
        → LoopDone fuel i w
    movement_loop-stops n zero i w lt run set = absurd (omega arith)
    movement_loop-stops zero (suc fuel) i w lt run set =
        round-LoopDone fuel i w run (λ v again on alike.
          absurd (false≢true (sym on ∙ subst (λ j. ended j ≡ true) (omega arith) set)))
    movement_loop-stops (suc n) (suc fuel) i w lt run set =
        round-LoopDone fuel i w run (λ v again on alike.
          movement_loop-stops n fuel (i + 1) v (omega arith) again
            (subst (λ j. ended j ≡ true) (omega arith) set))
