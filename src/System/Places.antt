-- ===== src/System/Places.antt =====
-- Where the cells of a missile may be in each phase of its index: at its place while it flies, and
-- nowhere else.
use patriots_rtes.Prelude.{
  ℕ, ◌≡◌, refl, ◌==◌, Bool, true, false, ◌&&◌, negsuc, arith, Bool-cases, inl, inr, ◌⊎◌, List, sym,
  ◌∙◌,
}
use patriots_rtes.World.{MissileType, Missile, World, Pos, gestor_of, missile_at}
use patriots_rtes.Fifo.Refinement.{Represents, IsNew}
use patriots_rtes.Collision.{cell_at}
use patriots_rtes.Collision.Deletion.{holds}
use patriots_rtes.Collision.Follow.{at, same_kind, Gone, Follows}
use patriots_rtes.Collision.Place.{same_kind-subst}
use patriots_rtes.Movement.Ending.{Owned, Kept}
use patriots_rtes.System.{IsOther}
use patriots_rtes.System.Lists.{IsNew-any}
use patriots_rtes.System.Whole.{Phase, away, held, samples, flies, ended, State, enters}
use patriots_rtes.System.Phases.{At, Good, differs-IsOther}

-- No cell of the window.
abbrev pub nowhere : Pos
nowhere = record { x = negsuc 0; y = negsuc 0 }

pub nowhere≢at : {p : Pos} (a b : ℕ) → p ≡ nowhere → p ≡ at a b → ⊥
nowhere≢at a b e f = ground arith

module _ {F S : Type 0} where
  abbrev pub spot : Phase → Missile F S → Pos
  spot away m = nowhere
  spot held m = nowhere
  spot samples m = nowhere
  spot flies m = record { x = m.x; y = m.y }
  spot ended m = nowhere

  abbrev pub HasKind : Phase → MissileType → Missile F S → Type 0
  HasKind away kind m = Unit {0}
  HasKind held kind m = Unit {0}
  HasKind samples kind m = m.missile_type ≡ kind
  HasKind flies kind m = m.missile_type ≡ kind
  HasKind ended kind m = Unit {0}

  abbrev pub spots : State F S → MissileType → ℕ → Pos
  spots t kind k = spot (t.phase kind k) (missile_at kind t.world k)

  -- The cells follow the missiles that fly, and a thread that flies or is about to do so works on a
  -- missile of its kind.
  pub record Tracked (t : State F S) : Type 0 where
    pub follows : Follows (spots t) t.world
    pub kinds :
        (kind : MissileType) (k : ℕ) → HasKind (t.phase kind k) kind (missile_at kind t.world k)

  -- A missile that is nowhere has no cell.
  pub nowhere-Gone :
      (place : MissileType → ℕ → Pos) (kind : MissileType) (k : ℕ) (w : World F S)
      → Follows place w
      → place kind k ≡ nowhere
      → Gone kind k w
  nowhere-Gone place kind k w f e a b la lb = elim (Bool-cases (holds kind k (cell_at w a b))) [
    | inl on ↦ absurd (nowhere≢at a b e (f.at_place kind k a b la lb on))
    | inr off ↦ off
  ]

  -- The same cells follow other places, if the missiles that have cells are at the same ones.
  pub Follows-as :
      (place place' : MissileType → ℕ → Pos) (w w' : World F S)
      → ((kind : MissileType) (k a b : ℕ)
          → holds kind k (cell_at w' a b) ≡ holds kind k (cell_at w a b))
      → ((kind : MissileType) (k : ℕ)
          → ((place' kind k ≡ place kind k)
              × ((missile_at kind w' k).deleted ≡ (missile_at kind w k).deleted))
            ⊎ Gone kind k w)
      → Follows place w
      → Follows place' w'
  Follows-as place place' w w' cells alike f = record {
    at_place = λ kind k a b la lb on.
        let before = sym (cells kind k a b) ∙ on in
        elim (alike kind k) [
          | inl same ↦ same.0 ∙ f.at_place kind k a b la lb before
          | inr gone ↦ absurd (ground (arith, gone a b la lb, before))
        ];
    no_ghost = λ kind k dead a b la lb. cells kind k a b ∙ elim (alike kind k) [
      | inl same ↦ f.no_ghost kind k (sym same.1 ∙ dead) a b la lb
      | inr gone ↦ gone a b la lb
    ];
  }

  pub same_place : (m m' : Missile F S) → m'.x ≡ m.x → m'.y ≡ m.y → spot flies m' ≡ spot flies m
  same_place m m' ex ey = cc

  -- What others keep of a missile leaves its place.
  pub spot-Kept :
      (p : Phase) (kind : MissileType) (k : ℕ) (w w' : World F S)
      → (Owned kind k w → Kept kind k w w')
      → At p kind k w
      → spot p (missile_at kind w' k) ≡ spot p (missile_at kind w k)
  spot-Kept away kind k w w' f a = refl
  spot-Kept held kind k w w' f a = refl
  spot-Kept samples kind k w w' f a = refl
  spot-Kept flies kind k w w' f (o, _, _) =
      same_place (missile_at kind w k) (missile_at kind w' k) (f o).alike.x (f o).alike.y
  spot-Kept ended kind k w w' f a = refl

  pub HasKind-Kept :
      (p : Phase) (kind : MissileType) (k : ℕ) (w w' : World F S)
      → (Owned kind k w → Kept kind k w w')
      → At p kind k w
      → HasKind p kind (missile_at kind w k)
      → HasKind p kind (missile_at kind w' k)
  HasKind-Kept away kind k w w' f a h = tt
  HasKind-Kept held kind k w w' f a h = tt
  HasKind-Kept samples kind k w w' f (o, e) h = (f o).alike.missile_type ∙ h
  HasKind-Kept flies kind k w w' f (o, _, _) h = (f o).alike.missile_type ∙ h
  HasKind-Kept ended kind k w w' f a h = tt

  -- An index that is free or requested has no missile that flies, so that its missile has no cell.
  pub unused-Gone :
      (kind : MissileType) (k : ℕ) (free used : List ℕ) (t : State F S)
      → Represents (gestor_of kind t.world).gestor free used
      → (IsNew k free used → ⊥)
      → Good t
      → Tracked t
      → Gone kind k t.world
  unused-Gone kind k free used t lists inside g tracked =
      nowhere-Gone (spots t) kind k t.world tracked.follows
        (by_phase (t.phase kind k) (g.at kind k))
    where
      by_phase : (p : Phase) → At p kind k t.world → spot p (missile_at kind t.world k) ≡ nowhere
      by_phase away a = refl
      by_phase held a = refl
      by_phase samples a = refl
      by_phase flies (o, _, _) = absurd (
          inside (
            IsNew-any (gestor_of kind t.world).gestor k o.free o.used free used o.lists lists
              o.mine))
      by_phase ended a = refl

  -- A move of one missile that has no cell, and that leaves the others, keeps the cells with the
  -- missiles.
  pub acts-Tracked :
      (kind' : MissileType) (k' : ℕ) (p : Phase) (w w' : World F S)
      (phase : MissileType → ℕ → Phase) (stop : Bool)
      → ((kind : MissileType) (k a b : ℕ)
          → holds kind k (cell_at w' a b) ≡ holds kind k (cell_at w a b))
      → ((kind : MissileType) (k : ℕ)
          → IsOther kind k kind' k'
          → (missile_at kind w' k).deleted ≡ (missile_at kind w k).deleted)
      → Gone kind' k' w
      → HasKind p kind' (missile_at kind' w' k')
      → ((kind : MissileType) (k : ℕ) → IsOther kind k kind' k' → Owned kind k w → Kept kind k w w')
      → Good (record { world = w; phase = phase; end = stop })
      → Tracked (record { world = w; phase = phase; end = stop })
      → Tracked (record { world = w'; phase = enters kind' k' p phase; end = stop })
  acts-Tracked kind' k' p w w' phase stop cells flags gone new others g t =
      let before : State F S = record { world = w; phase = phase; end = stop } in
      let after : State F S = record { world = w'; phase = enters kind' k' p phase; end = stop } in
      record {
        follows =
            Follows-as (spots before) (spots after) w w' cells
              (λ kind k. by_place kind k (same_kind kind' kind && k' == k) refl) t.follows;
        kinds = λ kind k. by_kind kind k (same_kind kind' kind && k' == k) refl;
      }
    where
      by_place :
          (kind : MissileType) (k : ℕ) (b : Bool)
          → (same_kind kind' kind && k' == k) ≡ b
          → ((spot (enters kind' k' p phase kind k) (missile_at kind w' k)
                ≡ spot (phase kind k) (missile_at kind w k))
              × ((missile_at kind w' k).deleted ≡ (missile_at kind w k).deleted))
            ⊎ Gone kind k w
      by_place kind k true e = inr (same_kind-subst (λ u n. Gone u n w) kind' kind k' k e gone)
      by_place kind k false e =
          let other = differs-IsOther kind kind' k k' e in
          inl (
            rw e (spot-Kept (phase kind k) kind k w w' (others kind k other) (g.at kind k)),
            flags kind k other,
          )

      by_kind :
          (kind : MissileType) (k : ℕ) (b : Bool)
          → (same_kind kind' kind && k' == k) ≡ b
          → HasKind (enters kind' k' p phase kind k) kind (missile_at kind w' k)
      by_kind kind k true e =
          rw e (same_kind-subst (λ u n. HasKind p u (missile_at u w' n)) kind' kind k' k e new)
      by_kind kind k false e = rw e (
          HasKind-Kept (phase kind k) kind k w w'
            (others kind k (differs-IsOther kind kind' k k' e)) (g.at kind k) (t.kinds kind k))
