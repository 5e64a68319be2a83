-- ===== src/System/FlightCells.antt =====
-- A round of a missile that flies keeps the cells with the missiles.
use patriots_rtes.Prelude.{
  ℕ, ◌≡◌, refl, ◌==◌, Bool, true, false, ◌&&◌, ◌||◌, pos, ok, arith, inl, inr, ◌⊎◌, sym, ap, ◌∙◌,
  subst,
}
use patriots_rtes.Platform.{Semaphore, Floating}
use patriots_rtes.World.{MissileType, Missile, World, Pos, missile_at, set_missile}
use patriots_rtes.Collision.Follow.{same_kind, moved_to, Gone, Follows}
use patriots_rtes.Collision.Place.{same_kind-subst, update_missile_env-Follows}
use patriots_rtes.Collision.Scan.{Outcome}
use patriots_rtes.Collision.Frame.{MovesAlike}
use patriots_rtes.Lifecycle.{move_missile, movement_round}
use patriots_rtes.Movement.{task_round}
use patriots_rtes.Movement.Round.{task_round-RoundDone, set_missile_self}
use patriots_rtes.Movement.Ending.{Owned, Kept}
use patriots_rtes.System.Others.{moves-Kept}
use patriots_rtes.System.Whole.{Phase, flies, State, enters, after_round}
use patriots_rtes.System.Phases.{At, Good, differs-IsOther}
use patriots_rtes.System.Unmoved.{set_missile-SameCells, set_missile-SameFlags}
use patriots_rtes.System.Places.{
  spot, spots, HasKind, Tracked, Follows-as, spot-Kept, HasKind-Kept, same_place,
}

module _ {F D S : Type 0} (fl : Floating F D) ⦃s : Semaphore S⦄ where
  -- The update of a round, on a missile that has its index and flies.
  round-Follows :
      (kind : MissileType) (k : ℕ) (deltatime : F) (w w' : World F S) (c : Bool)
      (place : MissileType → ℕ → Pos)
      → place kind k ≡ spot flies (missile_at kind w k)
      → (missile_at kind w k).missile_type ≡ kind
      → (missile_at kind w k).index ≡ pos k
      → Follows place w
      → task_round fl kind k deltatime w ≡ ok (w', c)
      → Follows
          (moved_to kind k (spot flies (move_missile fl (missile_at kind w k) deltatime)) place)
          w'
        × ((c ≡ false) ⊎ Gone kind k w')
  unfolding task_round movement_round move_missile
  round-Follows kind k deltatime w w' c place here same index f h =
      let m = missile_at kind w k in
      let moved = move_missile fl m deltatime in
      let w0 = set_missile kind k moved w in
      let f0 =
        Follows-as place place w w0 (set_missile-SameCells kind k moved w)
          (λ kind2 j. inl (refl, set_missile-SameFlags kind k moved w refl kind2 j)) f in
      subst (λ u. Follows (moved_to u k (spot flies moved) place) w' × ((c ≡ false) ⊎ Gone u k w'))
        same
        (update_missile_env-Follows place moved k index m.x m.y w0 w' c
          (subst (λ u. place u k ≡ spot flies m) (sym same) here)
          (subst (λ u. (missile_at u w0 k).deleted ≡ m.deleted) (sym same)
            (ap (λ (u : Missile F S). u.deleted) (set_missile_self kind k moved w)))
          f0 h)

  pub round-Tracked :
      (kind : MissileType) (k : ℕ) (deltatime : F) (w w' : World F S)
      (phase : MissileType → ℕ → Phase) (c : Bool)
      → phase kind k ≡ flies
      → task_round fl kind k deltatime w ≡ ok (w', c)
      → Good (record { world = w; phase = phase; end = false })
      → Tracked (record { world = w; phase = phase; end = false })
      → Tracked (record {
        world = w';
        phase = enters kind k (after_round (c || false)) phase;
        end = false;
      })
  unfolding move_missile
  round-Tracked kind k deltatime w w' phase c e h g t =
      let before : State F S = record { world = w; phase = phase; end = false } in
      let after : State F S = record {
        world = w';
        phase = enters kind k (after_round (c || false)) phase;
        end = false;
      } in
      let mine = subst (λ p. At p kind k w) e (g.at kind k) in
      let of_kind = subst (λ p. HasKind p kind (missile_at kind w k)) e (t.kinds kind k) in
      let here : spots before kind k ≡ spot flies (missile_at kind w k) =
        ap (λ p. spot p (missile_at kind w k)) e in
      let (moved, gone) =
        round-Follows kind k deltatime w w' c (spots before) here of_kind mine.1 t.follows h in
      let r = task_round-RoundDone fl kind k deltatime w mine.2 in
      let ends : ◌≡◌ {A = Outcome F S} (ok (r.world, r.collided)) (ok (w', c)) =
        sym r.returns ∙ h in
      let same : r.world ≡ w' = cc in
      let alike =
        subst
          (λ z. MovesAlike (move_missile fl (missile_at kind w k) deltatime) (missile_at kind z k))
          same r.alike in
      record {
        follows =
            Follows-as
              (moved_to kind k (spot flies (move_missile fl (missile_at kind w k) deltatime))
                (spots before))
              (spots after) w' w' (λ kind2 j a b. refl)
              (λ kind2 j. by_place gone alike kind2 j (same_kind kind kind2 && k == j) refl) moved;
        kinds = λ kind2 j.
            by_kind (alike.missile_type ∙ of_kind) kind2 j (same_kind kind kind2 && k == j) refl;
      }
    where
      others :
          (kind2 : MissileType) (j : ℕ)
          → (same_kind kind kind2 && k == j) ≡ false
          → Owned kind2 j w
          → Kept kind2 j w w'
      others kind2 j off =
          moves-Kept fl kind2 j kind k deltatime w w' c (differs-IsOther kind2 kind j k off)
            (subst (λ p. At p kind k w) e (g.at kind k)).2 h

      own_place :
          (b : Bool)
          → (b ≡ false) ⊎ Gone kind k w'
          → MovesAlike (move_missile fl (missile_at kind w k) deltatime) (missile_at kind w' k)
          → (spot (after_round (b || false)) (missile_at kind w' k)
              ≡ spot flies (move_missile fl (missile_at kind w k) deltatime))
            ⊎ Gone kind k w'
      own_place true (inl off) alike = absurd (ground (arith, off))
      own_place true (inr gone) alike = inr gone
      own_place false gone alike = inl (
          same_place (move_missile fl (missile_at kind w k) deltatime) (missile_at kind w' k)
            alike.x alike.y)

      by_place :
          (c ≡ false) ⊎ Gone kind k w'
          → MovesAlike (move_missile fl (missile_at kind w k) deltatime) (missile_at kind w' k)
          → (kind2 : MissileType) (j : ℕ) (b : Bool) → (same_kind kind kind2 && k == j) ≡ b
          → ((spot (enters kind k (after_round (c || false)) phase kind2 j) (missile_at kind2 w' j)
                ≡ moved_to kind k
                    (spot flies (move_missile fl (missile_at kind w k) deltatime))
                    (λ kind3 i. spot (phase kind3 i) (missile_at kind3 w i))
                    kind2
                    j)
              × ((missile_at kind2 w' j).deleted ≡ (missile_at kind2 w' j).deleted))
            ⊎ Gone kind2 j w'
      by_place gone alike kind2 j true on = elim (own_place c gone alike) [
        | inl stays ↦ inl (
          rw on (
              same_kind-subst
                (λ u n.
                  spot (after_round (c || false)) (missile_at u w' n)
                  ≡ spot flies (move_missile fl (missile_at kind w k) deltatime))
                kind kind2 k j on stays),
          refl,
        )
        | inr lost ↦ inr (same_kind-subst (λ u n. Gone u n w') kind kind2 k j on lost)
      ]
      by_place gone alike kind2 j false off = inl (
        rw off (spot-Kept (phase kind2 j) kind2 j w w' (others kind2 j off) (g.at kind2 j)),
        refl,
      )

      after_kind :
          (b : Bool)
          → (missile_at kind w' k).missile_type ≡ kind
          → HasKind (after_round b) kind (missile_at kind w' k)
      after_kind true h = tt
      after_kind false h = h

      by_kind :
          (missile_at kind w' k).missile_type ≡ kind
          → (kind2 : MissileType) (j : ℕ) (b : Bool) → (same_kind kind kind2 && k == j) ≡ b
          → HasKind
              (enters kind k (after_round (c || false)) phase kind2 j)
              kind2
              (missile_at kind2 w' j)
      by_kind of_kind kind2 j true on = rw on (
          same_kind-subst (λ u n. HasKind (after_round (c || false)) u (missile_at u w' n)) kind
            kind2 k j on (after_kind (c || false) of_kind))
      by_kind of_kind kind2 j false off = rw off (
          HasKind-Kept (phase kind2 j) kind2 j w w' (others kind2 j off) (g.at kind2 j)
            (t.kinds kind2 j))
