-- ===== src/System/Unmoved.antt =====
-- Operations that leave which cells hold a missile, and which missiles are deleted.
use patriots_rtes.Prelude.{
  ℕ, ◌≡◌, refl, true, ℤ, ok, arith, inl, inr, sym, ◌∙◌, subst, Result, >>=-eq-ok,
}
use patriots_rtes.Platform.{Semaphore, Floating}
use patriots_rtes.World.{
  MissileType, attacker, defender, Missile, FifoQueueGestor, World, missile_at, set_missile,
}
use patriots_rtes.Fifo.{request_atk_launch}
use patriots_rtes.Collision.{cell_at}
use patriots_rtes.Collision.Deletion.{holds}
use patriots_rtes.Collision.Scan.{Outcome}
use patriots_rtes.Collision.Valid.{HasValidCells}
use patriots_rtes.Launchers.{set_queue}
use patriots_rtes.Tracking.Search.{search_screen_for_target_lem}
use patriots_rtes.Tracking.Total.{marked, mark_target_lem, check_pixel-index}
use patriots_rtes.System.{Quiet, requests, waits, waits_for_def, searches}

module _ {F S : Type 0} where
  -- Cells that hold the same missiles, and flags of a missile that are the same.
  abbrev pub SameCells : World F S → World F S → Type 0
  SameCells w w' =
      (kind : MissileType) (k a b : ℕ)
      → holds kind k (cell_at w' a b) ≡ holds kind k (cell_at w a b)

  abbrev pub SameFlags : World F S → World F S → Type 0
  SameFlags w w' =
      (kind : MissileType) (k : ℕ) → (missile_at kind w' k).deleted ≡ (missile_at kind w k).deleted

  pub set_missile-SameCells :
      (kind' : MissileType) (k' : ℕ) (m : Missile F S) (w : World F S)
      → SameCells w (set_missile kind' k' m w)
  set_missile-SameCells attacker k' m w kind k a b = refl
  set_missile-SameCells defender k' m w kind k a b = refl

  pub set_missile-SameFlags :
      (kind' : MissileType) (k' : ℕ) (m : Missile F S) (w : World F S)
      → m.deleted ≡ (missile_at kind' w k').deleted
      → SameFlags w (set_missile kind' k' m w)
  set_missile-SameFlags attacker k' m w e attacker k = ground (arith, e)
  set_missile-SameFlags attacker k' m w e defender k = refl
  set_missile-SameFlags defender k' m w e attacker k = refl
  set_missile-SameFlags defender k' m w e defender k = ground (arith, e)

  marked-same :
      (j x y : ℕ) (target : ℤ) (w : World F S)
      → SameCells w (marked target j x y w) × SameFlags w (marked target j x y w)
  marked-same j x y target w = (cells, flags)
    where
      cells : SameCells w (marked target j x y w)
      cells kind k a b = ground arith

      flags : SameFlags w (marked target j x y w)
      flags attacker k = ground arith
      flags defender k = refl

module _ {F D S : Type 0} (fl : Floating F D) ⦃s : Semaphore S⦄ where
  pub set_queue-same :
      (kind' : MissileType) (q : FifoQueueGestor S) (w : World F S)
      → SameCells w (set_queue fl kind' q w) × SameFlags w (set_queue fl kind' q w)
  set_queue-same attacker q w = (λ kind k a b. refl, flags)
    where
      flags : SameFlags w (set_queue fl attacker q w)
      flags attacker k = refl
      flags defender k = refl
  set_queue-same defender q w = (λ kind k a b. refl, flags)
    where
      flags : SameFlags w (set_queue fl defender q w)
      flags attacker k = refl
      flags defender k = refl

  pub Quiet-same :
      {w w' : World F S} → Quiet fl w w' → HasValidCells w → SameCells w w' × SameFlags w w'
  Quiet-same {w} {w'} (requests h) valid =
      let (g, e, rest) = >>=-eq-ok (request_atk_launch w.atk_gestor.gestor) _ h in
      let last : ◌≡◌ {A = Result (World F S)} (ok (set_queue fl attacker g w)) (ok w') = rest in
      let same : set_queue fl attacker g w ≡ w' = cc in
      subst (λ z. SameCells w z × SameFlags w z) same (set_queue-same attacker g w)
  Quiet-same {w} (waits {q = q} h) valid = set_queue-same attacker q w
  Quiet-same {w} (waits_for_def {q = q} h) valid = set_queue-same defender q w
  Quiet-same {w} {w'} (searches getpixel target {c = c} h) valid =
      elim (search_screen_for_target_lem getpixel target w w' c h) [
        | inl (none_found, same, clear) ↦
            subst (λ z. SameCells w z × SameFlags w z) (sym same)
              (λ kind k a b. refl, λ kind k. refl)
        | inr (found, f) ↦
            let (j, stands, lt) =
              check_pixel-index getpixel f.x f.y w valid f.in_x f.in_y.1 f.passes in
            let e : ◌≡◌ {A = Outcome F S} (ok (w', true)) (ok (marked target j f.x f.y w, true)) =
              sym f.marked ∙ mark_target_lem target j f.x f.y w stands lt in
            let same : w' ≡ marked target j f.x f.y w = cc in
            subst (λ z. SameCells w z × SameFlags w z) (sym same) (marked-same j f.x f.y target w)
      ]
