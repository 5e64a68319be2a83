-- ===== src/System/Runs.antt =====
-- Any run of the other threads keeps what a missile's thread relies on.
use patriots_rtes.Prelude.{
  ℕ, ◌≡◌, refl, ◌==◌, Bool, true, false, inl, inr, ◌⊎◌, ℤ, ok, arith, sym, ◌∙◌, subst,
}
use patriots_rtes.Config.{ywin}
use patriots_rtes.Platform.{Semaphore, Floating}
use patriots_rtes.World.{MissileType, attacker, defender, World, missile_at}
use patriots_rtes.Collision.Scan.{Outcome}
use patriots_rtes.Collision.Valid.{HasValidCells}
use patriots_rtes.Collision.Frame.{MovesAlike, same-MovesAlike}
use patriots_rtes.Fifo.Taking.{get_next_index-must_wait, request_def_index-must_wait}
use patriots_rtes.Tracking.{search_screen_for_target}
use patriots_rtes.Tracking.Search.{FirstMarked, NoneInRows, search_screen_for_target_lem}
use patriots_rtes.Tracking.Total.{
  marked, mark_target_lem, check_pixel-index, search_screen_for_target-Fine,
}
use patriots_rtes.Movement.Round.{MovesAlike-trans}
use patriots_rtes.Movement.Ending.{Owned, Kept, idle-Keeps}
use patriots_rtes.System.{
  Quiet, requests, waits, waits_for_def, searches, Step, moves, ends, quiet, launches_atk, takes,
  launches_def, starts, Run, still, more,
}
use patriots_rtes.System.Others.{moves-Kept, ends-Kept}
use patriots_rtes.System.Keeps.{
  requests-Kept, queued-Kept, Takes-Kept, launches_atk-Kept, launches_def-Kept, starts-Kept,
}

module _ {F S : Type 0} where
  Kept-trans :
      (kind : MissileType) (k : ℕ) (u v w : World F S)
      → Kept kind k u v
      → Kept kind k v w
      → Kept kind k u w
  Kept-trans kind k u v w p q = record {
    cells = q.cells;
    alike = MovesAlike-trans p.alike q.alike;
    owned = q.owned;
  }

module _ {F D S : Type 0} (fl : Floating F D) ⦃s : Semaphore S⦄ where
  marked-Kept :
      (kind : MissileType) (k j x y : ℕ) (target : ℤ) (w : World F S)
      → HasValidCells (marked target j x y w)
      → Owned kind k w
      → Kept kind k w (marked target j x y w)
  marked-Kept attacker k j x y target w cells o = record {
    cells = cells;
    alike = by_index (j == k) refl;
    owned = record { free = o.free; used = o.used; lists = o.lists; mine = o.mine };
  }
    where
      by_index :
          (b : Bool)
          → (j == k) ≡ b
          → MovesAlike (missile_at attacker w k) (missile_at attacker (marked target j x y w) k)
      by_index b e = ground arith
  marked-Kept defender k j x y target w cells o = record {
    cells = cells;
    alike = same-MovesAlike _ _ refl;
    owned = record { free = o.free; used = o.used; lists = o.lists; mine = o.mine };
  }

  pub searches-Kept :
      (kind : MissileType) (k : ℕ) (getpixel : ℕ → ℕ → ℕ) (target : ℤ) (w w' : World F S) (c : Bool)
      → HasValidCells w
      → search_screen_for_target getpixel target w ≡ ok (w', c)
      → Owned kind k w
      → Kept kind k w w'
  searches-Kept kind k getpixel target w w' c cells h o =
      let (p, e, valid) = search_screen_for_target-Fine getpixel target w cells in
      let both : ◌≡◌ {A = Outcome F S} (ok p) (ok (w', c)) = sym e ∙ h in
      let at_end : p.0 ≡ w' = cc in
      by_result (subst HasValidCells at_end valid)
        (search_screen_for_target_lem getpixel target w w' c h)
    where
      by_result :
          HasValidCells w'
          → (c ≡ false) × (w' ≡ w) × NoneInRows getpixel w 0 ywin
            ⊎ (c ≡ true) × FirstMarked getpixel target w w' 0 ywin
          → Kept kind k w w'
      by_result valid (inl (none_found, same, clear)) =
          subst (Kept kind k w) (sym same) (idle-Keeps kind k w cells o)
      by_result valid (inr (found, f)) =
          let (j, stands, lt) =
            check_pixel-index getpixel f.x f.y w cells f.in_x f.in_y.1 f.passes in
          let e : ◌≡◌ {A = Outcome F S} (ok (w', true)) (ok (marked target j f.x f.y w, true)) =
            sym f.marked ∙ mark_target_lem target j f.x f.y w stands lt in
          let same : w' ≡ marked target j f.x f.y w = cc in
          subst (Kept kind k w) (sym same)
            (marked-Kept kind k j f.x f.y target w (subst HasValidCells same valid) o)

  pub Quiet-Kept :
      {w w' : World F S}
      → Quiet fl w w'
      → HasValidCells w
      → (kind : MissileType) (k : ℕ) → Owned kind k w
      → Kept kind k w w'
  Quiet-Kept {w} {w'} (requests h) cells kind k o = requests-Kept fl kind k w w' cells h o
  Quiet-Kept {w} (waits {q = q} h) cells kind k o =
      queued-Kept fl kind attacker k q w cells
        (λ free used r new.
          (free, used, get_next_index-must_wait w.atk_gestor.gestor q free used h r, new))
        o
  Quiet-Kept {w} (waits_for_def {q = q} h) cells kind k o =
      queued-Kept fl kind defender k q w cells
        (λ free used r new.
          (free, used, request_def_index-must_wait w.def_gestor.gestor q free used h r, new))
        o
  Quiet-Kept {w} {w'} (searches getpixel target {c = c} h) cells kind k o =
      searches-Kept kind k getpixel target w w' c cells h o

  Step-Kept :
      (kind : MissileType) (k : ℕ) {w w' : World F S}
      → Step fl kind k w w'
      → HasValidCells w
      → Owned kind k w
      → Kept kind k w w'
  Step-Kept kind k {w} {w'} (moves kind' k' deltatime {c = c} other moving h) cells o =
      moves-Kept fl kind k kind' k' deltatime w w' c other moving h o
  Step-Kept kind k {w} {w'} (ends kind' k' other o' e h) cells o =
      ends-Kept fl kind k kind' k' w w' other cells o' e h o
  Step-Kept kind k (quiet move) cells o = Quiet-Kept move cells kind k o
  Step-Kept kind k {w} {w'} (launches_atk draws thread k' {call = call} other lt h) cells o =
      launches_atk-Kept fl kind k draws thread k' w w' call other lt h cells o
  Step-Kept kind k {w} (takes kind' k' {q = q} taken) cells o =
      Takes-Kept fl kind kind' k k' w q taken cells o
  Step-Kept kind k {w} {w'} (launches_def thread k' {call = call} other lt h) cells o =
      launches_def-Kept fl kind k thread k' w w' call other lt h cells o
  Step-Kept kind k {w} (starts k' start_x other) cells o =
      starts-Kept fl kind k k' start_x w other cells o

  -- Whatever the other threads do, in any order and for any number of steps, they leave valid cells, the
  -- motion of a missile, and its index in use.
  pub Run-Kept :
      (kind : MissileType) (k : ℕ) (w w' : World F S)
      → Run fl kind k w w'
      → HasValidCells w
      → Owned kind k w
      → Kept kind k w w'
  Run-Kept kind k w w' still cells o = idle-Keeps kind k w cells o
  Run-Kept kind k w w' (more {v = v} run step) cells o =
      let p = Run-Kept kind k w v run cells o in
      Kept-trans kind k w v w' p (Step-Kept kind k step p.cells p.owned)
