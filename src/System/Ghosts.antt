-- ===== src/System/Ghosts.antt =====
-- No cell of the grid is that of a missile that does not fly, until `end` is set.
use patriots_rtes.Prelude.{ℕ, ◌<◌, ◌≡◌, refl, true, false, pos, arith, ap}
use patriots_rtes.Config.{xwin, ywin}
use patriots_rtes.Platform.{Semaphore, Floating}
use patriots_rtes.World.{MissileType, Missile, Pos, missile_at}
use patriots_rtes.Collision.{cell_at}
use patriots_rtes.Collision.Deletion.{holds}
use patriots_rtes.Collision.Follow.{at, Gone}
use patriots_rtes.System.Whole.{
  Phase, away, held, samples, flies, ended, State, Move, quiet, round, finish, take, launch_atk,
  launch_def, start, escape, Reach, ready, later,
}
use patriots_rtes.System.Phases.{Good}
use patriots_rtes.System.FlightCells.{round-Tracked}
use patriots_rtes.System.Cells.{
  quiet-Tracked, finish-Tracked, take-Tracked, launch_atk-Tracked, launch_def-Tracked,
  start-Tracked,
}
use patriots_rtes.System.Safety.{Reach-Good}
use patriots_rtes.System.Places.{spot, Tracked, nowhere≢at}

module _ {F D S : Type 0} (fl : Floating F D) ⦃s : Semaphore S⦄ where
  Move-Tracked : {t u : State F S} → Move fl t u → u.end ≡ false → Good t → Tracked t → Tracked u
  Move-Tracked (quiet {w = w} {w' = w'} {phase = phase} {stop = stop} move) on g t =
      quiet-Tracked fl w w' phase stop move g t
  Move-Tracked (round kind k deltatime true e h) on g t = absurd (ground (arith, on))
  Move-Tracked (round kind k deltatime false {w = w} {w' = w'} {phase = phase} {c = c} e h) on g t =
      round-Tracked fl kind k deltatime w w' phase c e h g t
  Move-Tracked (finish kind k {w = w} {w' = w'} {phase = phase} {stop = stop} e h) on g t =
      finish-Tracked fl kind k w w' phase stop e h g t
  Move-Tracked (take kind k {w = w} {q = q} {phase = phase} {stop = stop} taken) on g t =
      take-Tracked fl kind k w q phase stop taken g t
  Move-Tracked
        (launch_atk draws thread k x {w = w} {w' = w'} {phase = phase} {stop = stop} {call = call} e
          h at_x lt)
        on g t =
      launch_atk-Tracked fl draws thread k w w' phase stop call e h g t
  Move-Tracked
        (launch_def thread k {w = w} {w' = w'} {phase = phase} {stop = stop} {call = call} e h) on g
        t =
      launch_def-Tracked fl thread k w w' phase stop call e h g t
  Move-Tracked (start k c {w = w} {phase = phase} {stop = stop} e lt) on g t =
      start-Tracked fl k c w phase stop e g t
  Move-Tracked escape on g t = absurd (ground (arith, on))

  -- The flag is never reset.
  Move-end : {t u : State F S} → Move fl t u → u.end ≡ false → t.end ≡ false
  Move-end (quiet move) on = on
  Move-end (round kind k deltatime stop e h) on = on
  Move-end (finish kind k e h) on = on
  Move-end (take kind k taken) on = on
  Move-end (launch_atk draws thread k x e h at_x lt) on = on
  Move-end (launch_def thread k e h) on = on
  Move-end (start k c e lt) on = on
  Move-end escape on = absurd (ground (arith, on))

  Reach-Tracked : {t : State F S} → Reach fl t → t.end ≡ false → Tracked t
  Reach-Tracked (ready r) on = record {
    follows = record {
      at_place =
          λ kind k a b la lb held. absurd (ground (arith, r.no_cells kind k a b la lb, held));
      no_ghost = λ kind k dead. r.no_cells kind k;
    };
    kinds = λ kind k. tt;
  }
  Reach-Tracked (later r move) on =
      let before = Move-end move on in
      Move-Tracked move on (Reach-Good fl r) (Reach-Tracked r before)

  -- In every state that the program reaches from a ready one before `end` is set, if attackers start
  -- left of the right border and defenders in the window: a cell of the window that is a missile's is
  -- that of a missile that flies, at its place, so that a missile has one cell at most; and a deleted
  -- missile has none.
  pub cells_follow :
      {t : State F S}
      → Reach fl t
      → t.end ≡ false
      → (kind : MissileType) (k : ℕ)
      → ((a b : ℕ)
          → a < xwin
          → b < ywin
          → holds kind k (cell_at t.world a b) ≡ true
          → (t.phase kind k ≡ flies)
            × ((missile_at kind t.world k).x ≡ pos a)
            × ((missile_at kind t.world k).y ≡ pos b))
        × ((missile_at kind t.world k).deleted ≡ true → Gone kind k t.world)
  cells_follow {t} r on kind k =
      let f = (Reach-Tracked r on).follows in
      (
        λ a b la lb held.
            by_phase (t.phase kind k) (missile_at kind t.world k) a b
              (f.at_place kind k a b la lb held),
        f.no_ghost kind k,
      )
    where
      by_phase :
          (p : Phase) (m : Missile F S) (a b : ℕ)
          → spot p m ≡ at a b
          → (p ≡ flies) × (m.x ≡ pos a) × (m.y ≡ pos b)
      by_phase flies m a b e = (refl, ap (λ (p : Pos). p.x) e, ap (λ (p : Pos). p.y) e)
      by_phase away m a b e = absurd (nowhere≢at a b refl e)
      by_phase held m a b e = absurd (nowhere≢at a b refl e)
      by_phase samples m a b e = absurd (nowhere≢at a b refl e)
      by_phase ended m a b e = absurd (nowhere≢at a b refl e)
