-- ===== src/System/Lives.antt =====
-- A missile's life among the other threads, from its launch to the end of its thread.
use patriots_rtes.Prelude.{ℕ, ◌≤◌, ◌<◌, Bool, ℤ, pos, List, ◌∷◌}
use patriots_rtes.Config.{xwin, atk_missile_period}
use patriots_rtes.Platform.{Semaphore, Floating}
use patriots_rtes.World.{MissileType, attacker, World, missile_at}
use patriots_rtes.Collision.Valid.{HasValidCells}
use patriots_rtes.Fifo.Refinement.{Represents}
use patriots_rtes.Lifecycle.{get_deltatime}
use patriots_rtes.Movement.{atk_thread}
use patriots_rtes.Movement.Ending.{Owned, Keeps, LeavesAfter}
use patriots_rtes.Movement.Threads.{Returned}
use patriots_rtes.Launchers.{Draws}
use patriots_rtes.Launchers.Rounds.{woken}
use patriots_rtes.Launchers.Lives.{Launch, launched-Returned}
use patriots_rtes.System.{Run}
use patriots_rtes.System.Runs.{Run-Kept}

module _ {F D S : Type 0} (fl : Floating F D) ⦃s : Semaphore S⦄ where
  -- The others make a run of the steps that other threads have.
  abbrev pub Runs : MissileType → ℕ → (World F S → World F S) → Type 0
  Runs kind k f = (w : World F S) → HasValidCells w → Owned kind k w → Run fl kind k w (f w)

  pub Runs-Keeps :
      (kind : MissileType) (k : ℕ) (f : World F S → World F S) → Runs kind k f → Keeps kind k f
  Runs-Keeps kind k f runs w cells o = Run-Kept fl kind k w (f w) (runs w cells o) cells o

  -- A round of the launcher of attackers that launches a missile in the window, and the thread of the
  -- missile: whatever the other threads do between its rounds, the thread returns without a fault, and
  -- the index is free again, if the missile leaves the window after `n` moves and there are as many
  -- rounds.
  pub attacker_life :
      (asked : World F S → World F S) (draws : Draws F) (thread : ℤ) (w : World F S)
      (free used : List ℕ) (k : ℕ) (l : Launch fl asked draws thread w free used k)
      (ended : ℕ → Bool) (others : ℕ → World F S → World F S) (waited : World F S → World F S)
      (n fuel : ℕ)
      → Represents (woken fl asked w).atk_gestor.gestor free (k ∷ used)
      → HasValidCells (woken fl asked w)
      → l.fresh.x < xwin
      → ((j : ℕ) → Runs attacker k (others j))
      → Runs attacker k waited
      → LeavesAfter fl attacker k
          (get_deltatime fl (pos atk_missile_period))
          n
          (missile_at attacker l.world k)
      → n ≤ fuel
      → Returned fl attacker k (atk_thread fl ended others waited k fuel l.world)
  attacker_life asked draws thread w free used k l ended others waited n fuel q cells lt runs
        runs_waited out le =
      launched-Returned fl asked draws thread w free used k ended others waited l n fuel q cells lt
        (λ j. Runs-Keeps attacker k (others j) (runs j)) (Runs-Keeps attacker k waited runs_waited)
        out le
