-- ===== src/Launchers/Lives.antt =====
-- An attacker from its launch to the end of its thread.
use patriots_rtes.Prelude.{
  ℕ, suc, ◌≤◌, ◌<◌, ◌≡◌, Bool, ℤ, pos, some, err, out_of_bounds, List, ◌∷◌, arith, sym, subst,
  false,
}
use patriots_rtes.Config.{xwin, atk_missile_period}
use patriots_rtes.Platform.{Semaphore, Floating}
use patriots_rtes.World.{attacker, World, missile_at}
use patriots_rtes.Grid.{check_borders}
use patriots_rtes.Collision.Valid.{HasValidCells, IsValidCell}
use patriots_rtes.Fifo.Refinement.{Represents}
use patriots_rtes.Lifecycle.{get_deltatime}
use patriots_rtes.Movement.{atk_thread}
use patriots_rtes.Movement.Ending.{Keeps, Running, LeavesAfter}
use patriots_rtes.Movement.Threads.{Returned, atk_thread-Returned}
use patriots_rtes.Movement.Faults.{atk_thread-outside}
use patriots_rtes.Launchers.{Draws, atk_launcher_round}
use patriots_rtes.Launchers.Rounds.{Launched, woken}

module _ {F D S : Type 0} (fl : Floating F D) ⦃s : Semaphore S⦄ (asked : World F S → World F S)
    (draws : Draws F) (thread : ℤ) (w : World F S) (free used : List ℕ) (k : ℕ) where
  -- The round that launches the missile `k`; `asked` is what the others do while the launcher waits.
  abbrev pub Launch : Type 0
  Launch = Launched fl (woken fl asked w) free used k (atk_launcher_round fl asked draws thread w)

  Launched-Running :
      (l : Launch)
      → Represents (woken fl asked w).atk_gestor.gestor free (k ∷ used)
      → HasValidCells (woken fl asked w)
      → l.fresh.x < xwin
      → Running fl attacker k (get_deltatime fl (pos atk_missile_period)) l.world
  Launched-Running l q cells lt = record {
    moving = record {
      index = (k, l.fresh.index, q.used_chain.1);
      window = record {
        x = l.fresh.x;
        y = 8;
        at_x = l.fresh.at_x;
        at_y = l.fresh.at_y;
        in_x = lt;
        in_y = omega arith;
      };
      cells = λ x y hx hy. subst (λ e. IsValidCell (e.cell x y)) (sym l.env) (cells x y hx hy);
    };
    owned = record {
      free = free;
      used = used;
      lists = l.lists;
      mine = (q.used_chain.1, grind (arith, q.distinct k));
    };
  }

  module _ (ended : ℕ → Bool) (others : ℕ → World F S → World F S) (waited : World F S → World F S)
      (l : Launch) where
    -- A launched attacker that starts in the window lives to its end: its thread returns, and its index
    -- is free again, if the missile leaves the window after `n` moves and there are as many rounds.
    pub launched-Returned :
        (n fuel : ℕ)
        → Represents (woken fl asked w).atk_gestor.gestor free (k ∷ used)
        → HasValidCells (woken fl asked w)
        → l.fresh.x < xwin
        → ((j : ℕ) → Keeps attacker k (others j))
        → Keeps attacker k waited
        → LeavesAfter fl attacker k
            (get_deltatime fl (pos atk_missile_period))
            n
            (missile_at attacker l.world k)
        → n ≤ fuel
        → Returned fl attacker k (atk_thread fl ended others waited k fuel l.world)
    launched-Returned n fuel q cells lt keep keep_waited out le =
        atk_thread-Returned fl k ended others waited n fuel l.world keep keep_waited
          (Launched-Running l q cells lt) l.fresh.index out le

    -- A launched attacker whose start is XWIN, the right border, which `frand` may give, accesses the grid
    -- out of bounds in the first round of its thread.
    pub launched-outside :
        (fuel : ℕ)
        → l.fresh.x ≡ xwin
        → atk_thread fl ended others waited k (suc fuel) l.world ≡ some (err out_of_bounds)
    launched-outside fuel e =
        atk_thread-outside fl ended others waited k fuel l.world l.fresh.alive
          (border l.fresh.at_x e)
      where
        border :
            {x : ℤ} {n : ℕ}
            → x ≡ pos n
            → n ≡ xwin
            → check_borders x (missile_at attacker l.world k).y ≡ false
        border h e = ground (arith, h, e)
