-- ===== src/Fifo/Invariant.antt =====
-- The invariant of the queue protocol: it holds at the start and every step keeps it.
mod Defs
mod Change
mod Waits
mod Grants
mod Moves
pub use Defs.*
pub use Moves.{Good, Yields, launch-Good, request-Good, get-Good, splice-Good}
pub use Moves.{resume_request-Good, resume_get-Good}
pub use Change.{is_first, no_hand_over, has_mutex-split}
use Moves.{Move-Good}
use Change.{IsLegal-update}
use patriots_rtes.Prelude.{
  ℕ, ◌+◌, ◌<◌, ◌≡◌, refl, update, List, [], ◌∷◌, ℤ, Bool, true, arith, if◌then◌else◌, ◌==◌,
}
use patriots_rtes.Prelude.Tally.{tally, tally-update, bit}
use patriots_rtes.Platform.{Semaphore}
use patriots_rtes.World.{FifoQueueGestor}
use patriots_rtes.Fifo.Protocol.{Pc, idle, owning, System, Step, pick, pass, Reach, start, later}

-- A thread passes its index to an idle one.
pass_tally :
    (p : Pc → Bool) (n : ℕ) (pc : ℕ → Pc) (i j : ℕ) (index : ℤ)
    → i < n
    → j < n
    → pc i ≡ owning index
    → pc j ≡ idle
    → tally p n (update (update pc i idle) j (owning index)) ≡ tally p n pc
pass_tally p n pc i j index li lj at_i at_j =
    ground (
      arith,
      tally-update p n pc i idle li,
      tally-update p n (update pc i idle) j (owning index) lj,
    )

module _ {S : Type 0} ⦃s : Semaphore S⦄ where
  pass-Inv :
      (n : ℕ) (g : FifoQueueGestor S) (pc : ℕ → Pc) (i j : ℕ) (index : ℤ) {free used : List ℕ}
      → i < n
      → j < n
      → pc i ≡ owning index
      → pc j ≡ idle
      → Inv n g pc free used
      → Inv n g (update (update pc i idle) j (owning index)) free used
  pass-Inv n g pc i j index li lj at_i at_j inv =
      let same = λ (p : Pc → Bool). pass_tally p n pc i j index li lj at_i at_j in
      record {
        legal =
            IsLegal-update (update pc i idle) j (owning index)
              (IsLegal-update pc i idle inv.legal tt) (rw at_i at (inv.legal i));
        lists = inv.lists;
        partition = λ k lt. rw (same (owns k)) (inv.partition k lt);
        one_mutex = rw (same has_mutex) inv.one_mutex;
        write_blk = rw (same is_write_blocked, same is_write_woken) inv.write_blk;
        read_blk = rw (same is_read_blocked, same is_read_woken) inv.read_blk;
        write_taken = rw (same is_write_blocked) inv.write_taken;
        read_taken = rw (same is_read_blocked) inv.read_taken;
        one_for_writer = λ h. rw (same is_write_woken) (inv.one_for_writer h);
        one_for_reader = rw (same is_read_woken) inv.one_for_reader;
      }

  Step-Good : {n : ℕ} {t u : System S} → Step n t u → Good n t.gestor t.pc → Good n u.gestor u.pc
  Step-Good {n} {t} (pick i lt mv) good =
      Move-Good n t.gestor t.pc i lt good.free good.used good.inv mv refl
  Step-Good {n} {t} (pass i j {index} li lj at_i at_j) good = record {
    free = good.free;
    used = good.used;
    inv = pass-Inv n t.gestor t.pc i j index li lj at_i at_j good.inv;
  }

  pub Reach-Good : {n : ℕ} {t : System S} → Reach n t → Good n t.gestor t.pc
  Reach-Good {n} (start memory) = record {
    free = 0 ∷ 1 ∷ 2 ∷ 3 ∷ [];
    used = [];
    inv = Inv-init n memory;
  }
  Reach-Good (later r st) = Step-Good st (Reach-Good r)
