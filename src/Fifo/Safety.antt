-- ===== src/Fifo/Safety.antt =====
-- What the queue protocol guarantees in every reachable state, for any number of threads.
use native.Mathlib.Decide.{ℕ_discrete}
use patriots_rtes.Prelude.{
  ℕ, ◌+◌, ◌≤◌, ◌<◌, ◌≡◌, refl, true, List, [], ◌∷◌, count, ℤ, Result, ok, arith,
}
use patriots_rtes.Prelude.Tally.{tally, tally_two}
use patriots_rtes.Config.{max_missiles, none_index}
use patriots_rtes.Platform.{Semaphore}
use patriots_rtes.World.{FifoQueueGestor}
use patriots_rtes.Fifo.{
  request_atk_launch, request_def_index, request_def_index_woken, get_next_index,
  get_next_index_woken, splice_index,
}
use patriots_rtes.Fifo.Chain.{Chain}
use patriots_rtes.Fifo.Refinement.{Represents}
use patriots_rtes.Fifo.Protocol.{
  Pc, idle, launching, requesting, getting, splicing, write_blocked, write_woken, read_blocked,
  read_woken, owning, System, Reach,
}
use patriots_rtes.Fifo.Invariant.{
  has_mutex-split, Good, owns, length, is_first, no_hand_over, Reach-Good, launch-Good,
  request-Good, get-Good, splice-Good, resume_request-Good, resume_get-Good,
}

abbrev pub Returns : {A : Type 0} → Result A → Type 0
Returns {A} r = (a : A) × (r ≡ ok a)

-- The code that a thread is about to run returns.
abbrev pub RunsClean : {S : Type 0} ⦃s : Semaphore S⦄ → FifoQueueGestor S → Pc → Type 0
RunsClean g launching = Returns (request_atk_launch g)
RunsClean g requesting = Returns (request_def_index g)
RunsClean g getting = Returns (get_next_index g)
RunsClean g (splicing index) = Returns (splice_index g index)
RunsClean g write_woken = Returns (request_def_index_woken g)
RunsClean g read_woken = Returns (get_next_index_woken g)
RunsClean g _ = Unit {0}

-- Two lists partition the indices with those that threads own.
pub record Partition {S : Type 0} (n : ℕ) (t : System S) : Type 0 where
  pub free : List ℕ
  pub used : List ℕ
  pub lists : Represents t.gestor free used
  pub once : (k : ℕ) → k < max_missiles → count k free + count k used + tally (owns k) n t.pc ≡ 1

empty-Chain :
    (next : ℕ → ℤ) (i : ℤ) (ks : List ℕ) → Chain next i ks → length ks ≡ 0 → i ≡ none_index
empty-Chain next i [] c h = c
empty-Chain next i (k ∷ ks) c h = absurd (omega arith)

module _ {S : Type 0} ⦃s : Semaphore S⦄ {n : ℕ} {t : System S} (r : Reach n t) where
  open s use {value}

  abbrev good : Good n t.gestor t.pc
  good = Reach-Good r

  -- In a reachable state each index stands exactly once: in the chain of free indices, in the chain of
  -- requested ones, or with a thread. None is lost and none is given out twice.
  pub index-Partition : Partition n t
  index-Partition = record {
    free = good.free;
    used = good.used;
    lists = good.inv.lists;
    once = good.inv.partition;
  }

  -- In a reachable state no two threads own the same index.
  index_exclusive :
      (k i j : ℕ)
      → k < max_missiles
      → i < n
      → j < n
      → owns k (t.pc i) ≡ true
      → owns k (t.pc j) ≡ true
      → i ≡ j
  index_exclusive k i j lk li lj oi oj = elim (ℕ_discrete i j) [
    | yes e ↦ e
    | no ne ↦
        absurd
          (omega (arith, good.inv.partition k lk, tally_two (owns k) n t.pc i j li lj ne oi oj))
  ]

  -- In a reachable state no `assert` of the queue fails and no index is out of bounds, whichever
  -- operation a thread is in.
  pub no_fault : (i : ℕ) → i < n → RunsClean t.gestor (t.pc i)
  no_fault i lt = by_place (t.pc i) refl
    where
      by_place : (p : Pc) → t.pc i ≡ p → RunsClean t.gestor p
      by_place idle at = tt
      by_place launching at =
          let y = launch-Good n t.gestor t.pc i lt good.free good.used good.inv at in (y.0, y.1)
      by_place requesting at =
          let y = request-Good n t.gestor t.pc i lt good.free good.used good.inv at in (y.0, y.1)
      by_place getting at =
          let y = get-Good n t.gestor t.pc i lt good.free good.used good.inv at in (y.0, y.1)
      by_place (splicing index) at =
          let y = splice-Good n t.gestor t.pc i lt good.free good.used good.inv at in (y.0, y.1)
      by_place write_blocked at = tt
      by_place write_woken at =
          let y = resume_request-Good n t.gestor t.pc i lt good.free good.used good.inv at in
          (y.0, y.1)
      by_place read_blocked at = tt
      by_place read_woken at =
          let y = resume_get-Good n t.gestor t.pc i lt good.free good.used good.inv at in (y.0, y.1)
      by_place (owning index) at = tt

  -- In a reachable state, a thread that has waited for the mutex finds no requested index: the request
  -- of a launch is always handed over with the mutex, so `update_queue_head` never appends to another
  -- and `get_next_index` never returns without waiting.
  pub head_always_empty :
      (i : ℕ) → i < n → is_first (t.pc i) ≡ true → t.gestor.head_index ≡ none_index
  head_always_empty i lt h =
      empty-Chain t.gestor.next t.gestor.head_index good.used good.inv.lists.used_chain
        (omega (arith, good.inv.one_for_reader, no_hand_over good.inv i lt h))

  -- In a reachable state in which the mutex is free, threads wait for a free index only while there is
  -- none: no wake-up is lost.
  pub no_lost_wake_up :
      1 ≤ value t.gestor.mutex → 1 ≤ t.gestor.write_sem.blk → t.gestor.free_index ≡ none_index
  no_lost_wake_up free waiting =
      empty-Chain t.gestor.next t.gestor.free_index good.free good.inv.lists.free_chain
        (omega (arith, good.inv.one_for_writer waiting, good.inv.one_mutex, has_mutex-split n t.pc))
