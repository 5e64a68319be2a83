-- ===== src/Fifo/Refinement.antt =====
-- Seen as two lists, the free indices and the requested ones, the operations are those of a stack and
-- of a queue.
use patriots_rtes.Prelude.{
  ℕ, ◌+◌, ◌≤◌, ◌<◌, ◌≡◌, refl, ◌==◌, if◌then◌else◌, update, update_self, count, count-append, List,
  [], ◌∷◌, ◌++◌, ℤ, pos, subst, Result, ok, arith,
}
use patriots_rtes.Config.{max_missiles, none_index}
use patriots_rtes.Platform.{Semaphore}
use patriots_rtes.World.{FifoQueueGestor}
use patriots_rtes.Fifo.{
  init_queue, update_queue_head, take_free, take_head, splice_index, post_mutex, post_write,
}
use patriots_rtes.Fifo.Chain.{Chain, IsTail, Chain-update, Chain-link, IsTail-append, tail-pos}

-- The two lists that the links of a gestor hold, no index twice.
pub record Represents {S : Type 0} (g : FifoQueueGestor S) (free used : List ℕ) : Type 0 where
  pub free_chain : Chain g.next g.free_index free
  pub used_chain : Chain g.next g.head_index used
  pub tail_last : IsTail g.tail_index used
  pub distinct : (k : ℕ) → count k free + count k used ≤ 1

-- An index that a caller may add: in range, and in neither list.
abbrev pub IsNew : ℕ → List ℕ → List ℕ → Type 0
IsNew k free used = (k < max_missiles) × (count k free + count k used ≡ 0)

IsTail-rest : (t : ℤ) (k : ℕ) (ks : List ℕ) → IsTail t (k ∷ ks) → IsTail t ks
IsTail-rest t k [] h = tt
IsTail-rest t k (l ∷ ks) h = h

module _ {S : Type 0} ⦃s : Semaphore S⦄ where
  open s use {sem_post}

  -- A new queue has the indices free in their order, whatever the array held.
  pub init_queue-Represents :
      (memory : ℕ → ℤ) → Represents {S = S} (init_queue memory) (0 ∷ 1 ∷ 2 ∷ 3 ∷ []) []
  unfolding init_queue
  init_queue-Represents memory = record {
    free_chain = ground arith;
    used_chain = refl;
    tail_last = tt;
    distinct = λ k. ground arith;
  }

  module _ (g : FifoQueueGestor S) (free used : List ℕ) where
    -- `take_free` pops the first free index and frees the mutex.
    pub take_free-Represents :
        (k : ℕ)
        → Represents g (k ∷ free) used
        → (take_free g ≡ ok (post_mutex (record g { free_index = g.next k }), pos k))
          × Represents (record g { free_index = g.next k }) free used
    unfolding take_free
    take_free-Represents k r = (
      ground (arith, r.free_chain),
      record {
        free_chain = r.free_chain.2;
        used_chain = r.used_chain;
        tail_last = r.tail_last;
        distinct = λ j. omega (arith, r.distinct j);
      },
    )

    -- The queue with an index pushed.
    abbrev pub spliced : ℕ → FifoQueueGestor S
    spliced k = record g { next = update g.next k g.free_index; free_index = pos k }

    -- `splice_index` of an index that is in use pushes it, and hands the mutex to a blocked caller of
    -- `request_def_index` if there is one.
    pub splice_index-Represents :
        (k : ℕ)
        → Represents g free used
        → IsNew k free used
        → (splice_index g (pos k)
            ≡ ok (if g.write_sem.blk == 0 then post_mutex (spliced k) else post_write (spliced k)))
          × Represents (spliced k) (k ∷ free) used
    unfolding splice_index
    splice_index-Represents k r new = (
      ground arith,
      record {
        free_chain = (
          refl,
          new.0,
          rw (update_self g.next k g.free_index)
              (Chain-update g.next g.free_index free k g.free_index (omega arith) r.free_chain),
        );
        used_chain =
            Chain-update g.next g.head_index used k g.free_index (omega arith) r.used_chain;
        tail_last = r.tail_last;
        distinct = λ j. ground (arith, r.distinct j, new.1);
      },
    )

  -- The semaphores and the counters of blocked threads.
  pub record SameSems (g h : FifoQueueGestor S) : Type 0 where
    pub mutex : h.mutex ≡ g.mutex
    pub write_sem : h.write_sem ≡ g.write_sem
    pub read_sem : h.read_sem ≡ g.read_sem
    pub free_index : h.free_index ≡ g.free_index

  pub record Appends (g : FifoQueueGestor S) (free used : List ℕ) (r : Result (FifoQueueGestor S))
      : Type 0 where
    pub out : FifoQueueGestor S
    pub returns : r ≡ ok out
    pub lists : Represents out free used
    pub same : SameSems g out

  -- With a blocked reader, `update_queue_head` appends a new index to the requested ones, whether or
  -- not there are any, and changes nothing else.
  pub update_queue_head-Appends :
      (g : FifoQueueGestor S) (free used : List ℕ) (k : ℕ)
      → Represents g free used
      → IsNew k free used
      → 0 < g.read_sem.blk
      → Appends g free (used ++ k ∷ []) (update_queue_head g (pos k))
  unfolding update_queue_head
  update_queue_head-Appends g free [] k r new reader = record {
    out = record g { next = update g.next k none_index; head_index = pos k; tail_index = pos k };
    returns = ground (arith, r.used_chain);
    lists = record {
      free_chain = Chain-update g.next g.free_index free k none_index (omega arith) r.free_chain;
      used_chain = (refl, new.0, update_self g.next k none_index);
      tail_last = refl;
      distinct = λ j. ground (arith, r.distinct j, new.1);
    };
    same = record { mutex = refl; write_sem = refl; read_sem = refl; free_index = refl };
  }
  update_queue_head-Appends g free (u ∷ us) k r new reader =
      let (l, e, lt, on) =
        tail-pos g.next g.head_index g.tail_index u us r.used_chain r.tail_last in
      let ended : ℕ → ℤ = update g.next k none_index in
      record {
        out = record g { next = update ended l (pos k); tail_index = pos k };
        returns = ground (arith, r.used_chain.0);
        lists = record {
          free_chain =
              Chain-update ended g.free_index free l (pos k) (omega (arith, r.distinct l))
                (Chain-update g.next g.free_index free k none_index (omega arith) r.free_chain);
          used_chain =
              Chain-link ended g.head_index u us l k
                (Chain-update g.next g.head_index (u ∷ us) k none_index (omega arith) r.used_chain)
                (subst (λ z. IsTail z (u ∷ us)) e r.tail_last) (λ j. omega (arith, r.distinct j))
                (update_self g.next k none_index) new.0 (omega arith);
          tail_last = IsTail-append k u us;
          distinct = λ j. ground (arith, count-append j (u ∷ us) (k ∷ []), r.distinct j, new.1);
        };
        same = record { mutex = refl; write_sem = refl; read_sem = refl; free_index = refl };
      }

  -- `take_head` pops the index that was requested first and frees the mutex.
  pub take_head-Represents :
      (g : FifoQueueGestor S) (free used : List ℕ) (k : ℕ)
      → Represents g free (k ∷ used)
      → (take_head g ≡ ok (post_mutex (record g { head_index = g.next k }), pos k))
        × Represents (record g { head_index = g.next k }) free used
  unfolding take_head
  take_head-Represents g free used k r = (
    ground (arith, r.used_chain),
    record {
      free_chain = r.free_chain;
      used_chain = r.used_chain.2;
      tail_last = IsTail-rest g.tail_index k used r.tail_last;
      distinct = λ j. omega (arith, r.distinct j);
    },
  )
