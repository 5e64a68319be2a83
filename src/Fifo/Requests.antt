-- ===== src/Fifo/Requests.antt =====
-- The request of a launch, seen on the two lists of indices; and the way of an index from its request
-- back to the free ones.
use patriots_rtes.Prelude.{
  ℕ, zero, suc, ◌-◌, ◌<◌, ◌≡◌, refl, ◌==◌, if◌then◌else◌, List, [], ◌∷◌, ◌++◌, Result, ok, ◌>>=◌,
  arith, subst, sym, ap, ◌∙◌,
}
use patriots_rtes.Config.{max_missiles}
use patriots_rtes.Platform.{Semaphore}
use patriots_rtes.World.{FifoQueueGestor}
use patriots_rtes.Fifo.{
  set_read_blk, request_atk_launch, get_next_index_woken, splice_index, post_mutex, post_read,
  post_write,
}
use patriots_rtes.Fifo.Refinement.{
  Represents, take_free-Represents, take_head-Represents, spliced, splice_index-Represents,
  update_queue_head-Appends,
}

-- The free and the requested indices after a request, with a number of launchers that wait.
abbrev pub requested_lists : List ℕ → List ℕ → ℕ → List ℕ × List ℕ
requested_lists (k ∷ free) used (suc waiting) = (free, used ++ k ∷ [])
requested_lists free used waiting = (free, used)

module _ {S : Type 0} ⦃s : Semaphore S⦄ where
  open s use {sem_post}

  -- The request has returned, with the lists that are expected; it has passed the mutex to a waiting
  -- launcher if it has requested an index, and has freed it if not.
  pub record Requested (g : FifoQueueGestor S) (free used : List ℕ) (r : Result (FifoQueueGestor S))
      : Type 0 where
    pub out : FifoQueueGestor S
    pub returns : r ≡ ok out
    pub lists :
        Represents out
          (requested_lists free used g.read_sem.blk).0
          (requested_lists free used g.read_sem.blk).1
    pub waiting : (out.read_sem.blk ≡ g.read_sem.blk) × (out.write_sem ≡ g.write_sem)

  -- The lists are those of the links alone.
  pub same_lists :
      (g h : FifoQueueGestor S) (free used : List ℕ)
      → h.next ≡ g.next
      → h.free_index ≡ g.free_index
      → h.head_index ≡ g.head_index
      → h.tail_index ≡ g.tail_index
      → Represents g free used
      → Represents h free used
  same_lists g h free used n f a t r = record {
    free_chain = rw (n, f) r.free_chain;
    used_chain = rw (n, a) r.used_chain;
    tail_last = rw t r.tail_last;
    distinct = r.distinct;
  }

  by_waiting :
      (h : FifoQueueGestor S) (free used : List ℕ) {a b : ℕ}
      → a ≡ b
      → Represents h (requested_lists free used b).0 (requested_lists free used b).1
      → Represents h (requested_lists free used a).0 (requested_lists free used a).1
  by_waiting h free used e v =
      subst (λ b. Represents h (requested_lists free used b).0 (requested_lists free used b).1)
        (sym e) v

  unchanged :
      (g : FifoQueueGestor S) (free used : List ℕ)
      → Represents g free used
      → Represents (post_mutex g) free used
  unchanged g free used r = record {
    free_chain = r.free_chain;
    used_chain = r.used_chain;
    tail_last = r.tail_last;
    distinct = r.distinct;
  }

  woken :
      (g : FifoQueueGestor S) (free used : List ℕ)
      → Represents g free used
      → Represents (post_read g) free used
  woken g free used r = record {
    free_chain = r.free_chain;
    used_chain = r.used_chain;
    tail_last = r.tail_last;
    distinct = r.distinct;
  }

  -- With a free index and a launcher that waits.
  queued :
      (g : FifoQueueGestor S) (k waiting : ℕ) (free used : List ℕ)
      → g.read_sem.blk ≡ suc waiting
      → Represents g (k ∷ free) used
      → Requested g (k ∷ free) used (request_atk_launch g)
  unfolding request_atk_launch
  queued g k waiting free used e r =
      let taken = record g { free_index = g.next k } in
      let a =
        update_queue_head-Appends taken free used k (take_free-Represents g free used k r).1
          (r.free_chain.1, grind (arith, r.distinct k)) (omega arith) in
      record {
        out = post_read a.out;
        returns = ground (arith, r.free_chain, a.returns);
        lists =
            by_waiting (post_read a.out) (k ∷ free) used e
              (woken a.out free (used ++ k ∷ []) a.lists);
        waiting = ground (arith, a.same);
      }

  pub request_atk_launch-Requested :
      (g : FifoQueueGestor S) (free used : List ℕ)
      → Represents g free used
      → Requested g free used (request_atk_launch g)
  unfolding request_atk_launch
  request_atk_launch-Requested g free used r = by_lists free g.read_sem.blk refl r
    where
      by_lists :
          (free : List ℕ) (b : ℕ)
          → g.read_sem.blk ≡ b
          → Represents g free used
          → Requested g free used (request_atk_launch g)
      by_lists [] b e r = record {
        out = post_mutex g;
        returns = ground (arith, r.free_chain);
        lists = unchanged g [] used r;
        waiting = (refl, refl);
      }
      by_lists (k ∷ free) zero e r = record {
        out = post_mutex g;
        returns = ground (arith, r.free_chain);
        lists = by_waiting (post_mutex g) (k ∷ free) used e (unchanged g (k ∷ free) used r);
        waiting = (refl, refl);
      }
      by_lists (k ∷ free) (suc b) e r = queued g k b free used e r

  -- A launcher that wakes gets an index, and its missile gives it back.
  abbrev pub launch_return : FifoQueueGestor S → Result (FifoQueueGestor S)
  launch_return g = do (launched, index) ← get_next_index_woken g; splice_index launched index

  -- The way of an index: the request, the launcher that it has woken, the missile that has ended.
  abbrev pub request_launch_return : FifoQueueGestor S → Result (FifoQueueGestor S)
  request_launch_return g = request_atk_launch g >>= launch_return

  -- The queue after the way of an index: a launcher less waits, and the lists are the ones given.
  pub record Restored (g : FifoQueueGestor S) (free used : List ℕ) (r : Result (FifoQueueGestor S))
      : Type 0 where
    pub out : FifoQueueGestor S
    pub returns : r ≡ ok out
    pub lists : Represents out free used
    pub waiting : (out.read_sem.blk ≡ g.read_sem.blk - 1) × (out.write_sem.blk ≡ g.write_sem.blk)

  abbrev handed : FifoQueueGestor S → FifoQueueGestor S
  handed g = if g.write_sem.blk == 0 then post_mutex g else post_write g

  handed-Represents :
      (g : FifoQueueGestor S) (free used : List ℕ)
      → Represents g free used
      → Represents (handed g) free used
  handed-Represents g free used r = ground (arith, unchanged g free used r)

  handed_waiting :
      (g : FifoQueueGestor S)
      → ((handed g).read_sem.blk ≡ g.read_sem.blk) × ((handed g).write_sem.blk ≡ g.write_sem.blk)
  handed_waiting g = ground arith

  launch_return-Restored :
      (g : FifoQueueGestor S) (k : ℕ) (free used : List ℕ)
      → Represents g free (k ∷ used)
      → k < max_missiles
      → Restored g (k ∷ free) used (launch_return g)
  unfolding get_next_index_woken
  launch_return-Restored g k free used r lt =
      let h = set_read_blk g (g.read_sem.blk - 1) in
      let head = post_mutex (record h { head_index = h.next k }) in
      let (taken, popped) =
        take_head-Represents h free used k (same_lists g h free (k ∷ used) refl refl refl refl r) in
      let (freed, pushed) =
        splice_index-Represents head free used k
          (unchanged (record h { head_index = h.next k }) free used popped)
          (lt, grind (arith, r.distinct k)) in
      record {
        out = handed (spliced head free used k);
        returns = ap (λ z. z >>= λ p. splice_index p.0 p.1) taken ∙ freed;
        lists = handed-Represents (spliced head free used k) (k ∷ free) used pushed;
        waiting = handed_waiting (spliced head free used k);
      }

  then_return :
      (g : FifoQueueGestor S) (k : ℕ) (free : List ℕ)
      → k < max_missiles
      → (q : Requested g (k ∷ free) [] (request_atk_launch g)) → Represents q.out free (k ∷ [])
      → Restored g (k ∷ free) [] (request_launch_return g)
  then_return g k free lt q lists =
      let b = launch_return-Restored q.out k free [] lists lt in
      record {
        out = b.out;
        returns = ap (λ z. z >>= launch_return) q.returns ∙ b.returns;
        lists = b.lists;
        waiting = ground (arith, b.waiting, q.waiting);
      }

  -- With no index requested, a free one and a launcher that waits, an index that is requested, launched
  -- and given back leaves the free list as it was, in its order, and no index requested.
  pub request_launch_return-Restored :
      (g : FifoQueueGestor S) (k : ℕ) (free : List ℕ)
      → Represents g (k ∷ free) []
      → 0 < g.read_sem.blk
      → Restored g (k ∷ free) [] (request_launch_return g)
  request_launch_return-Restored g k free r waits =
      let q = request_atk_launch-Requested g (k ∷ free) [] r in
      then_return g k free r.free_chain.1 q
        (by_waiting q.out (k ∷ free) [] {a = suc (g.read_sem.blk - 1)} (omega arith) q.lists)
