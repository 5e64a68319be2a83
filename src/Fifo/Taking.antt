-- ===== src/Fifo/Taking.antt =====
-- The calls that take an index, seen on the two lists.
use patriots_rtes.Prelude.{ℕ, ◌+◌, ◌-◌, ◌≡◌, refl, List, ◌∷◌, pos, Result, ok, arith, sym, ap}
use patriots_rtes.Config.{none_index}
use patriots_rtes.Platform.{Semaphore}
use patriots_rtes.World.{FifoQueueGestor}
use patriots_rtes.Fifo.{
  granted, must_wait, get_next_index, get_next_index_woken, request_def_index,
  request_def_index_woken, post_mutex, set_read_blk, set_write_blk,
}
use patriots_rtes.Fifo.Refinement.{Represents, take_head-Represents, take_free-Represents}
use patriots_rtes.Fifo.Requests.{same_lists}

module _ {S : Type 0} ⦃s : Semaphore S⦄ where
  -- An index is given, and what is left are the lists given.
  pub record Took (free used : List ℕ) (k : ℕ) {A : Type 0} (answer : A)
      (r : Result (FifoQueueGestor S × A)) : Type 0 where
    pub out : FifoQueueGestor S
    pub returns : r ≡ ok (out, answer)
    pub lists : Represents out free used

  -- With no index requested, a launcher counts as blocked and frees the mutex.
  pub get_next_index-empty :
      (g : FifoQueueGestor S)
      → g.head_index ≡ none_index
      → get_next_index g ≡ ok (post_mutex (set_read_blk g (g.read_sem.blk + 1)), must_wait)
  unfolding get_next_index
  get_next_index-empty g e = ground (arith, e)

  -- A launcher that wakes takes the index that was requested first.
  pub get_next_index_woken-Took :
      (g : FifoQueueGestor S) (free used : List ℕ) (k : ℕ)
      → Represents g free (k ∷ used)
      → Took free used k (pos k) (get_next_index_woken g)
  unfolding get_next_index_woken
  get_next_index_woken-Took g free used k r =
      let h = set_read_blk g (g.read_sem.blk - 1) in
      let (taken, popped) =
        take_head-Represents h free used k (same_lists g h free (k ∷ used) refl refl refl refl r) in
      record {
        out = post_mutex (record h { head_index = h.next k });
        returns = taken;
        lists =
            same_lists (record h { head_index = h.next k })
              (post_mutex (record h { head_index = h.next k })) free used refl refl refl refl
              popped;
      }

  -- A request for a defender's index takes the first free one, if nobody waits for one.
  pub request_def_index-Took :
      (g : FifoQueueGestor S) (free used : List ℕ) (k : ℕ)
      → Represents g (k ∷ free) used
      → g.write_sem.blk ≡ 0
      → Took free used k (granted (pos k)) (request_def_index g)
  unfolding request_def_index
  request_def_index-Took g free used k r none_wait =
      let (taken, popped) = take_free-Represents g free used k r in
      record {
        out = post_mutex (record g { free_index = g.next k });
        returns = ground (arith, r.free_chain, taken);
        lists =
            same_lists (record g { free_index = g.next k })
              (post_mutex (record g { free_index = g.next k })) free used refl refl refl refl
              popped;
      }

  -- A caller that must wait counts as blocked, and has freed the mutex: the lists stay.
  pub get_next_index-must_wait :
      (g q : FifoQueueGestor S) (free used : List ℕ)
      → get_next_index g ≡ ok (q, must_wait)
      → Represents g free used
      → Represents q free used
  unfolding get_next_index
  get_next_index-must_wait g q free used h r =
      let e : post_mutex (set_read_blk g (g.read_sem.blk + 1)) ≡ q = ground (arith, h) in
      same_lists g q free used (ap (λ (z : FifoQueueGestor S). z.next) (sym e))
        (ap (λ (z : FifoQueueGestor S). z.free_index) (sym e))
        (ap (λ (z : FifoQueueGestor S). z.head_index) (sym e))
        (ap (λ (z : FifoQueueGestor S). z.tail_index) (sym e)) r

  pub request_def_index-must_wait :
      (g q : FifoQueueGestor S) (free used : List ℕ)
      → request_def_index g ≡ ok (q, must_wait)
      → Represents g free used
      → Represents q free used
  unfolding request_def_index
  request_def_index-must_wait g q free used h r =
      let e : post_mutex (set_write_blk g (g.write_sem.blk + 1)) ≡ q = ground (arith, h) in
      same_lists g q free used (ap (λ (z : FifoQueueGestor S). z.next) (sym e))
        (ap (λ (z : FifoQueueGestor S). z.free_index) (sym e))
        (ap (λ (z : FifoQueueGestor S). z.head_index) (sym e))
        (ap (λ (z : FifoQueueGestor S). z.tail_index) (sym e)) r

  -- A caller that wakes takes the first free index.
  pub request_def_index_woken-Took :
      (g : FifoQueueGestor S) (free used : List ℕ) (k : ℕ)
      → Represents g (k ∷ free) used
      → Took free used k (pos k) (request_def_index_woken g)
  unfolding request_def_index_woken
  request_def_index_woken-Took g free used k r =
      let h = set_write_blk g (g.write_sem.blk - 1) in
      let (taken, popped) =
        take_free-Represents h free used k (same_lists g h (k ∷ free) used refl refl refl refl r) in
      record {
        out = post_mutex (record h { free_index = h.next k });
        returns = taken;
        lists =
            same_lists (record h { free_index = h.next k })
              (post_mutex (record h { free_index = h.next k })) free used refl refl refl refl
              popped;
      }
