-- ===== src/Fifo.antt =====
-- The queue of free and of requested indices in src/launchers.c (`fifo_queue_gestor_t`): both are
-- linked lists in the array `next`. What an operation does between two semaphore calls is one function.
pub mod Chain
pub mod Refinement
pub mod Requests
pub mod Taking
pub mod Given
pub mod Protocol
pub mod Invariant
pub mod Safety
mod Tests
use patriots_rtes.Prelude.{
  ℕ, zero, suc, ◌+◌, ◌-◌, ◌==◌, if◌then◌else◌, ltb, update, in_range, Bool, true, false, not, ◌&&◌,
  ◌||◌, Option, none, some, ℤ, pos, leb_ℤ, ◌==ℤ◌, Result, ok, err, ◌>>=◌, ◌>>◌, check, or_fault,
}
use patriots_rtes.Config.{max_missiles, none_index}
use patriots_rtes.Platform.{Semaphore}
use patriots_rtes.World.{PrivateSem, FifoQueueGestor}

-- The array that the loop `for (i = 0; i < N - 1; i++)` of `init_queue` fills, and its last element.
pub init_next : ℕ → (ℕ → ℤ) → ℕ → ℤ
init_next zero next = update next (max_missiles - 1) none_index
init_next (suc rounds) next =
    let i = max_missiles - 1 - suc rounds in init_next rounds (update next i (pos (i + 1)))

-- A caller of `request_def_index` or of `get_next_index` gets an index, or goes on to wait.
pub data Answer : Type 0 where
  granted : ℤ → Answer
  must_wait : Answer

module _ {S : Type 0} ⦃s : Semaphore S⦄ where
  open s use {sem_init, sem_post}

  unfoldable pub init_private_sem : PrivateSem S
  init_private_sem = record { sem = sem_init 0; count = 0; blk = 0 }

  -- `init_queue` on an array with any contents.
  unfoldable pub init_queue : (ℕ → ℤ) → FifoQueueGestor S
  unfolding init_next init_private_sem
  init_queue memory = record {
    free_index = pos 0;
    head_index = none_index;
    tail_index = none_index;
    next = init_next (max_missiles - 1) memory;
    mutex = sem_init 1;
    write_sem = init_private_sem;
    read_sem = init_private_sem;
  }

  -- `gestor->next[i]`
  abbrev pub read_next : FifoQueueGestor S → ℤ → Result ℤ
  read_next g i = or_fault (in_range max_missiles i) >>= λ k. ok (g.next k)

  abbrev pub write_next : FifoQueueGestor S → ℤ → ℤ → Result (FifoQueueGestor S)
  write_next g i v =
      or_fault (in_range max_missiles i) >>= λ k. ok (record g { next = update g.next k v })

  abbrev pub post_mutex : FifoQueueGestor S → FifoQueueGestor S
  post_mutex g = record g { mutex = sem_post g.mutex }

  abbrev pub post_read : FifoQueueGestor S → FifoQueueGestor S
  post_read g = record g { read_sem = record (g.read_sem) { sem = sem_post g.read_sem.sem } }

  abbrev pub post_write : FifoQueueGestor S → FifoQueueGestor S
  post_write g = record g { write_sem = record (g.write_sem) { sem = sem_post g.write_sem.sem } }

  pub update_queue_head : FifoQueueGestor S → ℤ → Result (FifoQueueGestor S)
  update_queue_head gestor index = do
    check (leb_ℤ (pos 0) index && ltb 0 gestor.read_sem.blk)
    ended ← write_next gestor index none_index
    linked ←
        (if ended.head_index ==ℤ none_index
          then ok (record ended { head_index = index })
          else write_next ended ended.tail_index index)
    ok (record linked { tail_index = index })

  -- `request_atk_launch` after its `sem_wait`.
  pub request_atk_launch : FifoQueueGestor S → Result (FifoQueueGestor S)
  unfolding update_queue_head
  request_atk_launch gestor =
      if gestor.free_index ==ℤ none_index || gestor.read_sem.blk == 0
      then ok (post_mutex gestor)
      else (do
        let index = gestor.free_index
        following ← read_next gestor index
        queued ← update_queue_head (record gestor { free_index = following }) index
        ok (post_read queued))

  -- The end of `request_def_index`, from its `assert` on.
  unfoldable pub take_free : FifoQueueGestor S → Result (FifoQueueGestor S × ℤ)
  take_free gestor = do
    check (leb_ℤ (pos 0) gestor.free_index)
    following ← read_next gestor gestor.free_index
    ok (post_mutex (record gestor { free_index = following }), gestor.free_index)

  abbrev pub with_answer : Result (FifoQueueGestor S × ℤ) → Result (FifoQueueGestor S × Answer)
  with_answer r = r >>= λ p. ok (p.0, granted p.1)

  abbrev pub set_write_blk : FifoQueueGestor S → ℕ → FifoQueueGestor S
  set_write_blk g k = record g { write_sem = record (g.write_sem) { blk = k } }

  abbrev pub set_read_blk : FifoQueueGestor S → ℕ → FifoQueueGestor S
  set_read_blk g k = record g { read_sem = record (g.read_sem) { blk = k } }

  -- `request_def_index` from its `sem_wait` on the mutex to its end or to its other `sem_wait`.
  unfoldable pub request_def_index : FifoQueueGestor S → Result (FifoQueueGestor S × Answer)
  unfolding take_free
  request_def_index gestor =
      if gestor.free_index ==ℤ none_index || not (gestor.write_sem.blk == 0)
      then ok (post_mutex (set_write_blk gestor (gestor.write_sem.blk + 1)), must_wait)
      else with_answer (take_free gestor)

  -- `request_def_index` after the `sem_wait` on `write_sem`.
  pub request_def_index_woken : FifoQueueGestor S → Result (FifoQueueGestor S × ℤ)
  unfolding take_free
  request_def_index_woken gestor = take_free (set_write_blk gestor (gestor.write_sem.blk - 1))

  -- The end of `get_next_index`, from its `assert` on.
  unfoldable pub take_head : FifoQueueGestor S → Result (FifoQueueGestor S × ℤ)
  take_head gestor = do
    check (leb_ℤ (pos 0) gestor.head_index)
    following ← read_next gestor gestor.head_index
    ok (post_mutex (record gestor { head_index = following }), gestor.head_index)

  -- `get_next_index` from its `sem_wait` on the mutex to its end or to its other `sem_wait`.
  unfoldable pub get_next_index : FifoQueueGestor S → Result (FifoQueueGestor S × Answer)
  unfolding take_head
  get_next_index gestor =
      if gestor.head_index ==ℤ none_index
      then ok (post_mutex (set_read_blk gestor (gestor.read_sem.blk + 1)), must_wait)
      else with_answer (take_head gestor)

  -- `get_next_index` after the `sem_wait` on `read_sem`.
  unfoldable pub get_next_index_woken : FifoQueueGestor S → Result (FifoQueueGestor S × ℤ)
  unfolding take_head
  get_next_index_woken gestor = take_head (set_read_blk gestor (gestor.read_sem.blk - 1))

  pub splice_index : FifoQueueGestor S → ℤ → Result (FifoQueueGestor S)
  splice_index gestor index = do
    check (leb_ℤ (pos 0) index)
    linked ← write_next gestor index gestor.free_index
    let freed = record linked { free_index = index }
    ok (if not (freed.write_sem.blk == 0) then post_write freed else post_mutex freed)
