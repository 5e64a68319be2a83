-- ===== src/Fifo/Protocol.antt =====
-- Threads that call the operations of one queue, interleaved at the semaphore calls. An index belongs
-- to the thread that it was granted to, which may pass it on (a launcher to the task of the missile),
-- until `clear_missile` gives it back.
use patriots_rtes.Prelude.{ℕ, ◌<◌, ◌≡◌, update, some, ℤ, ok}
use patriots_rtes.Platform.{Semaphore}
use patriots_rtes.World.{FifoQueueGestor}
use patriots_rtes.Fifo.{
  Answer, granted, must_wait, init_queue, request_atk_launch, request_def_index,
  request_def_index_woken, get_next_index, get_next_index_woken, splice_index,
}

-- Where a thread stands. The first four have passed the `sem_wait` on the mutex.
pub data Pc : Type 0 where
  idle : Pc
  launching : Pc  -- in `request_atk_launch`
  requesting : Pc  -- in `request_def_index`
  getting : Pc  -- in `get_next_index`
  splicing : ℤ → Pc  -- in `clear_missile`, with the missile's index
  write_blocked : Pc  -- at the `sem_wait` on `write_sem`
  write_woken : Pc
  read_blocked : Pc  -- at the `sem_wait` on `read_sem`
  read_woken : Pc
  owning : ℤ → Pc

abbrev pub after_request : Answer → Pc
after_request (granted index) = owning index
after_request must_wait = write_blocked

abbrev pub after_get : Answer → Pc
after_get (granted index) = owning index
after_get must_wait = read_blocked

module _ {S : Type 0} ⦃s : Semaphore S⦄ where
  open s use {sem_wait}

  abbrev pub set_mutex : FifoQueueGestor S → S → FifoQueueGestor S
  set_mutex g m = record g { mutex = m }

  -- One step of one thread.
  pub data Move (g : FifoQueueGestor S) : Pc → FifoQueueGestor S → Pc → Type 0 where
    lock_launch : {m : S} → sem_wait g.mutex ≡ some m → Move g idle (set_mutex g m) launching
    lock_request : {m : S} → sem_wait g.mutex ≡ some m → Move g idle (set_mutex g m) requesting
    lock_get : {m : S} → sem_wait g.mutex ≡ some m → Move g idle (set_mutex g m) getting
    lock_splice :
        {m : S} {index : ℤ}
        → sem_wait g.mutex ≡ some m
        → Move g (owning index) (set_mutex g m) (splicing index)
    launch : {h : FifoQueueGestor S} → request_atk_launch g ≡ ok h → Move g launching h idle
    request :
        {h : FifoQueueGestor S} {a : Answer}
        → request_def_index g ≡ ok (h, a)
        → Move g requesting h (after_request a)
    get :
        {h : FifoQueueGestor S} {a : Answer}
        → get_next_index g ≡ ok (h, a)
        → Move g getting h (after_get a)
    splice :
        {h : FifoQueueGestor S} {index : ℤ}
        → splice_index g index ≡ ok h
        → Move g (splicing index) h idle
    wake_writer :
        {t : S}
        → sem_wait g.write_sem.sem ≡ some t
        → Move g write_blocked
            (record g { write_sem = record (g.write_sem) { sem = t } })
            write_woken
    wake_reader :
        {t : S}
        → sem_wait g.read_sem.sem ≡ some t
        → Move g read_blocked (record g { read_sem = record (g.read_sem) { sem = t } }) read_woken
    resume_request :
        {h : FifoQueueGestor S} {index : ℤ}
        → request_def_index_woken g ≡ ok (h, index)
        → Move g write_woken h (owning index)
    resume_get :
        {h : FifoQueueGestor S} {index : ℤ}
        → get_next_index_woken g ≡ ok (h, index)
        → Move g read_woken h (owning index)

pub record System (S : Type 0) : Type 0 where
  pub gestor : FifoQueueGestor S
  pub pc : ℕ → Pc

module _ {S : Type 0} ⦃s : Semaphore S⦄ where
  -- One of the first `n` threads makes a step, or passes its index to an idle one.
  pub data Step (n : ℕ) (t : System S) : System S → Type 0 where
    pick :
        (i : ℕ) {g : FifoQueueGestor S} {p : Pc}
        → i < n
        → Move t.gestor (t.pc i) g p
        → Step n t (record { gestor = g; pc = update t.pc i p })
    pass :
        (i j : ℕ) {index : ℤ}
        → i < n
        → j < n
        → t.pc i ≡ owning index
        → t.pc j ≡ idle
        → Step n t (record t { pc = update (update t.pc i idle) j (owning index) })

  pub data Reach (n : ℕ) : System S → Type 0 where
    start : (memory : ℕ → ℤ) → Reach n (record { gestor = init_queue memory; pc = λ _. idle })
    later : {t u : System S} → Reach n t → Step n t u → Reach n u
