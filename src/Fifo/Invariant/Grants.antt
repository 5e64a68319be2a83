-- ===== src/Fifo/Invariant/Grants.antt =====
-- An index changes hands: granted, requested, given back.
use patriots_rtes.Prelude.{ℕ, ◌-◌, ◌≤◌, ◌<◌, ◌≡◌, refl, update, arith, List, [], ◌∷◌, pos}
use patriots_rtes.Config.{max_missiles}
use patriots_rtes.Platform.{Semaphore}
use patriots_rtes.World.{FifoQueueGestor}
use patriots_rtes.Fifo.{post_mutex, post_read, post_write, set_write_blk, set_read_blk}
use patriots_rtes.Fifo.Refinement.{
  Represents, SameSems, take_free-Represents, take_head-Represents, spliced,
}
use patriots_rtes.Fifo.Protocol.{
  Pc, idle, launching, requesting, splicing, write_woken, read_woken, owning,
}
use patriots_rtes.Fifo.Invariant.Defs.{Inv, IsLegal}
use patriots_rtes.Fifo.Invariant.Change.{Change, has_mutex-split, IsLegal-update, no_hand_over}

owning-IsLegal : (k : ℕ) → k < max_missiles → IsLegal (owning (pos k))
owning-IsLegal k lt = (k, refl, lt)

module _ {S : Type 0} ⦃s : Semaphore S⦄ {n : ℕ} {g : FifoQueueGestor S} {pc : ℕ → Pc} (i : ℕ) where
  open s use {value, value-post, value-wait, sem_wait}

  -- `request_def_index` takes the first free index at once.
  pub grant_free-Inv :
      {k : ℕ} {free used : List ℕ}
      → Inv n g pc (k ∷ free) used
      → g.write_sem.blk ≡ 0
      → Change n pc i requesting (owning (pos k))
      → Inv n
          (post_mutex (record g { free_index = g.next k }))
          (update pc i (owning (pos k)))
          free
          used
  grant_free-Inv {k} {free} {used} inv quiet c =
      let taken = (take_free-Represents g free used k inv.lists).1 in
      record {
        legal =
            IsLegal-update pc i (owning (pos k)) inv.legal
              (owning-IsLegal k inv.lists.free_chain.1);
        lists = ground (arith, taken);
        partition = λ j lt. ground (arith, inv.partition j lt, c.owners j);
        one_mutex = omega (arith, inv.one_mutex, c.mutexes, value-post g.mutex);
        write_blk = omega (arith, inv.write_blk, c.wblocked, c.wwoken);
        read_blk = omega (arith, inv.read_blk, c.rblocked, c.rwoken);
        write_taken = omega (arith, inv.write_taken, c.wblocked);
        read_taken = omega (arith, inv.read_taken, c.rblocked);
        one_for_writer = λ h. absurd (omega arith);
        one_for_reader = omega (arith, inv.one_for_reader, c.rwoken);
      }

  -- A woken caller of `request_def_index` takes the index that was given back.
  pub resume_free-Inv :
      {k : ℕ} {free used : List ℕ}
      → Inv n g pc (k ∷ free) used
      → Change n pc i write_woken (owning (pos k))
      → Inv n
          (post_mutex (record (set_write_blk g (g.write_sem.blk - 1)) { free_index = g.next k }))
          (update pc i (owning (pos k)))
          free
          used
  resume_free-Inv {k} {free} {used} inv c =
      let taken = (take_free-Represents g free used k inv.lists).1 in
      record {
        legal =
            IsLegal-update pc i (owning (pos k)) inv.legal
              (owning-IsLegal k inv.lists.free_chain.1);
        lists = ground (arith, taken);
        partition = λ j lt. ground (arith, inv.partition j lt, c.owners j);
        one_mutex = omega (arith, inv.one_mutex, c.mutexes, value-post g.mutex);
        write_blk = omega (arith, inv.write_blk, c.wblocked, c.wwoken);
        read_blk = omega (arith, inv.read_blk, c.rblocked, c.rwoken);
        write_taken = omega (arith, inv.write_taken, c.wblocked);
        read_taken = omega (arith, inv.read_taken, c.rblocked);
        one_for_writer = λ h. ground (
          arith,
          inv.one_for_writer (omega arith),
          inv.one_mutex,
          has_mutex-split n pc,
          c.wwoken,
        );
        one_for_reader = omega (arith, inv.one_for_reader, c.rwoken);
      }

  -- A woken caller of `get_next_index` takes the requested index.
  pub resume_head-Inv :
      {k : ℕ} {free used : List ℕ}
      → Inv n g pc free (k ∷ used)
      → Change n pc i read_woken (owning (pos k))
      → Inv n
          (post_mutex (record (set_read_blk g (g.read_sem.blk - 1)) { head_index = g.next k }))
          (update pc i (owning (pos k)))
          free
          used
  resume_head-Inv {k} {free} {used} inv c =
      let taken = (take_head-Represents g free used k inv.lists).1 in
      record {
        legal =
            IsLegal-update pc i (owning (pos k)) inv.legal
              (owning-IsLegal k inv.lists.used_chain.1);
        lists = ground (arith, taken);
        partition = λ j lt. ground (arith, inv.partition j lt, c.owners j);
        one_mutex = omega (arith, inv.one_mutex, c.mutexes, value-post g.mutex);
        write_blk = omega (arith, inv.write_blk, c.wblocked, c.wwoken);
        read_blk = omega (arith, inv.read_blk, c.rblocked, c.rwoken);
        write_taken = omega (arith, inv.write_taken, c.wblocked);
        read_taken = omega (arith, inv.read_taken, c.rblocked);
        one_for_writer = λ h. omega (arith, inv.one_for_writer h, c.wwoken);
        one_for_reader = omega (arith, inv.one_for_reader, c.rwoken);
      }

  -- `request_atk_launch` moves the first free index to the requested ones and wakes a reader.
  pub launched-Inv :
      {k : ℕ} {free : List ℕ} {h : FifoQueueGestor S}
      → Inv n g pc (k ∷ free) []
      → 1 ≤ g.read_sem.blk
      → Represents h free (k ∷ [])
      → SameSems (record g { free_index = g.next k }) h
      → Change n pc i launching idle
      → Inv n (post_read h) (update pc i idle) free (k ∷ [])
  launched-Inv {k} {free} {h} inv reader lists same c =
      let quiet = no_hand_over inv i c.within (rw c.here refl) in
      record {
        legal = IsLegal-update pc i idle inv.legal tt;
        lists = ground (arith, lists);
        partition = λ j lt. ground (arith, inv.partition j lt, c.owners j);
        one_mutex =
            rw (same.mutex, same.write_sem, same.read_sem)
              (omega (arith, inv.one_mutex, c.mutexes, value-post g.read_sem.sem));
        write_blk = rw same.write_sem (omega (arith, inv.write_blk, c.wblocked, c.wwoken));
        read_blk = rw same.read_sem (omega (arith, inv.read_blk, c.rblocked, c.rwoken));
        write_taken = rw same.write_sem (omega (arith, inv.write_taken, c.wblocked));
        read_taken = rw same.read_sem (
            omega
              (arith, inv.read_taken, inv.read_blk, quiet, c.rblocked, value-post g.read_sem.sem));
        one_for_writer =
            λ b. absurd (omega (arith, inv.one_for_writer (rw same.write_sem at b), quiet));
        one_for_reader =
            rw same.read_sem (omega (arith, quiet, c.rwoken, value-post g.read_sem.sem));
      }

  -- `splice_index` with nobody blocked for a free index.
  pub spliced_free-Inv :
      {k : ℕ} {free used : List ℕ}
      → Inv n g pc free used
      → g.write_sem.blk ≡ 0
      → Represents (spliced g free used k) (k ∷ free) used
      → Change n pc i (splicing (pos k)) idle
      → Inv n (post_mutex (spliced g free used k)) (update pc i idle) (k ∷ free) used
  spliced_free-Inv {k} inv quiet lists c = record {
    legal = IsLegal-update pc i idle inv.legal tt;
    lists = ground (arith, lists);
    partition = λ j lt. ground (arith, inv.partition j lt, c.owners j);
    one_mutex = omega (arith, inv.one_mutex, c.mutexes, value-post g.mutex);
    write_blk = omega (arith, inv.write_blk, c.wblocked, c.wwoken);
    read_blk = omega (arith, inv.read_blk, c.rblocked, c.rwoken);
    write_taken = omega (arith, inv.write_taken, c.wblocked);
    read_taken = omega (arith, inv.read_taken, c.rblocked);
    one_for_writer = λ b. absurd (omega arith);
    one_for_reader = omega (arith, inv.one_for_reader, c.rwoken);
  }

  -- `splice_index` with a blocked caller of `request_def_index`, which gets the mutex.
  pub spliced_wanted-Inv :
      {k : ℕ} {free used : List ℕ}
      → Inv n g pc free used
      → 1 ≤ g.write_sem.blk
      → Represents (spliced g free used k) (k ∷ free) used
      → Change n pc i (splicing (pos k)) idle
      → Inv n (post_write (spliced g free used k)) (update pc i idle) (k ∷ free) used
  spliced_wanted-Inv {k} inv wanted lists c =
      let quiet = no_hand_over inv i c.within (rw c.here refl) in
      record {
        legal = IsLegal-update pc i idle inv.legal tt;
        lists = ground (arith, lists);
        partition = λ j lt. ground (arith, inv.partition j lt, c.owners j);
        one_mutex = omega (arith, inv.one_mutex, c.mutexes, value-post g.write_sem.sem);
        write_blk = omega (arith, inv.write_blk, c.wblocked, c.wwoken);
        read_blk = omega (arith, inv.read_blk, c.rblocked, c.rwoken);
        write_taken =
            omega (
              arith,
              inv.write_taken,
              inv.write_blk,
              quiet,
              c.wblocked,
              value-post g.write_sem.sem,
            );
        read_taken = omega (arith, inv.read_taken, c.rblocked);
        one_for_writer = λ b.
            omega (arith, inv.one_for_writer wanted, quiet, c.wwoken, value-post g.write_sem.sem);
        one_for_reader = omega (arith, inv.one_for_reader, c.rwoken);
      }
