-- ===== src/Fifo/Invariant/Waits.antt =====
-- What the operations leave, and that the invariant holds of it.
use patriots_rtes.Prelude.{ℕ, ◌+◌, ◌≤◌, ◌≡◌, refl, update, some, arith, List, [], inl, inr, ◌⊎◌}
use patriots_rtes.Platform.{Semaphore}
use patriots_rtes.World.{FifoQueueGestor}
use patriots_rtes.Fifo.{post_mutex, set_write_blk, set_read_blk}
use patriots_rtes.Fifo.Protocol.{
  Pc, idle, launching, requesting, getting, write_blocked, write_woken, read_blocked, read_woken,
}
use patriots_rtes.Fifo.Invariant.Defs.{Inv}
use patriots_rtes.Fifo.Invariant.Change.{Change, IsLegal-update, no_hand_over}

module _ {S : Type 0} ⦃s : Semaphore S⦄ {n : ℕ} {g : FifoQueueGestor S} {pc : ℕ → Pc}
    {free used : List ℕ} (inv : Inv n g pc free used) (i : ℕ) where
  open s use {value, value-post, value-wait, sem_wait}

  pub wake_writer-Inv :
      {t : S}
      → sem_wait g.write_sem.sem ≡ some t
      → Change n pc i write_blocked write_woken
      → Inv n
          (record g { write_sem = record (g.write_sem) { sem = t } })
          (update pc i write_woken)
          free
          used
  wake_writer-Inv {t} w c = record {
    legal = IsLegal-update pc i write_woken inv.legal tt;
    lists = ground (arith, inv.lists);
    partition = λ k lt. omega (arith, inv.partition k lt, c.owners k);
    one_mutex = omega (arith, inv.one_mutex, c.mutexes, value-wait g.write_sem.sem t w);
    write_blk = omega (arith, inv.write_blk, c.wblocked, c.wwoken);
    read_blk = omega (arith, inv.read_blk, c.rblocked, c.rwoken);
    write_taken = omega (arith, inv.write_taken, c.wblocked, value-wait g.write_sem.sem t w);
    read_taken = omega (arith, inv.read_taken, c.rblocked);
    one_for_writer =
        λ h. omega (arith, inv.one_for_writer h, c.wwoken, value-wait g.write_sem.sem t w);
    one_for_reader = omega (arith, inv.one_for_reader, c.rwoken);
  }

  pub wake_reader-Inv :
      {t : S}
      → sem_wait g.read_sem.sem ≡ some t
      → Change n pc i read_blocked read_woken
      → Inv n
          (record g { read_sem = record (g.read_sem) { sem = t } })
          (update pc i read_woken)
          free
          used
  wake_reader-Inv {t} w c = record {
    legal = IsLegal-update pc i read_woken inv.legal tt;
    lists = ground (arith, inv.lists);
    partition = λ k lt. omega (arith, inv.partition k lt, c.owners k);
    one_mutex = omega (arith, inv.one_mutex, c.mutexes, value-wait g.read_sem.sem t w);
    write_blk = omega (arith, inv.write_blk, c.wblocked, c.wwoken);
    read_blk = omega (arith, inv.read_blk, c.rblocked, c.rwoken);
    write_taken = omega (arith, inv.write_taken, c.wblocked);
    read_taken = omega (arith, inv.read_taken, c.rblocked, value-wait g.read_sem.sem t w);
    one_for_writer = λ h. omega (arith, inv.one_for_writer h, c.wwoken);
    one_for_reader = omega (arith, inv.one_for_reader, c.rwoken, value-wait g.read_sem.sem t w);
  }

  -- A caller of `request_def_index` goes to wait: there is no free index then.
  pub wait_free-Inv :
      free ≡ [] ⊎ (1 ≤ g.write_sem.blk)
      → Change n pc i requesting write_blocked
      → Inv n
          (post_mutex (set_write_blk g (g.write_sem.blk + 1)))
          (update pc i write_blocked)
          free
          used
  wait_free-Inv nothing c = record {
    legal = IsLegal-update pc i write_blocked inv.legal tt;
    lists = ground (arith, inv.lists);
    partition = λ k lt. omega (arith, inv.partition k lt, c.owners k);
    one_mutex = omega (arith, inv.one_mutex, c.mutexes, value-post g.mutex);
    write_blk = omega (arith, inv.write_blk, c.wblocked, c.wwoken);
    read_blk = omega (arith, inv.read_blk, c.rblocked, c.rwoken);
    write_taken = omega (arith, inv.write_taken, c.wblocked);
    read_taken = omega (arith, inv.read_taken, c.rblocked);
    one_for_writer = λ h. elim nothing [
      | inl e ↦ rw e (omega (arith, (no_hand_over inv i c.within (rw c.here refl)).0, c.wwoken))
      | inr b ↦ omega (arith, inv.one_for_writer b, c.wwoken)
    ];
    one_for_reader = omega (arith, inv.one_for_reader, c.rwoken);
  }

  pub wait_head-Inv :
      Change n pc i getting read_blocked
      → Inv n
          (post_mutex (set_read_blk g (g.read_sem.blk + 1)))
          (update pc i read_blocked)
          free
          used
  wait_head-Inv c = record {
    legal = IsLegal-update pc i read_blocked inv.legal tt;
    lists = ground (arith, inv.lists);
    partition = λ k lt. omega (arith, inv.partition k lt, c.owners k);
    one_mutex = omega (arith, inv.one_mutex, c.mutexes, value-post g.mutex);
    write_blk = omega (arith, inv.write_blk, c.wblocked, c.wwoken);
    read_blk = omega (arith, inv.read_blk, c.rblocked, c.rwoken);
    write_taken = omega (arith, inv.write_taken, c.wblocked);
    read_taken = omega (arith, inv.read_taken, c.rblocked);
    one_for_writer = λ h. omega (arith, inv.one_for_writer h, c.wwoken);
    one_for_reader = omega (arith, inv.one_for_reader, c.rwoken);
  }

  -- `request_atk_launch` with nothing to do.
  pub skip_launch-Inv :
      Change n pc i launching idle → Inv n (post_mutex g) (update pc i idle) free used
  skip_launch-Inv c = record {
    legal = IsLegal-update pc i idle inv.legal tt;
    lists = ground (arith, inv.lists);
    partition = λ k lt. omega (arith, inv.partition k lt, c.owners k);
    one_mutex = omega (arith, inv.one_mutex, c.mutexes, value-post g.mutex);
    write_blk = omega (arith, inv.write_blk, c.wblocked, c.wwoken);
    read_blk = omega (arith, inv.read_blk, c.rblocked, c.rwoken);
    write_taken = omega (arith, inv.write_taken, c.wblocked);
    read_taken = omega (arith, inv.read_taken, c.rblocked);
    one_for_writer = λ h. omega (arith, inv.one_for_writer h, c.wwoken);
    one_for_reader = omega (arith, inv.one_for_reader, c.rwoken);
  }
