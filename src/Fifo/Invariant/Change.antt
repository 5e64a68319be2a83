-- ===== src/Fifo/Invariant/Change.antt =====
-- A step of thread `i` that takes a semaphore or an index keeps the invariant.
use patriots_rtes.Prelude.{
  ℕ, zero, suc, ◌+◌, ◌<◌, ◌≡◌, refl, ◌==◌, update, Bool, true, false, some, arith, List, subst,
  Bool-cases, inl, inr,
}
use patriots_rtes.Prelude.Tally.{tally, tally-update, tally-pos, bit}
use patriots_rtes.Platform.{Semaphore}
use patriots_rtes.World.{FifoQueueGestor}
use patriots_rtes.Fifo.Protocol.{
  Pc, idle, launching, requesting, getting, splicing, write_blocked, read_blocked, set_mutex,
}
use patriots_rtes.Fifo.Invariant.Defs.{
  Inv, has_mutex, is_write_blocked, is_write_woken, is_read_blocked, is_read_woken, owns, IsLegal,
  to_writer, to_reader,
}

-- In an operation, and not by a hand-over.
abbrev pub is_first : Pc → Bool
is_first launching = true
is_first requesting = true
is_first getting = true
is_first (splicing _) = true
is_first _ = false

mutex_bit :
    (p : Pc) → bit (is_write_woken p) + bit (is_read_woken p) + bit (is_first p) ≡ bit (has_mutex p)
mutex_bit idle = refl
mutex_bit _ = refl

-- Who has the mutex was handed it or has waited for it.
pub has_mutex-split :
    (n : ℕ) (pc : ℕ → Pc)
    → tally is_write_woken n pc + tally is_read_woken n pc + tally is_first n pc
      ≡ tally has_mutex n pc
unfolding tally
has_mutex-split zero pc = refl
has_mutex-split (suc n) pc = omega (arith, mutex_bit (pc n), has_mutex-split n pc)

first-wblocked : (p : Pc) → is_first p ≡ true → is_write_blocked p ≡ false
first-wblocked write_blocked h = cc
first-wblocked _ h = refl

first-rblocked : (p : Pc) → is_first p ≡ true → is_read_blocked p ≡ false
first-rblocked read_blocked h = cc
first-rblocked _ h = refl

pub IsLegal-update :
    (pc : ℕ → Pc) (i : ℕ) (p : Pc)
    → ((j : ℕ) → IsLegal (pc j))
    → IsLegal p
    → (j : ℕ) → IsLegal (update pc i p j)
IsLegal-update pc i p all one j = elim (Bool-cases (i == j)) [
  | inl e ↦ rw e one
  | inr e ↦ rw e (all j)
]

-- Thread `i` goes from `p` to `p'`: how each tally changes.
pub record Change (n : ℕ) (pc : ℕ → Pc) (i : ℕ) (p p' : Pc) : Type 0 where
  pub here : pc i ≡ p
  pub within : i < n
  pub mutexes :
      tally has_mutex n (update pc i p') + bit (has_mutex p)
      ≡ tally has_mutex n pc + bit (has_mutex p')
  pub wblocked :
      tally is_write_blocked n (update pc i p') + bit (is_write_blocked p)
      ≡ tally is_write_blocked n pc + bit (is_write_blocked p')
  pub wwoken :
      tally is_write_woken n (update pc i p') + bit (is_write_woken p)
      ≡ tally is_write_woken n pc + bit (is_write_woken p')
  pub rblocked :
      tally is_read_blocked n (update pc i p') + bit (is_read_blocked p)
      ≡ tally is_read_blocked n pc + bit (is_read_blocked p')
  pub rwoken :
      tally is_read_woken n (update pc i p') + bit (is_read_woken p)
      ≡ tally is_read_woken n pc + bit (is_read_woken p')
  pub owners :
      (k : ℕ)
      → tally (owns k) n (update pc i p') + bit (owns k p) ≡ tally (owns k) n pc + bit (owns k p')

pub change :
    (n : ℕ) (pc : ℕ → Pc) (i : ℕ) {p : Pc} → i < n → pc i ≡ p → (p' : Pc) → Change n pc i p p'
change n pc i lt h p' =
    subst (λ q. Change n pc i q p') h
      (record {
        here = refl;
        within = lt;
        mutexes = tally-update has_mutex n pc i p' lt;
        wblocked = tally-update is_write_blocked n pc i p' lt;
        wwoken = tally-update is_write_woken n pc i p' lt;
        rblocked = tally-update is_read_blocked n pc i p' lt;
        rwoken = tally-update is_read_woken n pc i p' lt;
        owners = λ k. tally-update (owns k) n pc i p' lt;
      })

module _ {S : Type 0} ⦃s : Semaphore S⦄ {n : ℕ} {g : FifoQueueGestor S} {pc : ℕ → Pc}
    {free used : List ℕ} (inv : Inv n g pc free used) (i : ℕ) where
  open s use {value, value-post, value-wait, sem_wait}

  -- A thread that has waited for the mutex finds no hand-over under way.
  pub no_hand_over :
      i < n
      → is_first (pc i) ≡ true
      → (to_writer n g pc ≡ 0) × (to_reader n g pc ≡ 0) × (value g.mutex ≡ 0)
  no_hand_over lt h =
      omega (arith, inv.one_mutex, has_mutex-split n pc, tally-pos is_first n pc i lt h)

  -- The mutex is taken at the start of an operation.
  pub lock-Inv :
      {m : S} {p p' : Pc}
      → sem_wait g.mutex ≡ some m
      → Change n pc i p p'
      → IsLegal p'
      → (has_mutex p ≡ false) × (is_first p' ≡ true)
      → (is_write_blocked p ≡ false) × (is_read_blocked p ≡ false)
      → ((k : ℕ) → owns k p ≡ owns k p')
      → Inv n (set_mutex g m) (update pc i p') free used
  lock-Inv {m} {p} {p'} w c legal before blocked same = record {
    legal = IsLegal-update pc i p' inv.legal legal;
    lists = record {
      free_chain = inv.lists.free_chain;
      used_chain = inv.lists.used_chain;
      tail_last = inv.lists.tail_last;
      distinct = inv.lists.distinct;
    };
    partition = λ k lt. ground (arith, inv.partition k lt, c.owners k, same k);
    one_mutex = ground (arith, inv.one_mutex, c.mutexes, value-wait g.mutex m w, mutex_bit p');
    write_blk =
        ground (
          arith,
          inv.write_blk,
          c.wblocked,
          c.wwoken,
          mutex_bit p,
          mutex_bit p',
          first-wblocked p',
        );
    read_blk =
        ground
          (arith, inv.read_blk, c.rblocked, c.rwoken, mutex_bit p, mutex_bit p', first-rblocked p');
    write_taken = ground (arith, inv.write_taken, c.wblocked);
    read_taken = ground (arith, inv.read_taken, c.rblocked);
    one_for_writer = λ h. ground (arith, inv.one_for_writer h, c.wwoken, mutex_bit p, mutex_bit p');
    one_for_reader = ground (arith, inv.one_for_reader, c.rwoken, mutex_bit p, mutex_bit p');
  }
