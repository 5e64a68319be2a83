-- ===== src/Fifo/Invariant/Defs.antt =====
-- What the threads, the counters and the two lists of a queue say of each other.
use patriots_rtes.Prelude.{
  ℕ, suc, ◌+◌, ◌≤◌, ◌<◌, ◌≡◌, refl, ◌==◌, Bool, true, false, count, List, [], ◌∷◌, ℤ, pos, negsuc,
  arith,
}
use patriots_rtes.Prelude.Tally.{tally, tally-zero}
use patriots_rtes.Config.{max_missiles}
use patriots_rtes.Platform.{Semaphore}
use patriots_rtes.World.{FifoQueueGestor}
use patriots_rtes.Fifo.{init_queue}
use patriots_rtes.Fifo.Refinement.{Represents, init_queue-Represents}
use patriots_rtes.Fifo.Protocol.{
  Pc, idle, launching, requesting, getting, splicing, write_blocked, write_woken, read_blocked,
  read_woken, owning,
}

-- Past a semaphore that hands out the right to change the queue.
abbrev pub has_mutex : Pc → Bool
has_mutex launching = true
has_mutex requesting = true
has_mutex getting = true
has_mutex (splicing _) = true
has_mutex write_woken = true
has_mutex read_woken = true
has_mutex _ = false

abbrev pub is_write_blocked : Pc → Bool
is_write_blocked write_blocked = true
is_write_blocked _ = false

abbrev pub is_write_woken : Pc → Bool
is_write_woken write_woken = true
is_write_woken _ = false

abbrev pub is_read_blocked : Pc → Bool
is_read_blocked read_blocked = true
is_read_blocked _ = false

abbrev pub is_read_woken : Pc → Bool
is_read_woken read_woken = true
is_read_woken _ = false

abbrev pub is_index : ℕ → ℤ → Bool
is_index k (pos i) = k == i
is_index k (negsuc i) = false

-- The index is the thread's own, until `splice_index` has given it back.
abbrev pub owns : ℕ → Pc → Bool
owns k (owning index) = is_index k index
owns k (splicing index) = is_index k index
owns k _ = false

-- What a thread owns is an index in range.
abbrev pub IsLegal : Pc → Type 0
IsLegal (owning index) = (k : ℕ) × (index ≡ pos k) × (k < max_missiles)
IsLegal (splicing index) = (k : ℕ) × (index ≡ pos k) × (k < max_missiles)
IsLegal _ = Unit {0}

abbrev pub length : List ℕ → ℕ
length [] = 0
length (x ∷ xs) = suc (length xs)

module _ {S : Type 0} ⦃s : Semaphore S⦄ where
  open s use {value, value-init}

  -- Hand-overs to a caller of `request_def_index`, and to one of `get_next_index`.
  abbrev pub to_writer : ℕ → FifoQueueGestor S → (ℕ → Pc) → ℕ
  to_writer n g pc = value g.write_sem.sem + tally is_write_woken n pc

  abbrev pub to_reader : ℕ → FifoQueueGestor S → (ℕ → Pc) → ℕ
  to_reader n g pc = value g.read_sem.sem + tally is_read_woken n pc

  pub record Inv (n : ℕ) (g : FifoQueueGestor S) (pc : ℕ → Pc) (free used : List ℕ) : Type 0 where
    pub legal : (i : ℕ) → IsLegal (pc i)
    pub lists : Represents g free used
    pub partition :
        (k : ℕ) → k < max_missiles → count k free + count k used + tally (owns k) n pc ≡ 1
    pub one_mutex :
        value g.mutex + value g.write_sem.sem + value g.read_sem.sem + tally has_mutex n pc ≡ 1
    pub write_blk : g.write_sem.blk ≡ tally is_write_blocked n pc + tally is_write_woken n pc
    pub read_blk : g.read_sem.blk ≡ tally is_read_blocked n pc + tally is_read_woken n pc
    pub write_taken : value g.write_sem.sem ≤ tally is_write_blocked n pc
    pub read_taken : value g.read_sem.sem ≤ tally is_read_blocked n pc
    pub one_for_writer : 1 ≤ g.write_sem.blk → length free ≡ to_writer n g pc
    pub one_for_reader : length used ≡ to_reader n g pc

  pub Inv-init :
      (n : ℕ) (memory : ℕ → ℤ) → Inv n (init_queue memory) (λ _. idle) (0 ∷ 1 ∷ 2 ∷ 3 ∷ []) []
  unfolding init_queue
  Inv-init n memory = record {
    legal = λ i. tt;
    lists = init_queue-Represents memory;
    partition = λ k lt. ground (arith, tally-zero (owns k) n (λ _. idle) (λ i. refl));
    one_mutex =
        omega (arith, value-init 0, value-init 1, tally-zero has_mutex n (λ _. idle) (λ i. refl));
    write_blk = omega (
      arith,
      tally-zero is_write_blocked n (λ _. idle) (λ i. refl),
      tally-zero is_write_woken n (λ _. idle) (λ i. refl),
    );
    read_blk = omega (
      arith,
      tally-zero is_read_blocked n (λ _. idle) (λ i. refl),
      tally-zero is_read_woken n (λ _. idle) (λ i. refl),
    );
    write_taken = omega (arith, value-init 0);
    read_taken = omega (arith, value-init 0);
    one_for_writer = λ h. absurd (omega arith);
    one_for_reader =
        omega (arith, value-init 0, tally-zero is_read_woken n (λ _. idle) (λ i. refl));
  }
