-- ===== src/Launchers/Waits.antt =====
-- The calls in which a launcher waits for an index: they return, if an index is there when it wakes.
use patriots_rtes.Prelude.{
  ℕ, ◌+◌, ◌<◌, ◌≡◌, refl, ◌==◌, Bool-cases, inl, inr, ℤ, pos, List, [], ◌∷◌, Result, ok, arith, sym,
  subst,
}
use patriots_rtes.Config.{max_missiles}
use patriots_rtes.Platform.{Semaphore, Floating}
use patriots_rtes.World.{MissileType, attacker, defender, FifoQueueGestor, World, gestor_of}
use patriots_rtes.Fifo.{
  Answer, granted, must_wait, get_next_index, get_next_index_woken, request_def_index,
  request_def_index_woken, post_mutex, set_write_blk,
}
use patriots_rtes.Fifo.Refinement.{Represents}
use patriots_rtes.Fifo.Taking.{
  get_next_index-empty, get_next_index_woken-Took, request_def_index-Took,
  request_def_index_woken-Took, get_next_index-must_wait, request_def_index-must_wait,
}
use patriots_rtes.Fifo.Given.{get_next_index-Took}
use patriots_rtes.Collision.Valid.{HasValidCells}
use patriots_rtes.Launchers.{set_queue, wait_index, wait_next_index, wait_def_index}
use patriots_rtes.Launchers.Starts.{Queued}

module _ {F S : Type 0} where
  -- What a launcher relies on: valid cells and a well-formed queue.
  pub record Sound (kind : MissileType) (w : World F S) : Type 0 where
    pub cells : HasValidCells w
    pub queue : Queued kind w

  -- An index is there for a launcher that wakes: a requested one for attackers, a free one for
  -- defenders.
  abbrev pub HasIndex : MissileType → World F S → Type 0
  HasIndex attacker w =
      (free : List ℕ) × (k : ℕ) × (used : List ℕ) × Represents w.atk_gestor.gestor free (k ∷ used)
  HasIndex defender w =
      (free : List ℕ) × (k : ℕ) × (used : List ℕ) × Represents w.def_gestor.gestor (k ∷ free) used

  -- The call has returned an index of the queue.
  pub record TookIndex (kind : MissileType) (r : Result (World F S × ℤ)) : Type 0 where
    pub world : World F S
    pub k : ℕ
    pub returns : r ≡ ok (world, pos k)
    pub in_queue : k < max_missiles
    pub sound : Sound kind world

module _ {S : Type 0} where
  -- What the first part of a call answers.
  data Answered : Result (FifoQueueGestor S × Answer) → Type 0 where
    gives :
        (q : FifoQueueGestor S) (free used : List ℕ) (k : ℕ)
        → k < max_missiles
        → Represents q free used
        → Answered (ok (q, granted (pos k)))
    puts_off :
        (q : FifoQueueGestor S) (free used : List ℕ)
        → Represents q free used
        → Answered (ok (q, must_wait))

  -- What the part after the wait returns.
  record Woke (r : Result (FifoQueueGestor S × ℤ)) : Type 0 where
    out : FifoQueueGestor S
    k : ℕ
    free : List ℕ
    used : List ℕ
    returns : r ≡ ok (out, pos k)
    in_queue : k < max_missiles
    lists : Represents out free used

module _ {S : Type 0} ⦃s : Semaphore S⦄ where
  get_next_index-Answered :
      (g : FifoQueueGestor S) (free used : List ℕ)
      → Represents g free used
      → Answered (get_next_index g)
  get_next_index-Answered g free [] r =
      let e = get_next_index-empty g r.used_chain in
      subst Answered (sym e) (puts_off _ free [] (get_next_index-must_wait g _ free [] e r))
  get_next_index-Answered g free (k ∷ used) r =
      let t = get_next_index-Took g free used k r in
      subst Answered (sym t.returns) (gives t.out free used k r.used_chain.1 t.lists)

  request_def_index-waits :
      (g : FifoQueueGestor S) (free used : List ℕ)
      → Represents g free used
      → request_def_index g ≡ ok (post_mutex (set_write_blk g (g.write_sem.blk + 1)), must_wait)
      → Answered (request_def_index g)
  request_def_index-waits g free used r e =
      subst Answered (sym e) (puts_off _ free used (request_def_index-must_wait g _ free used e r))

  request_def_index-Answered :
      (g : FifoQueueGestor S) (free used : List ℕ)
      → Represents g free used
      → Answered (request_def_index g)
  unfolding request_def_index
  request_def_index-Answered g [] used r =
      request_def_index-waits g [] used r (ground (arith, r.free_chain))
  request_def_index-Answered g (k ∷ free) used r = elim (Bool-cases (g.write_sem.blk == 0)) [
    | inl none_wait ↦
        let t = request_def_index-Took g free used k r (ground (arith, none_wait)) in
        subst Answered (sym t.returns) (gives t.out free used k r.free_chain.1 t.lists)
    | inr some_wait ↦ request_def_index-waits g (k ∷ free) used r (ground (arith, some_wait))
  ]

  get_next_index_woken-Woke :
      {F : Type 0} (w : World F S)
      → HasIndex attacker w
      → Woke (get_next_index_woken w.atk_gestor.gestor)
  get_next_index_woken-Woke w (free, k, used, r) =
      let t = get_next_index_woken-Took w.atk_gestor.gestor free used k r in
      record {
        out = t.out;
        k = k;
        free = free;
        used = used;
        returns = t.returns;
        in_queue = r.used_chain.1;
        lists = t.lists;
      }

  request_def_index_woken-Woke :
      {F : Type 0} (w : World F S)
      → HasIndex defender w
      → Woke (request_def_index_woken w.def_gestor.gestor)
  request_def_index_woken-Woke w (free, k, used, r) =
      let t = request_def_index_woken-Took w.def_gestor.gestor free used k r in
      record {
        out = t.out;
        k = k;
        free = free;
        used = used;
        returns = t.returns;
        in_queue = r.free_chain.1;
        lists = t.lists;
      }

module _ {F D S : Type 0} (fl : Floating F D) ⦃s : Semaphore S⦄ where
  set_queue-Sound :
      (kind : MissileType) (q : FifoQueueGestor S) (free used : List ℕ) (w : World F S)
      → Represents q free used
      → HasValidCells w
      → Sound kind (set_queue fl kind q w)
  set_queue-Sound attacker q free used w r cells = record {
    cells = cells;
    queue = record { free = free; used = used; lists = r };
  }
  set_queue-Sound defender q free used w r cells = record {
    cells = cells;
    queue = record { free = free; used = used; lists = r };
  }

  -- The others, while a launcher waits, leave valid cells, and an index for it.
  abbrev pub Provides : MissileType → (World F S → World F S) → Type 0
  Provides kind waited =
      (v : World F S) → Sound kind v → HasValidCells (waited v) × HasIndex kind (waited v)

  wait_index-TookIndex :
      (kind : MissileType) (first : FifoQueueGestor S → Result (FifoQueueGestor S × Answer))
      (woken : FifoQueueGestor S → Result (FifoQueueGestor S × ℤ)) (waited : World F S → World F S)
      (w : World F S)
      → Answered (first (gestor_of kind w).gestor)
      → ((v : World F S) → HasIndex kind v → Woke (woken (gestor_of kind v).gestor))
      → HasValidCells w
      → Provides kind waited
      → TookIndex kind (wait_index fl kind first woken waited w)
  wait_index-TookIndex kind first woken waited w answered wakes cells provides =
      by_answer (first (gestor_of kind w).gestor) refl answered
    where
      by_answer :
          (r : Result (FifoQueueGestor S × Answer))
          → first (gestor_of kind w).gestor ≡ r
          → Answered r
          → TookIndex kind (wait_index fl kind first woken waited w)
      by_answer r e (gives q free used k lt lists) = record {
        world = set_queue fl kind q w;
        k = k;
        returns = rw e refl;
        in_queue = lt;
        sound = set_queue-Sound kind q free used w lists cells;
      }
      by_answer r e (puts_off q free used lists) =
          let asleep = set_queue fl kind q w in
          let (left, index) = provides asleep (set_queue-Sound kind q free used w lists cells) in
          let woke = wakes (waited asleep) index in
          record {
            world = set_queue fl kind woke.out (waited asleep);
            k = woke.k;
            returns = rw (e, woke.returns) refl;
            in_queue = woke.in_queue;
            sound =
                set_queue-Sound kind woke.out woke.free woke.used (waited asleep) woke.lists left;
          }

  pub wait_next_index-TookIndex :
      (waited : World F S → World F S) (w : World F S)
      → Sound attacker w
      → Provides attacker waited
      → TookIndex attacker (wait_next_index fl waited w)
  unfolding wait_next_index
  wait_next_index-TookIndex waited w sound provides =
      let q = sound.queue in
      wait_index-TookIndex attacker get_next_index get_next_index_woken waited w
        (get_next_index-Answered w.atk_gestor.gestor q.free q.used q.lists)
        get_next_index_woken-Woke sound.cells provides

  pub wait_def_index-TookIndex :
      (waited : World F S → World F S) (w : World F S)
      → Sound defender w
      → Provides defender waited
      → TookIndex defender (wait_def_index fl waited w)
  unfolding wait_def_index
  wait_def_index-TookIndex waited w sound provides =
      let q = sound.queue in
      wait_index-TookIndex defender request_def_index request_def_index_woken waited w
        (request_def_index-Answered w.def_gestor.gestor q.free q.used q.lists)
        request_def_index_woken-Woke sound.cells provides
