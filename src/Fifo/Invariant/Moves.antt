-- ===== src/Fifo/Invariant/Moves.antt =====
-- Every step of a thread keeps the invariant, with the lists that it leaves.
use patriots_rtes.Prelude.{
  ℕ, ◌+◌, ◌-◌, ◌≤◌, ◌<◌, ◌≡◌, refl, ◌==◌, update, arith, List, [], ◌∷◌, ℤ, pos, ok, subst,
  Bool-cases, inl, inr, Result, ==_iff,
}
use patriots_rtes.Prelude.Tally.{tally-pos}
use patriots_rtes.Platform.{Semaphore}
use patriots_rtes.World.{FifoQueueGestor}
use patriots_rtes.Fifo.{
  Answer, granted, must_wait, post_mutex, post_read, post_write, set_write_blk, set_read_blk,
  request_atk_launch, request_def_index, request_def_index_woken, get_next_index,
  get_next_index_woken, splice_index,
}
use patriots_rtes.Fifo.Refinement.{
  IsNew, update_queue_head-Appends, take_free-Represents, take_head-Represents,
  splice_index-Represents, spliced,
}
use patriots_rtes.Fifo.Protocol.{
  Pc, idle, launching, requesting, getting, splicing, write_blocked, write_woken, read_blocked,
  read_woken, owning, Move, after_request, after_get, lock_launch, lock_request, lock_get,
  lock_splice, launch, request, get, splice, wake_writer, wake_reader, resume_request, resume_get,
}
use patriots_rtes.Fifo.Invariant.Defs.{Inv, is_write_woken, is_read_woken, owns}
use patriots_rtes.Fifo.Invariant.Change.{change, no_hand_over, lock-Inv}
use patriots_rtes.Fifo.Invariant.Waits.{
  wake_writer-Inv, wake_reader-Inv, wait_free-Inv, wait_head-Inv, skip_launch-Inv,
}
use patriots_rtes.Fifo.Invariant.Grants.{
  grant_free-Inv, resume_free-Inv, resume_head-Inv, launched-Inv, spliced_free-Inv,
  spliced_wanted-Inv,
}

-- Some lists for which the invariant holds.
pub record Good {S : Type 0} ⦃s : Semaphore S⦄ (n : ℕ) (g : FifoQueueGestor S) (pc : ℕ → Pc)
    : Type 0 where
  pub free : List ℕ
  pub used : List ℕ
  pub inv : Inv n g pc free used

-- The code returns, without a fault, and the postcondition holds.
abbrev pub Yields : {A : Type 0} → Result A → (A → Type 0) → Type 0
Yields {A} r P = (a : A) × (r ≡ ok a) × P a

by_result : {A : Type 0} (P : A → Type 0) {r : Result A} {b : A} → Yields r P → r ≡ ok b → P b
by_result P {b} (a, e, good) q = let same : a ≡ b = cc in subst P same good

module _ {S : Type 0} ⦃s : Semaphore S⦄ (n : ℕ) (g : FifoQueueGestor S) (pc : ℕ → Pc) (i : ℕ)
    (lt : i < n) where
  abbrev pub Requested : FifoQueueGestor S × Answer → Type 0
  Requested (h, a) = Good n h (update pc i (after_request a))

  abbrev pub Got : FifoQueueGestor S × Answer → Type 0
  Got (h, a) = Good n h (update pc i (after_get a))

  abbrev pub Owned : FifoQueueGestor S × ℤ → Type 0
  Owned (h, index) = Good n h (update pc i (owning index))

  abbrev pub Finished : FifoQueueGestor S → Type 0
  Finished h = Good n h (update pc i idle)

  pub request-Good :
      (free used : List ℕ)
      → Inv n g pc free used
      → pc i ≡ requesting
      → Yields (request_def_index g) Requested
  unfolding request_def_index
  request-Good [] used inv at = (
    (post_mutex (set_write_blk g (g.write_sem.blk + 1)), must_wait),
    (ground (arith, inv.lists.free_chain)),
    (record {
      free = [];
      used = used;
      inv = wait_free-Inv inv i (inl refl) (change n pc i lt at write_blocked);
    }),
  )
  request-Good (k ∷ free) used inv at = elim (Bool-cases (g.write_sem.blk == 0)) [
    | inl e ↦
        let quiet : g.write_sem.blk ≡ 0 = ground arith in
        (
          (post_mutex (record g { free_index = g.next k }), granted (pos k)),
          (ground (arith, inv.lists.free_chain, (take_free-Represents g free used k inv.lists).0)),
          (record {
            free = free;
            used = used;
            inv = grant_free-Inv i inv quiet (change n pc i lt at (owning (pos k)));
          }),
        )
    | inr e ↦
        let wanted : 1 ≤ g.write_sem.blk = ground arith in
        (
          (post_mutex (set_write_blk g (g.write_sem.blk + 1)), must_wait),
          (ground (arith, inv.lists.free_chain)),
          (record {
            free = k ∷ free;
            used = used;
            inv = wait_free-Inv inv i (inr wanted) (change n pc i lt at write_blocked);
          }),
        )
  ]

  -- A caller of `get_next_index` that was not handed the mutex always has to wait.
  pub get-Good :
      (free used : List ℕ) → Inv n g pc free used → pc i ≡ getting → Yields (get_next_index g) Got
  unfolding get_next_index
  get-Good free [] inv at = (
    (post_mutex (set_read_blk g (g.read_sem.blk + 1)), must_wait),
    (ground (arith, inv.lists.used_chain)),
    (record {
      free = free;
      used = [];
      inv = wait_head-Inv inv i (change n pc i lt at read_blocked);
    }),
  )
  get-Good free (k ∷ used) inv at =
      absurd (omega (arith, inv.one_for_reader, no_hand_over inv i lt (rw at refl)))

  pub resume_request-Good :
      (free used : List ℕ)
      → Inv n g pc free used
      → pc i ≡ write_woken
      → Yields (request_def_index_woken g) Owned
  unfolding request_def_index_woken
  resume_request-Good [] used inv at = absurd (
      omega (
        arith,
        inv.one_for_writer
            (omega (arith, inv.write_blk, tally-pos is_write_woken n pc i lt (rw at refl))),
        tally-pos is_write_woken n pc i lt (rw at refl),
      ))
  resume_request-Good (k ∷ free) used inv at = (
    (post_mutex (record (set_write_blk g (g.write_sem.blk - 1)) { free_index = g.next k }), pos k),
    (take_free-Represents (set_write_blk g (g.write_sem.blk - 1)) free used k
        (ground (arith, inv.lists))).0,
    (record {
      free = free;
      used = used;
      inv = resume_free-Inv i inv (change n pc i lt at (owning (pos k)));
    }),
  )

  pub resume_get-Good :
      (free used : List ℕ)
      → Inv n g pc free used
      → pc i ≡ read_woken
      → Yields (get_next_index_woken g) Owned
  unfolding get_next_index_woken
  resume_get-Good free [] inv at =
      absurd (omega (arith, inv.one_for_reader, tally-pos is_read_woken n pc i lt (rw at refl)))
  resume_get-Good free (k ∷ used) inv at = (
    (post_mutex (record (set_read_blk g (g.read_sem.blk - 1)) { head_index = g.next k }), pos k),
    (take_head-Represents (set_read_blk g (g.read_sem.blk - 1)) free used k
        (ground (arith, inv.lists))).0,
    (record {
      free = free;
      used = used;
      inv = resume_head-Inv i inv (change n pc i lt at (owning (pos k)));
    }),
  )

  pub splice-Good :
      (free used : List ℕ) {index : ℤ}
      → Inv n g pc free used
      → pc i ≡ splicing index
      → Yields (splice_index g index) Finished
  splice-Good free used {index} inv at =
      let (k, e, small) = rw at at (inv.legal i) in
      let at_k : pc i ≡ splicing (pos k) = cc in
      let own = tally-pos (owns k) n pc i lt (rw at_k ((==_iff k k).1 refl)) in
      let c = change n pc i lt at_k idle in
      let (done, lists) =
        splice_index-Represents g free used k inv.lists
          (small, omega (arith, inv.partition k small)) in
      elim (Bool-cases (g.write_sem.blk == 0)) [
        | inl z ↦
            let quiet : g.write_sem.blk ≡ 0 = ground arith in
            (
              (post_mutex (spliced g free used k)),
              (ground (arith, done)),
              (record { free = k ∷ free; used = used; inv = spliced_free-Inv i inv quiet lists c }),
            )
        | inr z ↦
            let wanted : 1 ≤ g.write_sem.blk = ground arith in
            (
              (post_write (spliced g free used k)),
              (ground (arith, done)),
              (record {
                free = k ∷ free;
                used = used;
                inv = spliced_wanted-Inv i inv wanted lists c;
              }),
            )
      ]

  -- `request_atk_launch` finds no requested index: it has the mutex, and each is handed over with it.
  pub launch-Good :
      (free used : List ℕ)
      → Inv n g pc free used
      → pc i ≡ launching
      → Yields (request_atk_launch g) Finished
  unfolding request_atk_launch
  launch-Good free (k ∷ used) inv at =
      absurd (omega (arith, inv.one_for_reader, no_hand_over inv i lt (rw at refl)))
  launch-Good [] [] inv at = (
    (post_mutex g),
    (ground (arith, inv.lists.free_chain)),
    (record { free = []; used = []; inv = skip_launch-Inv inv i (change n pc i lt at idle) }),
  )
  launch-Good (k ∷ free) [] inv at = elim (Bool-cases (g.read_sem.blk == 0)) [
    | inl e ↦ (
      (post_mutex g),
      (ground (arith, inv.lists.free_chain)),
      (record {
        free = k ∷ free;
        used = [];
        inv = skip_launch-Inv inv i (change n pc i lt at idle);
      }),
    )
    | inr e ↦
        let reader : 0 < g.read_sem.blk = ground arith in
        let popped = (take_free-Represents g free [] k inv.lists).1 in
        let new : IsNew k free [] =
          (inv.lists.free_chain.1, ground (arith, inv.lists.distinct k)) in
        let a =
          update_queue_head-Appends (record g { free_index = g.next k }) free [] k popped new
            reader in
        (
          (post_read a.out),
          (ground (arith, inv.lists.free_chain, a.returns)),
          (record {
            free = free;
            used = k ∷ [];
            inv = launched-Inv i inv reader a.lists a.same (change n pc i lt at idle);
          }),
        )
  ]

  pub Move-Good :
      {p p' : Pc} {h : FifoQueueGestor S} (free used : List ℕ)
      → Inv n g pc free used
      → Move g p h p'
      → pc i ≡ p
      → Good n h (update pc i p')
  Move-Good free used inv (lock_launch w) at = record {
    free = free;
    used = used;
    inv = lock-Inv inv i w (change n pc i lt at launching) tt (refl, refl) (refl, refl) (λ k. refl);
  }
  Move-Good free used inv (lock_request w) at = record {
    free = free;
    used = used;
    inv =
        lock-Inv inv i w (change n pc i lt at requesting) tt (refl, refl) (refl, refl) (λ k. refl);
  }
  Move-Good free used inv (lock_get w) at = record {
    free = free;
    used = used;
    inv = lock-Inv inv i w (change n pc i lt at getting) tt (refl, refl) (refl, refl) (λ k. refl);
  }
  Move-Good free used inv (lock_splice {index} w) at = record {
    free = free;
    used = used;
    inv =
        lock-Inv inv i w (change n pc i lt at (splicing index)) (rw at at (inv.legal i))
          (refl, refl) (refl, refl) (λ k. refl);
  }
  Move-Good free used inv (launch r) at = by_result Finished (launch-Good free used inv at) r
  Move-Good free used inv (request r) at = by_result Requested (request-Good free used inv at) r
  Move-Good free used inv (get r) at = by_result Got (get-Good free used inv at) r
  Move-Good free used inv (splice r) at = by_result Finished (splice-Good free used inv at) r
  Move-Good free used inv (wake_writer w) at = record {
    free = free;
    used = used;
    inv = wake_writer-Inv inv i w (change n pc i lt at write_woken);
  }
  Move-Good free used inv (wake_reader w) at = record {
    free = free;
    used = used;
    inv = wake_reader-Inv inv i w (change n pc i lt at read_woken);
  }
  Move-Good free used inv (resume_request r) at =
      by_result Owned (resume_request-Good free used inv at) r
  Move-Good free used inv (resume_get r) at = by_result Owned (resume_get-Good free used inv at) r
