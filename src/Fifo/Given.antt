-- ===== src/Fifo/Given.antt =====
-- Where an index comes from that a launcher is given.
use patriots_rtes.Prelude.{
  ℕ, ◌+◌, ◌≡◌, refl, List, [], ◌∷◌, ℤ, pos, Result, ok, arith, sym, ◌∙◌, subst, Bool-cases, inl,
  inr, ◌==◌,
}
use patriots_rtes.Platform.{Semaphore}
use patriots_rtes.World.{FifoQueueGestor}
use patriots_rtes.Fifo.{
  Answer, granted, must_wait, get_next_index, get_next_index_woken, request_def_index,
  request_def_index_woken, take_head, take_free, post_mutex, set_read_blk,
}
use patriots_rtes.Fifo.Refinement.{Represents, IsNew, take_head-Represents}
use patriots_rtes.Fifo.Requests.{same_lists}
use patriots_rtes.Fifo.Taking.{
  Took, get_next_index-empty, get_next_index_woken-Took, request_def_index-Took,
  request_def_index_woken-Took,
}

module _ {S : Type 0} where
  -- The index was in one of the lists and is in none of those that are left, and an index that was in
  -- none is in none.
  pub record Given (free used : List ℕ) (q : FifoQueueGestor S) (k : ℕ) : Type 0 where
    pub free_left : List ℕ
    pub used_left : List ℕ
    pub lists : Represents q free_left used_left
    pub listed : IsNew k free used → ⊥
    pub mine : IsNew k free_left used_left
    pub keeps : (j : ℕ) → IsNew j free used → IsNew j free_left used_left

  first_free :
      (g q : FifoQueueGestor S) (free used : List ℕ) (k : ℕ)
      → Represents g (k ∷ free) used
      → Represents q free used
      → Given (k ∷ free) used q k
  first_free g q free used k before after = record {
    free_left = free;
    used_left = used;
    lists = after;
    listed = λ new. ground (arith, new.1);
    mine = (before.free_chain.1, grind (arith, before.distinct k));
    keeps = λ j new. (new.0, grind (arith, new.1));
  }

  first_requested :
      (g q : FifoQueueGestor S) (free used : List ℕ) (k : ℕ)
      → Represents g free (k ∷ used)
      → Represents q free used
      → Given free (k ∷ used) q k
  first_requested g q free used k before after = record {
    free_left = free;
    used_left = used;
    lists = after;
    listed = λ new. ground (arith, new.1);
    mine = (before.used_chain.1, grind (arith, before.distinct k));
    keeps = λ j new. (new.0, grind (arith, new.1));
  }

module _ {S : Type 0} ⦃s : Semaphore S⦄ where
  -- What a call has taken, if its answer names the index.
  took :
      {A : Type 0} (answer : ℕ → A)
      → ((i j : ℕ) → answer i ≡ answer j → i ≡ j)
      → (q : FifoQueueGestor S) (free used : List ℕ) (j k : ℕ) {r : Result (FifoQueueGestor S × A)}
      → Took free used j (answer j) r
      → r ≡ ok (q, answer k)
      → (j ≡ k) × Represents q free used
  took {A} answer injective q free used j k t h =
      let e : ◌≡◌ {A = Result (FifoQueueGestor S × A)} (ok (t.out, answer j)) (ok (q, answer k)) =
        sym t.returns ∙ h in
      let same : t.out ≡ q = cc in
      (injective j k cc, subst (λ z. Represents z free used) same t.lists)

  took_granted :
      (q : FifoQueueGestor S) (free used : List ℕ) (j k : ℕ)
      {r : Result (FifoQueueGestor S × Answer)}
      → Took free used j (granted (pos j)) r
      → r ≡ ok (q, granted (pos k))
      → (j ≡ k) × Represents q free used
  took_granted = took (λ i. granted (pos i)) (λ i j e. ground (arith, e))

  took_woken :
      (q : FifoQueueGestor S) (free used : List ℕ) (j k : ℕ) {r : Result (FifoQueueGestor S × ℤ)}
      → Took free used j (pos j) r
      → r ≡ ok (q, pos k)
      → (j ≡ k) × Represents q free used
  took_woken = took (λ i. pos i) (λ i j e. ground (arith, e))

  pub get_next_index-Took :
      (g : FifoQueueGestor S) (free used : List ℕ) (k : ℕ)
      → Represents g free (k ∷ used)
      → Took free used k (granted (pos k)) (get_next_index g)
  unfolding get_next_index
  get_next_index-Took g free used k r =
      let (taken, popped) = take_head-Represents g free used k r in
      record {
        out = post_mutex (record g { head_index = g.next k });
        returns = ground (arith, r.used_chain, taken);
        lists =
            same_lists (record g { head_index = g.next k })
              (post_mutex (record g { head_index = g.next k })) free used refl refl refl refl
              popped;
      }

  pub get_next_index-Given :
      (g q : FifoQueueGestor S) (free used : List ℕ) (k : ℕ)
      → Represents g free used
      → get_next_index g ≡ ok (q, granted (pos k))
      → Given free used q k
  get_next_index-Given g q free [] k r h =
      let e : ◌≡◌ {A = Result (FifoQueueGestor S × Answer)}
          (ok (post_mutex (set_read_blk g (g.read_sem.blk + 1)), must_wait))
          (ok (q, granted (pos k))) =
        sym (get_next_index-empty g r.used_chain) ∙ h in
      absurd cc
  get_next_index-Given g q free (j ∷ used) k r h =
      let (index, left) = took_granted q free used j k (get_next_index-Took g free used j r) h in
      subst (λ i. Given free (j ∷ used) q i) index (first_requested g q free used j r left)

  pub get_next_index_woken-Given :
      (g q : FifoQueueGestor S) (free used : List ℕ) (k : ℕ)
      → Represents g free used
      → get_next_index_woken g ≡ ok (q, pos k)
      → Given free used q k
  unfolding get_next_index_woken take_head
  get_next_index_woken-Given g q free [] k r h = absurd (ground (arith, r.used_chain, h))
  get_next_index_woken-Given g q free (j ∷ used) k r h =
      let (index, left) =
        took_woken q free used j k (get_next_index_woken-Took g free used j r) h in
      subst (λ i. Given free (j ∷ used) q i) index (first_requested g q free used j r left)

  pub request_def_index-Given :
      (g q : FifoQueueGestor S) (free used : List ℕ) (k : ℕ)
      → Represents g free used
      → request_def_index g ≡ ok (q, granted (pos k))
      → Given free used q k
  unfolding request_def_index
  request_def_index-Given g q [] used k r h = absurd (ground (arith, r.free_chain, h))
  request_def_index-Given g q (j ∷ free) used k r h = elim (Bool-cases (g.write_sem.blk == 0)) [
    | inl none_wait ↦
        let (index, left) =
          took_granted q free used j k
            (request_def_index-Took g free used j r (ground (arith, none_wait))) h in
        subst (λ i. Given (j ∷ free) used q i) index (first_free g q free used j r left)
    | inr some_wait ↦ absurd (ground (arith, some_wait, h))
  ]

  pub request_def_index_woken-Given :
      (g q : FifoQueueGestor S) (free used : List ℕ) (k : ℕ)
      → Represents g free used
      → request_def_index_woken g ≡ ok (q, pos k)
      → Given free used q k
  unfolding request_def_index_woken take_free
  request_def_index_woken-Given g q [] used k r h = absurd (ground (arith, r.free_chain, h))
  request_def_index_woken-Given g q (j ∷ free) used k r h =
      let (index, left) =
        took_woken q free used j k (request_def_index_woken-Took g free used j r) h in
      subst (λ i. Given (j ∷ free) used q i) index (first_free g q free used j r left)
