-- ===== src/Access/Progress.antt =====
-- No deadlock in the access protocol, and no priority waits for more than two hand-overs.
use patriots_rtes.Prelude.{
  ℕ, zero, suc, ◌+◌, ◌-◌, ◌%◌, ◌≤◌, ◌<◌, ◌≡◌, ◌≢◌, refl, ◌⊎◌, inl, inr, true, some, arith,
  Option-cases, ==_iff, ap, ◌∙◌,
}
use patriots_rtes.Prelude.Tally.{tally, tally-pos, tally_witness}
use patriots_rtes.Config.{env_prios}
use patriots_rtes.Platform.{Semaphore}
use patriots_rtes.World.{Env, PrivateSem}
use patriots_rtes.Access.Release.{
  first_blocked, first_blocked-some, first_blocked-none, wake_order, hand_over, release_env_lem,
}
use patriots_rtes.Access.{release_env}
use native.Mathlib.Decide.{ℕ_discrete}
use patriots_rtes.Access.Protocol.{
  Pc, outside, testing, blocked, woken, inside, leaving, Move, test, wake, resume, give_back, leave,
  System, Reach,
}
use patriots_rtes.Access.Invariant.{
  Inv, IsLegal, Reach-Inv, has_mutex, uses_env, is_blocked, waits, posted, handed,
}

-- How many priorities are asked before `q` when `prio` releases.
abbrev pub turns_before : ℕ → ℕ → ℕ
turns_before prio q = (q + env_prios - 1 - prio) % env_prios

-- Waking another priority brings `q` nearer to its turn.
turn_nearer :
    {S : Type 0} (sems : ℕ → PrivateSem S) (prio q r : ℕ)
    → prio < env_prios
    → q < env_prios
    → (sems q).blk ≢ 0
    → first_blocked sems (wake_order prio) ≡ some r
    → r ≢ q
    → (turns_before r q < turns_before prio q) × (turns_before prio q ≤ 2)
turn_nearer sems zero q r lp lq wanted h ne = ground arith
turn_nearer sems (suc zero) q r lp lq wanted h ne = ground arith
turn_nearer sems (suc (suc zero)) q r lp lq wanted h ne = ground arith
turn_nearer sems (suc (suc (suc p))) q r lp lq wanted h ne = absurd (omega arith)

module _ {S : Type 0} ⦃s : Semaphore S⦄ where
  open s use {value, sem_wait, wait-blocks}

  sem_ready : (x : S) → 1 ≤ value x → (y : S) × (sem_wait x ≡ some y)
  sem_ready x h = elim (Option-cases (sem_wait x)) [
    | inl e ↦ absurd (omega (arith, wait-blocks x e))
    | inr (y, e) ↦ (y, e)
  ]

  -- A release while a thread of priority `q` is blocked hands the mutex to exactly one priority, `r`, and
  -- that one has a blocked thread: it is `q`, or its own release has `q` nearer to its turn, which is
  -- never more than two releases away.
  pub wake_fair :
      (e : Env S) (prio q : ℕ)
      → prio < env_prios
      → q < env_prios
      → (e.prio_sem q).blk ≢ 0
      → (r : ℕ) × (release_env prio e ≡ some (hand_over e (some r)))
        × (r < env_prios)
        × ((e.prio_sem r).blk ≢ 0)
        × ((r ≡ q) ⊎ (turns_before r q < turns_before prio q) × (turns_before prio q ≤ 2))
  wake_fair e prio q lp lq wanted =
      elim (Option-cases (first_blocked e.prio_sem (wake_order prio))) [
        | inl none_blocked ↦
            absurd (wanted (first_blocked-none e.prio_sem prio q lp lq none_blocked))
        | inr (r, first) ↦ (
          r,
          release_env_lem prio e lp ∙ ap (λ o. some (hand_over e o)) first,
          (first_blocked-some e.prio_sem prio r lp first).1,
          (first_blocked-some e.prio_sem prio r lp first).0,
          elim (ℕ_discrete r q) [
            | yes same ↦ inl same
            | no other ↦ inr (turn_nearer e.prio_sem prio q r lp lq wanted first other)
          ],
        )
      ]

  -- A step of a thread that takes it to another place.
  pub record Advance (e : Env S) (p : Pc) : Type 0 where
    pub env : Env S
    pub place : Pc
    pub move : Move e p env place
    pub elsewhere : p ≢ place

  holder-Advance : {e : Env S} (p : Pc) → IsLegal p → has_mutex p ≡ true → Advance e p
  holder-Advance (testing prio) lt h = record {
    env = _;
    place = _;
    move = test;
    elsewhere = ground arith;
  }
  holder-Advance (woken prio) lt h = record {
    env = _;
    place = _;
    move = resume;
    elsewhere = λ q. cc;
  }
  holder-Advance {e} (leaving prio) lt h = record {
    env = _;
    place = _;
    move = leave (release_env_lem prio e lt);
    elsewhere = λ q. cc;
  }
  holder-Advance outside lt h = cc
  holder-Advance (blocked prio) lt h = cc
  holder-Advance (inside prio) lt h = cc

  blocked-Advance :
      {e : Env S} (q : ℕ) (p : Pc) → 1 ≤ posted e q → is_blocked q p ≡ true → Advance e p
  blocked-Advance {e} q (blocked prio) h b =
      let e1 = (==_iff q prio).0 b in
      let (y, ready) = sem_ready (e.prio_sem prio).sem (rw e1 at h) in
      record { env = _; place = _; move = wake ready; elsewhere = λ z. cc }
  blocked-Advance q outside h b = cc
  blocked-Advance q (testing _) h b = cc
  blocked-Advance q (woken _) h b = cc
  blocked-Advance q (inside _) h b = cc
  blocked-Advance q (leaving _) h b = cc

  user-Advance :
      {e : Env S} (p : Pc) → IsLegal p → 1 ≤ value e.mutex → uses_env p ≡ true → Advance e p
  user-Advance {e} (inside prio) lt h u =
      let (y, ready) = sem_ready e.mutex h in
      record { env = _; place = _; move = give_back ready; elsewhere = λ z. cc }
  user-Advance (leaving prio) lt h u = holder-Advance (leaving prio) lt refl
  user-Advance outside lt h u = cc
  user-Advance (testing _) lt h u = cc
  user-Advance (blocked _) lt h u = cc
  user-Advance (woken _) lt h u = cc

  module _ {n : ℕ} {t : System S} (r : Reach n t) where
    abbrev inv : Inv n t.env t.pc
    inv = Reach-Inv r

    Mover : Type 0
    Mover = (j : ℕ) × (j < n) × Advance t.env (t.pc j)

    posted-Mover : (q : ℕ) → q < env_prios → 1 ≤ posted t.env q → Mover
    unfolding Mover
    posted-Mover q lq h =
        let (j, lt, b) = tally_witness (is_blocked q) n t.pc (omega (arith, inv.post_taken q lq)) in
        (j, lt, blocked-Advance q (t.pc j) h b)

    -- With the mutex free, a blocked thread waits for one that uses the environment.
    user_of_blocked :
        (i q : ℕ) → i < n → t.pc i ≡ blocked q → 1 ≤ value t.env.mutex → 1 ≤ t.env.count
    user_of_blocked i q lt h free = ground (
      arith,
      inv.nobody_forgotten (omega arith),
      inv.blk_counts q (rw h at (inv.legal i)),
      tally-pos (waits q) n t.pc i lt (rw h ((==_iff q q).1 refl)),
      rw h at (inv.legal i),
    )

    free-Mover : (i : ℕ) → i < n → t.pc i ≢ outside → 1 ≤ value t.env.mutex → Mover
    unfolding Mover
    free-Mover i lt out free = by_place (t.pc i) refl
      where
        user : 1 ≤ t.env.count → Mover
        user used =
            let (j, lj, u) = tally_witness uses_env n t.pc (omega (arith, inv.counted)) in
            (j, lj, user-Advance (t.pc j) (inv.legal j) free u)

        holder : has_mutex (t.pc i) ≡ true → Mover
        holder h = (i, lt, holder-Advance (t.pc i) (inv.legal i) h)

        by_place : (p : Pc) → t.pc i ≡ p → Mover
        by_place outside h = absurd (out h)
        by_place (testing q) h = holder (rw h refl)
        by_place (woken q) h = holder (rw h refl)
        by_place (leaving q) h = holder (rw h refl)
        by_place (inside q) h = (i, lt, user-Advance (t.pc i) (inv.legal i) free (rw h refl))
        by_place (blocked q) h = user (user_of_blocked i q lt h free)

    -- No deadlock: while some thread is between its call of `access_env` and its return from
    -- `release_env`, some thread can make a step that takes it further.
    pub no_deadlock :
        (i : ℕ) → i < n → t.pc i ≢ outside → (j : ℕ) × (j < n) × Advance t.env (t.pc j)
    unfolding Mover
    no_deadlock i lt out = elim (who (value t.env.mutex) (handed t.env) refl refl) [
      | inl free ↦ free-Mover i lt out free
      | inr (inl h) ↦ h
      | inr (inr h) ↦
          let (j, lj, b) = tally_witness has_mutex n t.pc h in
          (j, lj, holder-Advance (t.pc j) (inv.legal j) b)
    ]
      where
        by_post : (a b : ℕ) → posted t.env 0 ≡ a → posted t.env 1 ≡ b → 1 ≤ handed t.env → Mover
        by_post (suc a) b e f h = posted-Mover 0 (omega arith) (omega arith)
        by_post zero (suc b) e f h = posted-Mover 1 (omega arith) (omega arith)
        by_post zero zero e f h = posted-Mover 2 (omega arith) (omega arith)

        who :
            (m k : ℕ)
            → value t.env.mutex ≡ m
            → handed t.env ≡ k
            → (1 ≤ value t.env.mutex) ⊎ (Mover ⊎ (1 ≤ tally has_mutex n t.pc))
        who (suc m) k e f = inl (omega arith)
        who zero (suc k) e f = inr (inl (by_post _ _ refl refl (omega arith)))
        who zero zero e f = inr (inr (omega (arith, inv.one_mutex)))
