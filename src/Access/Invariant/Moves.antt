-- ===== src/Access/Invariant/Moves.antt =====
-- A step of thread `i` keeps each field of the invariant.
use patriots_rtes.Prelude.{
  ℕ, ◌+◌, ◌≤◌, ◌<◌, ◌≡◌, ◌≢◌, refl, ◌==◌, update, true, none, some, arith, Option-cases,
}
use patriots_rtes.Prelude.{not, ◌||◌, Bool-cases, inl, inr, subst}
use patriots_rtes.Prelude.Tally.{tally, tally-update, tally-pos, bit}
use patriots_rtes.Config.{env_prios}
use patriots_rtes.Platform.{Semaphore}
use patriots_rtes.World.{Env}
use patriots_rtes.Access.Invariant.Counts.{access_lock-blk, has_mutex-split, waits-split}
use patriots_rtes.World.{Cell}
use patriots_rtes.Access.{access_block, access_enter}
use patriots_rtes.Access.{access_test, access_resume, access_lock, release_env}
use patriots_rtes.Access.Release.{first_blocked, wake_order, hand_over, release_env_lem}
use patriots_rtes.Access.Release.{first_blocked-some, first_blocked-none}
use patriots_rtes.Access.Protocol.{
  after_test, Pc, outside, testing, blocked, woken, inside, leaving, Move, ask, test, wake, resume,
  work, give_back, leave,
}
use patriots_rtes.Access.Invariant.Defs.{
  Inv, has_mutex, uses_env, is_testing, is_woken, is_blocked, waits, IsLegal,
}

module _ {S : Type 0} ⦃s : Semaphore S⦄ {n : ℕ} {e : Env S} {pc : ℕ → Pc} (inv : Inv n e pc)
    (i : ℕ) where
  open s use {value, value-post, value-wait}

  -- Thread `i` goes from `p` to `p'`: how each tally changes.
  record Change (p p' : Pc) : Type 0 where
    here : pc i ≡ p
    legal_here : IsLegal p
    mutexes :
        tally has_mutex n (update pc i p') + bit (has_mutex p)
        ≡ tally has_mutex n pc + bit (has_mutex p')
    users :
        tally uses_env n (update pc i p') + bit (uses_env p)
        ≡ tally uses_env n pc + bit (uses_env p')
    testers :
        tally is_testing n (update pc i p') + bit (is_testing p)
        ≡ tally is_testing n pc + bit (is_testing p')
    wokens :
        tally is_woken n (update pc i p') + bit (is_woken p)
        ≡ tally is_woken n pc + bit (is_woken p')
    waiting :
        (q : ℕ)
        → tally (waits q) n (update pc i p') + bit (waits q p)
          ≡ tally (waits q) n pc + bit (waits q p')
    stopped :
        (q : ℕ)
        → tally (is_blocked q) n (update pc i p') + bit (is_blocked q p)
          ≡ tally (is_blocked q) n pc + bit (is_blocked q p')

  change : i < n → (p' : Pc) → Change (pc i) p'
  change lt p' = record {
    here = refl;
    legal_here = inv.legal i;
    mutexes = tally-update has_mutex n pc i p' lt;
    users = tally-update uses_env n pc i p' lt;
    testers = tally-update is_testing n pc i p' lt;
    wokens = tally-update is_woken n pc i p' lt;
    waiting = λ q. tally-update (waits q) n pc i p' lt;
    stopped = λ q. tally-update (is_blocked q) n pc i p' lt;
  }

  Change-at : i < n → {p : Pc} → pc i ≡ p → (p' : Pc) → Change p p'
  Change-at lt h p' = rw (← h) (change lt p')

  ask-Inv :
      {prio : ℕ} {m : S}
      → prio < env_prios
      → s.sem_wait e.mutex ≡ some m
      → Change outside (testing prio)
      → Inv n (record e { mutex = m }) (update pc i (testing prio))
  ask-Inv {prio} {m} lt w c = record {
    legal = λ j. ground (arith, inv.legal j);
    one_mutex = omega (arith, inv.one_mutex, value-wait e.mutex m w, c.mutexes);
    counted = omega (arith, inv.counted, c.users);
    alone = inv.alone;
    blk_counts = λ q lq. omega (arith, inv.blk_counts q lq, c.waiting q);
    post_taken = λ q lq. omega (arith, inv.post_taken q lq, c.stopped q);
    handed_free = λ h. inv.handed_free (omega (arith, c.wokens));
    nobody_forgotten = λ h. inv.nobody_forgotten (omega (arith, value-wait e.mutex m w));
  }

  -- `access_env` finds the environment in use.
  queue_up-Inv :
      {prio : ℕ}
      → 1 ≤ e.count
      → Change (testing prio) (blocked prio)
      → Inv n (access_block prio e) (update pc i (blocked prio))
  queue_up-Inv {prio} busy c = record {
    legal = λ j. ground (arith, inv.legal j, c.legal_here);
    one_mutex = ground (arith, inv.one_mutex, value-post e.mutex, c.mutexes);
    counted = omega (arith, inv.counted, c.users);
    alone = inv.alone;
    blk_counts = λ q lq. ground (arith, inv.blk_counts q lq, c.waiting q);
    post_taken = λ q lq. ground (arith, inv.post_taken q lq, c.stopped q);
    handed_free = λ h. absurd (ground (arith, inv.handed_free, c.wokens));
    nobody_forgotten = λ h free. absurd (omega arith);
  }

  enter-Inv :
      {prio : ℕ}
      → e.count ≡ 0
      → Change (testing prio) (inside prio)
      → Inv n (access_enter e) (update pc i (inside prio))
  enter-Inv {prio} free c = record {
    legal = λ j. ground (arith, inv.legal j, c.legal_here);
    one_mutex = omega (arith, inv.one_mutex, value-post e.mutex, c.mutexes);
    counted = omega (arith, inv.counted, c.users);
    alone = omega arith;
    blk_counts = λ q lq. omega (arith, inv.blk_counts q lq, c.waiting q);
    post_taken = λ q lq. omega (arith, inv.post_taken q lq, c.stopped q);
    handed_free =
        λ h. absurd (omega (arith, inv.one_mutex, c.wokens, c.mutexes, has_mutex-split n pc));
    nobody_forgotten = λ h. λ z. absurd (omega arith);
  }

  wake-Inv :
      {prio : ℕ} {t : S}
      → s.sem_wait (e.prio_sem prio).sem ≡ some t
      → Change (blocked prio) (woken prio)
      → Inv n
          (record e { prio_sem = update e.prio_sem prio (record (e.prio_sem prio) { sem = t }) })
          (update pc i (woken prio))
  wake-Inv {prio} {t} w c = record {
    legal = λ j. ground (arith, inv.legal j, c.legal_here);
    one_mutex =
        ground
          (arith, inv.one_mutex, value-wait (e.prio_sem prio).sem t w, c.mutexes, c.legal_here);
    counted = omega (arith, inv.counted, c.users);
    alone = inv.alone;
    blk_counts = λ q lq. ground (arith, inv.blk_counts q lq, c.waiting q);
    post_taken = λ q lq.
        ground (arith, inv.post_taken q lq, c.stopped q, value-wait (e.prio_sem prio).sem t w);
    handed_free = λ h.
        ground
          (arith, inv.handed_free, c.wokens, value-wait (e.prio_sem prio).sem t w, c.legal_here);
    nobody_forgotten = λ h z. absurd (
        ground (
          arith,
          inv.one_mutex,
          c.testers,
          value-wait (e.prio_sem prio).sem t w,
          c.legal_here,
          has_mutex-split n pc,
        ));
  }

  resume-Inv :
      {prio : ℕ}
      → i < n
      → Change (woken prio) (inside prio)
      → Inv n (access_resume prio e) (update pc i (inside prio))
  unfolding access_resume
  resume-Inv {prio} lt c = record {
    legal = λ j. ground (arith, inv.legal j, c.legal_here);
    one_mutex = ground (arith, inv.one_mutex, value-post e.mutex, c.mutexes);
    counted = omega (arith, inv.counted, c.users);
    alone = omega (arith, inv.handed_free, c.wokens);
    blk_counts = λ q lq. ground (arith, inv.blk_counts q lq, c.waiting q);
    post_taken = λ q lq. ground (arith, inv.post_taken q lq, c.stopped q);
    handed_free = λ h. absurd (
        ground (
          arith,
          inv.one_mutex,
          c.wokens,
          c.mutexes,
          has_mutex-split n (update pc i (inside prio)),
        ));
    nobody_forgotten = λ h z. absurd (omega arith);
  }

  work-Inv :
      {prio : ℕ} (cell : ℕ → ℕ → Cell) (d a : ℕ)
      → Change (inside prio) (inside prio)
      → Inv n (record e { cell = cell; def_points = d; atk_points = a }) (update pc i (inside prio))
  work-Inv {prio} cell d a c = record {
    legal = λ j. ground (arith, inv.legal j, c.legal_here);
    one_mutex = omega (arith, inv.one_mutex, c.mutexes);
    counted = omega (arith, inv.counted, c.users);
    alone = inv.alone;
    blk_counts = λ q lq. omega (arith, inv.blk_counts q lq, c.waiting q);
    post_taken = λ q lq. omega (arith, inv.post_taken q lq, c.stopped q);
    handed_free = λ h. inv.handed_free (omega (arith, c.wokens));
    nobody_forgotten = λ h z. inv.nobody_forgotten (omega (arith, c.testers)) z;
  }

  give_back-Inv :
      {prio : ℕ} {m : S}
      → s.sem_wait e.mutex ≡ some m
      → Change (inside prio) (leaving prio)
      → Inv n (record e { mutex = m }) (update pc i (leaving prio))
  give_back-Inv {prio} {m} w c = record {
    legal = λ j. ground (arith, inv.legal j, c.legal_here);
    one_mutex = omega (arith, inv.one_mutex, value-wait e.mutex m w, c.mutexes);
    counted = omega (arith, inv.counted, c.users);
    alone = inv.alone;
    blk_counts = λ q lq. omega (arith, inv.blk_counts q lq, c.waiting q);
    post_taken = λ q lq. omega (arith, inv.post_taken q lq, c.stopped q);
    handed_free = λ h. inv.handed_free (omega (arith, c.wokens));
    nobody_forgotten =
        λ h z. inv.nobody_forgotten (omega (arith, value-wait e.mutex m w, c.testers)) z;
  }

  leave_none-Inv :
      {prio : ℕ}
      → first_blocked e.prio_sem (wake_order prio) ≡ none
      → Change (leaving prio) outside
      → Inv n (hand_over e none) (update pc i outside)
  leave_none-Inv {prio} h c = record {
    legal = λ j. ground (arith, inv.legal j);
    one_mutex = omega (arith, inv.one_mutex, value-post e.mutex, c.mutexes);
    counted = omega (arith, inv.counted, c.users);
    alone = omega (arith, inv.alone);
    blk_counts = λ q lq. omega (arith, inv.blk_counts q lq, c.waiting q);
    post_taken = λ q lq. omega (arith, inv.post_taken q lq, c.stopped q);
    handed_free = λ _. omega (arith, inv.alone);
    nobody_forgotten = λ _ _. omega (
      arith,
      first_blocked-none e.prio_sem prio 0 c.legal_here (omega arith) h,
      first_blocked-none e.prio_sem prio 1 c.legal_here (omega arith) h,
      first_blocked-none e.prio_sem prio 2 c.legal_here (omega arith) h,
    );
  }

  leave_some-Inv :
      {prio : ℕ} (q : ℕ)
      → q < env_prios
      → (e.prio_sem q).blk ≢ 0
      → Change (leaving prio) outside
      → Inv n (hand_over e (some q)) (update pc i outside)
  leave_some-Inv {prio} q lq wanted c = record {
    legal = λ j. ground (arith, inv.legal j);
    one_mutex = ground (arith, inv.one_mutex, value-post (e.prio_sem q).sem, c.mutexes);
    counted = omega (arith, inv.counted, c.users);
    alone = omega (arith, inv.alone);
    blk_counts = λ r lr. ground (arith, inv.blk_counts r lr, c.waiting r);
    post_taken = λ r lr. ground (
      arith,
      inv.one_mutex,
      inv.blk_counts q lq,
      inv.post_taken r lr,
      c.stopped r,
      c.mutexes,
      waits-split q n pc,
      has_mutex-split n pc,
      value-post (e.prio_sem q).sem,
    );
    handed_free = λ _. omega (arith, inv.alone);
    nobody_forgotten = λ h. absurd (
        omega
          (arith, inv.one_mutex, c.mutexes, c.testers, has_mutex-split n (update pc i outside)));
  }

  -- A thread that tests finds the environment free only if nobody is blocked.
  test-Inv :
      {prio : ℕ}
      → i < n
      → Change (testing prio) (blocked prio)
      → Change (testing prio) (inside prio)
      → Inv n (access_test prio e).0 (update pc i (after_test prio (access_test prio e).1))
  unfolding access_test
  test-Inv {prio} lt cb ce = elim (Bool-cases (not (e.count == 0) || access_lock e.prio_sem prio)) [
    | inl busy ↦ rw busy (queue_up-Inv (in_use busy) cb)
    | inr free ↦ rw free (enter-Inv (ground arith) ce)
  ]
    where
      in_use : (not (e.count == 0) || access_lock e.prio_sem prio) ≡ true → 1 ≤ e.count
      in_use busy = ground (
        arith,
        inv.nobody_forgotten (ground (arith, tally-pos is_testing n pc i lt, cb.here)),
        access_lock-blk e prio cb.legal_here,
      )

  leave-Inv :
      {prio : ℕ} {e' : Env S}
      → release_env prio e ≡ some e'
      → Change (leaving prio) outside
      → Inv n e' (update pc i outside)
  leave-Inv {prio} {e'} done c = elim (Option-cases (first_blocked e.prio_sem (wake_order prio))) [
    | inl h ↦
        subst (λ x. Inv n x (update pc i outside)) (cc (release_env_lem prio e c.legal_here, h))
          (leave_none-Inv h c)
    | inr (q, h) ↦
        let (wanted, lq) = first_blocked-some e.prio_sem prio q c.legal_here h in
        subst (λ x. Inv n x (update pc i outside)) (cc (release_env_lem prio e c.legal_here, h))
          (leave_some-Inv q lq wanted c)
  ]

-- A step of a thread keeps the invariant.
pub Move-Inv :
    {S : Type 0} ⦃s : Semaphore S⦄ {n : ℕ} {e e' : Env S} {pc : ℕ → Pc} {p p' : Pc} (i : ℕ)
    → i < n
    → Inv n e pc
    → Move e p e' p'
    → pc i ≡ p
    → Inv n e' (update pc i p')
Move-Inv i lt inv (ask lp w) h = ask-Inv inv i lp w (Change-at inv i lt h _)
Move-Inv i lt inv test h = test-Inv inv i lt (Change-at inv i lt h _) (Change-at inv i lt h _)
Move-Inv i lt inv (wake w) h = wake-Inv inv i w (Change-at inv i lt h _)
Move-Inv i lt inv resume h = resume-Inv inv i lt (Change-at inv i lt h _)
Move-Inv i lt inv (work cell d a) h = work-Inv inv i cell d a (Change-at inv i lt h _)
Move-Inv i lt inv (give_back w) h = give_back-Inv inv i w (Change-at inv i lt h _)
Move-Inv i lt inv (leave r) h = leave-Inv inv i r (Change-at inv i lt h _)
