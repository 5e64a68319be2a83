-- ===== src/Access/Invariant/Defs.antt =====
-- What the threads and the counters of the environment say of each other, in every reachable state.
use patriots_rtes.Prelude.{ℕ, ◌+◌, ◌≤◌, ◌<◌, ◌≡◌, refl, ◌==◌, Bool, true, false, arith}
use patriots_rtes.Prelude.Tally.{tally, tally-zero}
use patriots_rtes.Config.{env_prios}
use patriots_rtes.Platform.{Semaphore}
use patriots_rtes.World.{Env}
use patriots_rtes.Access.Protocol.{Pc, outside, testing, blocked, woken, inside, leaving, IsFresh}

-- Past a semaphore that hands out the right to change the counters.
abbrev pub has_mutex : Pc → Bool
has_mutex (testing _) = true
has_mutex (woken _) = true
has_mutex (leaving _) = true
has_mutex _ = false

-- Between the return of `access_env` and the decrement in `release_env`.
abbrev pub uses_env : Pc → Bool
uses_env (inside _) = true
uses_env (leaving _) = true
uses_env _ = false

abbrev pub is_testing : Pc → Bool
is_testing (testing _) = true
is_testing _ = false

abbrev pub is_leaving : Pc → Bool
is_leaving (leaving _) = true
is_leaving _ = false

abbrev pub is_woken : Pc → Bool
is_woken (woken _) = true
is_woken _ = false

abbrev pub is_blocked : ℕ → Pc → Bool
is_blocked q (blocked p) = q == p
is_blocked q _ = false

-- Counted in `blk` of a priority.
abbrev pub waits : ℕ → Pc → Bool
waits q (blocked p) = q == p
waits q (woken p) = q == p
waits q _ = false

abbrev pub IsLegal : Pc → Type 0
IsLegal outside = Unit {0}
IsLegal (testing p) = p < env_prios
IsLegal (blocked p) = p < env_prios
IsLegal (woken p) = p < env_prios
IsLegal (inside p) = p < env_prios
IsLegal (leaving p) = p < env_prios

abbrev pub all_blk : {S : Type 0} → Env S → ℕ
all_blk e = (e.prio_sem 0).blk + (e.prio_sem 1).blk + (e.prio_sem 2).blk

module _ {S : Type 0} ⦃s : Semaphore S⦄ where
  open s use {value}

  abbrev pub posted : Env S → ℕ → ℕ
  posted e q = value (e.prio_sem q).sem

  -- The hand-overs under way: posts on a priority's semaphore that nobody has taken.
  abbrev pub handed : Env S → ℕ
  handed e = posted e 0 + posted e 1 + posted e 2

  pub record Inv (n : ℕ) (e : Env S) (pc : ℕ → Pc) : Type 0 where
    pub legal : (i : ℕ) → IsLegal (pc i)
    pub one_mutex : value e.mutex + handed e + tally has_mutex n pc ≡ 1
    pub counted : e.count ≡ tally uses_env n pc
    pub alone : e.count ≤ 1
    pub blk_counts : (q : ℕ) → q < env_prios → (e.prio_sem q).blk ≡ tally (waits q) n pc
    pub post_taken : (q : ℕ) → q < env_prios → posted e q ≤ tally (is_blocked q) n pc
    pub handed_free : 1 ≤ handed e + tally is_woken n pc → e.count ≡ 0
    pub nobody_forgotten : 1 ≤ value e.mutex + tally is_testing n pc → e.count ≡ 0 → all_blk e ≡ 0

  pub Inv-init : (n : ℕ) (e : Env S) → IsFresh e → Inv n e (λ _. outside)
  Inv-init n e f = record {
    legal = λ i. tt;
    one_mutex = omega (
      arith,
      f.mutex_free,
      f.none_posted 0 (omega arith),
      f.none_posted 1 (omega arith),
      f.none_posted 2 (omega arith),
      tally-zero has_mutex n (λ _. outside) (λ i. refl),
    );
    counted = omega (arith, f.nobody_in, tally-zero uses_env n (λ _. outside) (λ i. refl));
    alone = omega (arith, f.nobody_in);
    blk_counts = λ q lt.
        omega (arith, f.none_blocked q lt, tally-zero (waits q) n (λ _. outside) (λ i. refl));
    post_taken = λ q lt. omega (arith, f.none_posted q lt);
    handed_free = λ _. f.nobody_in;
    nobody_forgotten = λ _ _. omega (
      arith,
      f.none_blocked 0 (omega arith),
      f.none_blocked 1 (omega arith),
      f.none_blocked 2 (omega arith),
    );
  }
