-- ===== src/Access/Invariant/Counts.antt =====
-- How the tallies of the access protocol bound one another.
use patriots_rtes.Config.{env_prios}
use patriots_rtes.World.{Env}
use patriots_rtes.Access.{access_lock}
use patriots_rtes.Prelude.{true, ℕ, zero, suc, ◌+◌, ◌≤◌, ◌<◌, ◌≡◌, refl, arith}
use patriots_rtes.Prelude.Tally.{tally, bit}
use patriots_rtes.Access.Protocol.{Pc, outside, blocked, woken}
use patriots_rtes.Access.Invariant.Defs.{
  has_mutex, uses_env, is_testing, is_woken, is_blocked, is_leaving, waits, all_blk,
}

mutex_bit :
    (p : Pc) → bit (is_woken p) + bit (is_testing p) + bit (is_leaving p) ≡ bit (has_mutex p)
mutex_bit outside = refl
mutex_bit _ = refl

-- Who has the mutex has been woken, is testing or leaves.
pub has_mutex-split :
    (n : ℕ) (pc : ℕ → Pc)
    → tally is_woken n pc + tally is_testing n pc + tally is_leaving n pc ≡ tally has_mutex n pc
unfolding tally
has_mutex-split zero pc = refl
has_mutex-split (suc n) pc = omega (arith, mutex_bit (pc n), has_mutex-split n pc)

leaving_bit : (p : Pc) → bit (is_leaving p) ≤ bit (uses_env p)
leaving_bit outside = omega arith
leaving_bit _ = omega arith

pub leaving-le-uses_env : (n : ℕ) (pc : ℕ → Pc) → tally is_leaving n pc ≤ tally uses_env n pc
unfolding tally
leaving-le-uses_env zero pc = omega arith
leaving-le-uses_env (suc n) pc = omega (arith, leaving_bit (pc n), leaving-le-uses_env n pc)

bit-waits : (q : ℕ) (p : Pc) → bit (waits q p) ≤ bit (is_blocked q p) + bit (is_woken p)
bit-waits q outside = omega arith
bit-waits q (blocked p) = omega arith
bit-waits q (woken p) = ground arith
bit-waits q _ = omega arith

-- Who is counted in `blk` is blocked or has been woken.
pub waits-split :
    (q n : ℕ) (pc : ℕ → Pc) → tally (waits q) n pc ≤ tally (is_blocked q) n pc + tally is_woken n pc
unfolding tally
waits-split q zero pc = omega arith
waits-split q (suc n) pc = omega (arith, bit-waits q (pc n), waits-split q n pc)

-- A lock that a test finds set is a blocked thread.
pub access_lock-blk :
    {S : Type 0} (e : Env S) (prio : ℕ)
    → prio < env_prios
    → access_lock e.prio_sem prio ≡ true
    → 1 ≤ all_blk e
unfolding access_lock
access_lock-blk e zero lt h = ground arith
access_lock-blk e (suc zero) lt h = ground arith
access_lock-blk e (suc (suc zero)) lt h = ground arith
access_lock-blk e (suc (suc (suc p))) lt h = absurd (omega arith)
