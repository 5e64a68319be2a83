-- ===== src/Trajectory/Asserts.antt =====
-- The faults of the samples are failed assertions: no access of theirs is out of bounds.
use patriots_rtes.Prelude.{
  ℕ, zero, suc, ◌+◌, ◌≡◌, ◌-◌, if◌then◌else◌, Bool, true, false, not, pos, ◌==ℤ◌, Result, ok, err,
  Fault, assertion_failed, ◌>>=◌, ◌>>◌, check, arith, ap,
}
use patriots_rtes.Config.{sample_limit}
use patriots_rtes.Platform.{Floating}
use patriots_rtes.World.{Pos}
use patriots_rtes.Trajectory.{calc_speed}
use patriots_rtes.Trajectory.Sampling.{
  Reading, is_zero, goes_on, sample_loop, collect_positions, predicted, get_start_x_position,
}

-- A fault of it is a failed assertion.
abbrev pub OnlyAsserts : {A : Type 0} → Result A → Type 0
OnlyAsserts {A} r = (e : Fault) → r ≡ err e → e ≡ assertion_failed

ok-OnlyAsserts : {A : Type 0} (a : A) → OnlyAsserts (ok a)
ok-OnlyAsserts a e h = cc

bind-OnlyAsserts :
    {A B : Type 0} (first : Result A) (next : A → Result B)
    → OnlyAsserts first
    → ((a : A) → OnlyAsserts (next a))
    → OnlyAsserts (first >>= next)
bind-OnlyAsserts (err f) next one rest e h =
    one e (let same : f ≡ e = cc in ap (λ (g : Fault). err g) same)
bind-OnlyAsserts (ok a) next one rest e h = rest a e h

then-OnlyAsserts :
    {A : Type 0} (b : Bool) (next : Result A) → OnlyAsserts next → OnlyAsserts (check b >> next)
then-OnlyAsserts true next rest e h = rest e h
then-OnlyAsserts false next rest e h = cc

if-OnlyAsserts :
    {A : Type 0} (b : Bool) (r q : Result A)
    → OnlyAsserts r
    → OnlyAsserts q
    → OnlyAsserts (if b then r else q)
if-OnlyAsserts true r q hr hq = hr
if-OnlyAsserts false r q hr hq = hq

module _ {F D : Type 0} (fl : Floating F D) where
  open fl use {of_int}

  calc_speed-OnlyAsserts : (a b : Pos) (dt : F) → OnlyAsserts (calc_speed fl a b dt)
  unfolding calc_speed
  calc_speed-OnlyAsserts a b dt e h = ground arith

  sample_loop-OnlyAsserts :
      (readings : ℕ → Reading) (start : Reading) (rounds i : ℕ) (speed_a : F)
      → OnlyAsserts (sample_loop fl rounds readings start i speed_a)
  unfolding sample_loop
  sample_loop-OnlyAsserts readings start zero i speed_a =
      bind-OnlyAsserts _ _ (calc_speed-OnlyAsserts _ _ _) (λ v. ok-OnlyAsserts _)
  sample_loop-OnlyAsserts readings start (suc rounds) i speed_a =
      bind-OnlyAsserts _ _ (calc_speed-OnlyAsserts _ _ _) (λ v.
        if-OnlyAsserts (goes_on fl (i + 1) speed_a v) _ _
          (sample_loop-OnlyAsserts readings start rounds (i + 1) v) (ok-OnlyAsserts _))

  -- The assertions of the samples are the only faults.
  pub get_start_x_position-OnlyAsserts :
      (start : Reading) (readings : ℕ → Reading)
      → OnlyAsserts (get_start_x_position fl start readings)
  unfolding get_start_x_position collect_positions predicted
  get_start_x_position-OnlyAsserts start readings =
      bind-OnlyAsserts _ _
        (sample_loop-OnlyAsserts readings start (sample_limit - 1) 0 (of_int (pos 0)))
        (λ c. then-OnlyAsserts (not (is_zero fl c.dt)) _ (
          if-OnlyAsserts (not (start.place.x ==ℤ c.pos_b.x)) _ _
            (bind-OnlyAsserts _ _ (calc_speed-OnlyAsserts _ _ _) (λ v. ok-OnlyAsserts _))
            (ok-OnlyAsserts _)))
