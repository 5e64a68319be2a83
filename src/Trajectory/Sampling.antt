-- ===== src/Trajectory/Sampling.antt =====
-- The samples of a target in src/launchers.c: `calc_dt`, `collect_positions` and `get_start_x_position`.
-- What the scans and the clock return is an argument: a sequence of positions and times.
use patriots_rtes.Prelude.{
  ℕ, zero, suc, ◌+◌, ◌≤◌, ◌≡◌, refl, ◌-◌, ltb, if◌then◌else◌, Bool, true, false, not, ◌&&◌, ◌||◌, ℤ,
  pos, ◌-ℤ◌, ◌==ℤ◌, Result, ok, ◌>>=◌, >>=-eq-ok, ◌>>◌, check, arith, ◌<◌, subst, Bool-cases, inl,
  inr, ap, ◌∙◌, ==ℤ_iff,
}
use patriots_rtes.Config.{nanosecond_to_seconds, sample_limit, min_samples}
use patriots_rtes.Platform.{Floating}
use patriots_rtes.World.{Pos}
use patriots_rtes.Trajectory.{
  Timespec, get_line_m, get_line_b, calc_speed, get_expected_position_x, above_epsilon,
}

-- What a round reads: the position of the target and the clock.
pub record Reading : Type 0 where
  pub place : Pos
  pub time : Timespec

module _ {F D : Type 0} (fl : Floating F D) where
  open fl use {of_int, le, lt, widen, narrow, double_of_int, double_add, double_div}

  pub calc_dt : Timespec → Timespec → F
  calc_dt t_start t_end = narrow (
      double_add (widen (of_int (t_end.tv_sec -ℤ t_start.tv_sec))) (
        double_div (double_of_int (t_end.tv_nsec -ℤ t_start.tv_nsec))
          (double_of_int (pos nanosecond_to_seconds))))

  abbrev pub is_zero : F → Bool
  is_zero a = le a (of_int (pos 0)) && le (of_int (pos 0)) a

  -- `pos_b`, `dt` and `i` at the end of `collect_positions`.
  pub record Collected : Type 0 where
    pub pos_b : Pos
    pub dt : F
    pub i : ℕ

  -- The condition of the `do` loop.
  abbrev pub goes_on : ℕ → F → F → Bool
  goes_on i speed_a speed_b =
      ltb i sample_limit
      && (above_epsilon fl speed_b speed_a || ltb i min_samples || is_zero speed_b)

  -- The loop from round `i` on, with at most a number of rounds after it; `speed_b` is the last speed.
  unfoldable pub sample_loop : ℕ → (ℕ → Reading) → Reading → ℕ → F → Result Collected
  unfolding calc_dt
  sample_loop zero readings start i speed_a =
      let r = readings i in
      let dt = calc_dt start.time r.time in
      calc_speed fl start.place r.place dt >>= λ speed_b.
      ok (record { pos_b = r.place; dt = dt; i = i + 1 })
  sample_loop (suc rounds) readings start i speed_a =
      let r = readings i in
      let dt = calc_dt start.time r.time in
      calc_speed fl start.place r.place dt >>= λ speed_b.
      let rest = sample_loop rounds readings start (i + 1) speed_b in
      if goes_on (i + 1) speed_a speed_b
      then rest
      else ok (record { pos_b = r.place; dt = dt; i = i + 1 })

  -- The first reading is the start.
  unfoldable pub collect_positions : Reading → (ℕ → Reading) → Result Collected
  unfolding sample_loop
  collect_positions start readings =
      sample_loop (sample_limit - 1) readings start 0 (of_int (pos 0))

  -- The prediction, where x changes.
  unfoldable pub predicted : Pos → Pos → F → Result ℤ
  predicted pos_a pos_b dt = calc_speed fl pos_a pos_b dt >>= λ speed.
      let m = get_line_m fl pos_a pos_b in
      ok (
        get_expected_position_x fl (record { m = m; b = get_line_b fl m pos_a; speed = speed })
          pos_b)

  unfoldable pub get_start_x_position : Reading → (ℕ → Reading) → Result ℤ
  unfolding collect_positions predicted
  get_start_x_position start readings = collect_positions start readings >>= λ c.
      check (not (is_zero c.dt))
      >> (if not (start.place.x ==ℤ c.pos_b.x)
          then predicted start.place c.pos_b c.dt
          else ok start.place.x)

  -- What a collection has read: its position and its time are those of the last of its rounds, of which
  -- there are enough and not too many, and the time is positive.
  pub record Sampled (readings : ℕ → Reading) (start : Reading) (c : Collected) : Type 0 where
    pub last : ℕ
    pub count : c.i ≡ last + 1
    pub enough : min_samples ≤ c.i
    pub not_more : c.i ≤ sample_limit
    pub place : c.pos_b ≡ (readings last).place
    pub time : c.dt ≡ calc_dt start.time (readings last).time
    pub positive : lt (of_int (pos 0)) c.dt ≡ true

  calc_speed-positive :
      (a b : Pos) (dt v : F) → calc_speed fl a b dt ≡ ok v → lt (of_int (pos 0)) dt ≡ true
  unfolding calc_speed
  calc_speed-positive a b dt v h = ground arith

  module _ (readings : ℕ → Reading) (start : Reading) where
    abbrev dt_at : ℕ → F
    dt_at i = calc_dt start.time (readings i).time

    abbrev stop_at : ℕ → Collected
    stop_at i = record { pos_b = (readings i).place; dt = dt_at i; i = i + 1 }

    stop_at-Sampled :
        (i : ℕ) (c : Collected)
        → min_samples ≤ i + 1
        → i + 1 ≤ sample_limit
        → lt (of_int (pos 0)) (dt_at i) ≡ true
        → ◌≡◌ {A = Result Collected} (ok (stop_at i)) (ok c)
        → Sampled readings start c
    stop_at-Sampled i c enough few positive e =
        let same : stop_at i ≡ c = cc in
        subst (λ k. Sampled readings start k) same
          (record {
            last = i;
            count = refl;
            enough = enough;
            not_more = few;
            place = refl;
            time = refl;
            positive = positive;
          })

    sample_loop-Sampled :
        (rounds i : ℕ) (speed_a : F) (c : Collected)
        → i + rounds + 1 ≡ sample_limit
        → sample_loop rounds readings start i speed_a ≡ ok c
        → Sampled readings start c
    unfolding sample_loop
    sample_loop-Sampled zero i speed_a c e h =
        let (v, speed, done) =
          >>=-eq-ok (calc_speed fl start.place (readings i).place (dt_at i)) _ h in
        stop_at-Sampled i c (omega arith) (omega arith)
          (calc_speed-positive start.place (readings i).place (dt_at i) v speed) done
    sample_loop-Sampled (suc rounds) i speed_a c e h =
        let (v, speed, done) =
          >>=-eq-ok (calc_speed fl start.place (readings i).place (dt_at i)) _ h in
        elim (Bool-cases (goes_on (i + 1) speed_a v)) [
          | inl more ↦ sample_loop-Sampled rounds (i + 1) v c (omega arith) (rw more at done)
          | inr stop ↦
              stop_at-Sampled i c (stop_enough (i + 1) speed_a v stop (omega arith)) (omega arith)
                (calc_speed-positive start.place (readings i).place (dt_at i) v speed)
                (rw stop at done)
        ]
      where
        stop_enough : (k : ℕ) (a b : F) → goes_on k a b ≡ false → k < sample_limit → min_samples ≤ k
        stop_enough k a b h lt_k = ground arith

    -- A collection that returns has taken at least MIN_SAMPLES and at most SAMPLE_LIMIT samples, returns
    -- the position and the time of the last, and that time is positive.
    pub collect_positions-Sampled :
        (c : Collected) → collect_positions start readings ≡ ok c → Sampled readings start c
    unfolding collect_positions
    collect_positions-Sampled c h =
        sample_loop-Sampled (sample_limit - 1) 0 (of_int (pos 0)) c (omega arith) h

  -- Where a target has the same x in every scan, that x is the start, and nothing is predicted.
  pub get_start_x_position-still :
      (start : Reading) (readings : ℕ → Reading) (at x : ℤ)
      → start.place.x ≡ at
      → ((i : ℕ) → (readings i).place.x ≡ at)
      → get_start_x_position start readings ≡ ok x
      → x ≡ at
  unfolding get_start_x_position
  get_start_x_position-still start readings at x first all h =
      let (c, collected, rest) = >>=-eq-ok (collect_positions start readings) _ h in
      let seen = collect_positions-Sampled readings start c collected in
      last_step start.place.x c.pos_b.x (is_zero c.dt) (predicted start.place c.pos_b c.dt) first
        (ap (λ (p : Pos). p.x) seen.place ∙ all seen.last) rest
    where
      last_step :
          (a b : ℤ) (zero_dt : Bool) (q : Result ℤ)
          → a ≡ at
          → b ≡ at
          → ◌≡◌ {A = Result ℤ} (check (not zero_dt) >> (if not (a ==ℤ b) then q else ok a)) (ok x)
          → x ≡ at
      last_step a b zero_dt q ea eb e = ground (arith, ==ℤ_iff a b)
