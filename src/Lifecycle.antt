-- ===== src/Lifecycle.antt =====
-- The missiles of src/launchers.c from their launch to their end: how a structure is filled, moved and
-- cleared, and the start of a defender. A random number and a reading of the clock are arguments.
pub mod Rounds
use patriots_rtes.Prelude.{
  ℕ, zero, suc, ◌+◌, ◌-◌, ◌==◌, ltb, if◌then◌else◌, update, Bool, true, false, not, ◌&&◌, ◌||◌, ℤ,
  pos, negsuc, ◌-ℤ◌, ◌==ℤ◌, Result, ok, err, ◌>>=◌, ◌>>◌, check,
}
use patriots_rtes.Config.{
  xwin, wall_thickness, missile_radius, max_missiles, none_index, min_atk_speed, max_atk_speed,
  max_atk_angle, def_missile_start_y, def_missile_speed, sample_limit, min_samples, epsilon,
  delta_factor,
}
use patriots_rtes.Platform.{Semaphore, Floating}
use patriots_rtes.World.{
  Pos, MissileType, attacker, defender, Missile, FifoQueueGestor, MissileGestor, World,
}
use patriots_rtes.Fifo.{init_queue, splice_index}
use patriots_rtes.Collision.{update_missile_env}
use patriots_rtes.Trajectory.{
  Trajectory, Timespec, get_line_m, get_line_b, calc_speed, get_expected_position_x, above_epsilon,
}

module _ {F D : Type 0} (fl : Floating F D) where
  open fl use {of_int, add, sub, mul, div}

  -- `frand` on the quotient `rand() / RAND_MAX`.
  unfoldable pub frand : F → F → F → F
  frand r low high = add low (mul (sub high low) r)

  -- `get_deltatime` on the period of the task.
  unfoldable pub get_deltatime : ℤ → F
  get_deltatime period = div (of_int period) (of_int (pos delta_factor))

module _ {F D S : Type 0} (fl : Floating F D) ⦃s : Semaphore S⦄ where
  open fl use {
    of_int, add, sub, mul, div, to_int, widen, narrow, double_of_int, double_add, double_mul,
    double_div, pi, cos, sin, lt,
  }
  open s use {sem_init}

  -- The type of the missile stays what it was.
  unfoldable pub init_empty_missile : Missile F S → Missile F S
  init_empty_missile missile = record {
    x = pos 0;
    y = pos 0;
    partial_x = of_int (pos 0);
    partial_y = of_int (pos 0);
    angle = of_int (pos 0);
    speed = of_int (pos 0);
    index = none_index;
    deleted = false;
    assigned_target = none_index;
    mutex = sem_init 1;
    missile_type = missile.missile_type;
  }

  -- The loop of `init_missiles_gestor` with a number of rounds to go.
  pub init_missiles : ℕ → (ℕ → Missile F S) → ℕ → Missile F S
  unfolding init_empty_missile
  init_missiles zero queue = queue
  init_missiles (suc rounds) queue =
      let i = max_missiles - suc rounds in
      init_missiles rounds (update queue i (init_empty_missile (queue i)))

  unfoldable pub init_missiles_gestor : MissileGestor F S → MissileGestor F S
  unfolding init_missiles
  init_missiles_gestor m_gestor = record {
    queue = init_missiles max_missiles m_gestor.queue;
    gestor = init_queue m_gestor.gestor.next;
  }

  -- `clear_missile` after its `sem_wait`.
  unfoldable pub clear_missile :
      Missile F S → FifoQueueGestor S → Result (Missile F S × FifoQueueGestor S)
  unfolding init_empty_missile
  clear_missile missile gestor =
      splice_index gestor missile.index >>= λ g. ok (init_empty_missile missile, g)

  unfoldable pub move_missile : Missile F S → F → Missile F S
  move_missile missile deltatime =
      let angle_rad =
        narrow (double_mul (widen missile.angle) (double_div pi (double_of_int (pos 180)))) in
      let dx = narrow (double_mul (widen missile.speed) (cos (widen angle_rad))) in
      let dy = narrow (double_mul (widen missile.speed) (sin (widen angle_rad))) in
      let px = add missile.partial_x (mul dx deltatime) in
      let py = add missile.partial_y (mul dy deltatime) in
      record missile { partial_x = px; partial_y = py; x = to_int px; y = to_int py }

  -- `set_random_start` on the three random quotients that it draws.
  unfoldable pub set_random_start : F → F → F → Missile F S → Missile F S
  unfolding frand
  set_random_start rx rs ra missile =
      let px = of_int (to_int (frand fl rx (of_int (pos 0)) (of_int (pos xwin)))) in
      let py = of_int (pos (wall_thickness + missile_radius + 1)) in
      record missile {
        partial_x = px;
        partial_y = py;
        speed = frand fl rs (of_int (pos min_atk_speed)) (of_int (pos max_atk_speed));
        angle = frand fl ra (of_int (pos max_atk_angle)) (of_int (pos (180 - max_atk_angle)));
        x = to_int px;
        y = to_int py;
      }

  unfoldable pub init_atk_missile : F → F → F → ℤ → Missile F S → Missile F S
  unfolding set_random_start init_empty_missile
  init_atk_missile rx rs ra index missile =
      set_random_start rx rs ra
        (record (init_empty_missile missile) { index = index; missile_type = attacker })

  unfoldable pub init_def_missile : ℤ → Missile F S → Missile F S
  unfolding init_empty_missile
  init_def_missile index missile = record (init_empty_missile missile) {
    index = index;
    missile_type = defender;
  }

  unfoldable pub set_missile_trajectory : ℤ → Missile F S → Missile F S
  set_missile_trajectory start_x missile = record missile {
    y = pos def_missile_start_y;
    partial_y = of_int (pos def_missile_start_y);
    x = start_x;
    partial_x = of_int start_x;
    angle = of_int (pos 90);
    speed = of_int (negsuc (def_missile_speed - 1));
  }

  -- One round of `task_missile_movement` up to `ptask_wait_for_period`: the missile moves, and the
  -- environment is updated while the thread has it.
  unfoldable pub movement_round :
      F → Missile F S → World F S → Missile F S × Result (World F S × Bool)
  unfolding move_missile
  movement_round deltatime missile w =
      let moved = move_missile missile deltatime in
      (moved, update_missile_env moved missile.x missile.y w)
