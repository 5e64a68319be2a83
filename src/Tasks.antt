-- ===== src/Tasks.antt =====
-- The tasks that the program creates: their parameters in src/gestor.c and src/launchers.c, and
-- `spawn_tasks` of src/patriots.c. A call of ptask's `ptask_create_param` or `ptask_create_prio` is a
-- value, and what it returns, the number of the task or a negative number, is an argument.
pub mod Spawn
use patriots_rtes.Prelude.{
  ℕ, List, [], ◌∷◌, Option, none, some, ℤ, pos, leb_ℤ, Result, ok, ◌>>◌, ◌>>=◌, check,
}
use patriots_rtes.Config.{
  display_deadline, display_period, display_prio, atk_missile_deadline, atk_missile_period,
  atk_missile_prio, atk_launcher_period, atk_launcher_prio, def_missile_deadline,
  def_missile_period, def_missile_prio, def_launcher_period, def_launcher_prio,
}

-- The functions that run as tasks.
pub data TaskBody : Type 0 where
  display_manager_task : TaskBody
  atk_launcher_task : TaskBody
  def_launcher_task : TaskBody
  atk_thread_task : TaskBody
  def_thread_task : TaskBody

-- The fields of `tpars` that the program sets; times are in milliseconds, and a task starts `NOW`. A
-- missile that is passed is named by its index.
pub record TaskParams : Type 0 where
  pub deadline : ℕ
  pub period : ℕ
  pub priority : ℕ
  pub arg : Option ℕ

pub data TaskCall : Type 0 where
  create_param : TaskBody → TaskParams → TaskCall
  create_prio : TaskBody → ℕ → ℕ → TaskCall

-- `assert(task >= 0)` on what the creation returns.
abbrev pub created : ℤ → TaskCall → Result TaskCall
created task call = check (leb_ℤ (pos 0) task) >> ok call

pub init_display_manager_params : TaskParams
init_display_manager_params = record {
  deadline = display_deadline;
  period = display_period;
  priority = display_prio;
  arg = none;
}

pub launch_display_manager : ℤ → Result TaskCall
unfolding init_display_manager_params
launch_display_manager task =
    created task (create_param display_manager_task init_display_manager_params)

pub init_atk_params : ℕ → TaskParams
init_atk_params arg = record {
  deadline = atk_missile_deadline;
  period = atk_missile_period;
  priority = atk_missile_prio;
  arg = some arg;
}

unfoldable pub launch_atk_thread : ℕ → TaskCall
unfolding init_atk_params
launch_atk_thread missile = create_param atk_thread_task (init_atk_params missile)

pub launch_atk_launcher : ℤ → Result TaskCall
launch_atk_launcher task =
    created task (create_prio atk_launcher_task atk_launcher_period atk_launcher_prio)

pub init_def_params : ℕ → TaskParams
init_def_params arg = record {
  deadline = def_missile_deadline;
  period = def_missile_period;
  priority = def_missile_prio;
  arg = some arg;
}

unfoldable pub launch_def_thread : ℕ → TaskCall
unfolding init_def_params
launch_def_thread missile = create_param def_thread_task (init_def_params missile)

pub launch_def_launcher : ℤ → Result TaskCall
launch_def_launcher task =
    created task (create_prio def_launcher_task def_launcher_period def_launcher_prio)

-- The three calls, with what they return.
unfoldable pub spawn_tasks : ℤ → ℤ → ℤ → Result (List TaskCall)
unfolding launch_display_manager launch_atk_launcher launch_def_launcher
spawn_tasks display defender attacker = do
  first ← launch_display_manager display
  second ← launch_def_launcher defender
  third ← launch_atk_launcher attacker
  ok (first ∷ second ∷ third ∷ [])
