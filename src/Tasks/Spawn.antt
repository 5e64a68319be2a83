-- ===== src/Tasks/Spawn.antt =====
-- `spawn_tasks` where every task can be created.
use patriots_rtes.Prelude.{◌≡◌, [], ◌∷◌, ℤ, pos, ◌≤ℤ◌, ok, arith}
use patriots_rtes.Config.{
  atk_launcher_period, atk_launcher_prio, def_launcher_period, def_launcher_prio,
}
use patriots_rtes.Tasks.{
  display_manager_task, atk_launcher_task, def_launcher_task, create_param, create_prio,
  init_display_manager_params, launch_display_manager, launch_def_launcher, launch_atk_launcher,
  spawn_tasks,
}

-- The display is created first, then the launcher of the defenders and that of the attackers.
pub spawn_tasks_lem :
    (display defender attacker : ℤ)
    → pos 0 ≤ℤ display
    → pos 0 ≤ℤ defender
    → pos 0 ≤ℤ attacker
    → spawn_tasks display defender attacker
      ≡ ok (
          create_param display_manager_task init_display_manager_params
          ∷ create_prio def_launcher_task def_launcher_period def_launcher_prio
          ∷ create_prio atk_launcher_task atk_launcher_period atk_launcher_prio
          ∷ [])
unfolding spawn_tasks launch_display_manager launch_def_launcher launch_atk_launcher
spawn_tasks_lem display defender attacker a b c = ground (arith, a, b, c)
