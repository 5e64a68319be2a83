-- ===== src/Tracking/Tests.antt =====
-- Tests of the search for targets: a screen with red pixels, under which missiles stand.
use patriots_rtes.Prelude.{
  ℕ, ◌<◌, ◌≡◌, refl, ◌⊎◌, ◌==◌, if◌then◌else◌, Bool, true, false, ◌&&◌, ◌||◌, pos, negsuc, ok, err,
}
use patriots_rtes.Config.{xwin, ywin, attacker_color}
use patriots_rtes.Platform.{counting}
use patriots_rtes.World.{atk_missile, def_missile, Cell, Missile, attacker, World}
use patriots_rtes.Fifo.{init_queue}
use patriots_rtes.Grid.{init_cell_empty}
use patriots_rtes.Tracking.{not_found, search_screen_for_target, scan_env_for_target_pos}
use patriots_rtes.Tracking.Position.{HasTarget, FirstAt, scan_env_for_target_pos_lem}
use patriots_rtes.Tracking.Search.{NoneInRows, FirstMarked, search_screen_for_target_lem}

abbrev still : Missile ℕ ℕ
still = record {
  x = pos 2;
  y = pos 0;
  partial_x = 2;
  partial_y = 0;
  angle = 1;
  speed = 50;
  index = pos 3;
  deleted = false;
  assigned_target = negsuc 0;
  mutex = 1;
  missile_type = attacker;
}

-- The attacker with index 3 stands at (2, 0), a defender at (5, 0).
abbrev field : ℕ → ℕ → Cell
field x y =
    if x == 2 && y == 0
    then record { type = atk_missile; value = pos 3; target = negsuc 0 }
    else (if x == 5 && y == 0
        then record { type = def_missile; value = pos 1; target = negsuc 0 }
        else init_cell_empty)

abbrev world : World ℕ ℕ
world = record {
  env = record {
    cell = field;
    def_points = 0;
    atk_points = 0;
    count = 1;
    prio_sem = λ p. record { sem = 0; count = 0; blk = 0 };
    mutex = 1;
  };
  atk_gestor = record { queue = λ k. still; gestor = init_queue (λ i. pos 0) };
  def_gestor = record { queue = λ k. still; gestor = init_queue (λ i. pos 0) };
}

abbrev screen : ℕ → ℕ → ℕ
screen x y = if y == 0 && (x == 2 || x == 5) then attacker_color else 0

-- The result of a search for target 1.
abbrev found : World ℕ ℕ × Bool
found = elim (search_screen_for_target screen (pos 1) world) [ ok p ↦ p | err e ↦ (world, false) ]

search_screen_for_target_example :
    (found.1 ≡ false) × (found.0 ≡ world) × NoneInRows screen world 0 ywin
    ⊎ (found.1 ≡ true) × FirstMarked screen (pos 1) world found.0 0 ywin
unfolding search_screen_for_target
search_screen_for_target_example =
    search_screen_for_target_lem screen (pos 1) world found.0 found.1 refl

scan_env_for_target_pos_example :
    (scan_env_for_target_pos (pos 1) found.0 ≡ not_found)
      × ((a b : ℕ) → a < xwin → b < ywin → ¬ HasTarget (pos 1) found.0 a b)
    ⊎ FirstAt (pos 1) found.0 0 xwin (scan_env_for_target_pos (pos 1) found.0)
scan_env_for_target_pos_example = scan_env_for_target_pos_lem (pos 1) found.0
