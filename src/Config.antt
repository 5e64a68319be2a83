-- ===== src/Config.antt =====
-- The constants of src/patriots.h, src/gestor.h and src/launchers.h. A floating constant stands here
-- where IEEE arithmetic makes it a whole number: `YWIN * 0.8` is 384, `MAX_ATK_SPEED * 0.3` is 30, and
-- `RECT_W` is 10 after the cast.
use patriots_rtes.Prelude.{ℕ, ◌+◌, ◌-◌, ◌*◌, ◌/◌, ℤ, negsuc}

-- patriots.h
abbrev pub delta_factor : ℕ
delta_factor = 1000

abbrev pub none_index : ℤ
none_index = negsuc 0

abbrev pub missile_radius : ℕ
missile_radius = 5

-- `N`
abbrev pub max_missiles : ℕ
max_missiles = 4

abbrev pub nanosecond_to_seconds : ℕ
nanosecond_to_seconds = 1000000000

abbrev pub info_len : ℕ
info_len = 150

-- gestor.h: access to the environment
abbrev pub env_prios : ℕ
env_prios = 3

abbrev pub low_env_prio : ℕ
low_env_prio = 2

abbrev pub middle_env_prio : ℕ
middle_env_prio = 1

abbrev pub high_env_prio : ℕ
high_env_prio = 0

abbrev pub empty_cell : ℤ
empty_cell = negsuc 0

abbrev pub other_cell : ℤ
other_cell = negsuc 1

-- gestor.h: the display
abbrev pub refresh_rate : ℕ
refresh_rate = 60

abbrev pub display_period : ℕ
display_period = 1000 / refresh_rate

abbrev pub display_prio : ℕ
display_prio = 3

abbrev pub display_deadline : ℕ
display_deadline = display_period

abbrev pub xwin : ℕ
xwin = 640

abbrev pub ywin : ℕ
ywin = 480

abbrev pub wall_thickness : ℕ
wall_thickness = 2

abbrev pub goal_start_y : ℕ
goal_start_y = ywin * 8 / 10

abbrev pub bkg_color : ℕ
bkg_color = 0

abbrev pub wall_color : ℕ
wall_color = 6

abbrev pub goal_color : ℕ
goal_color = 10

abbrev pub label_color : ℕ
label_color = 14

abbrev pub attacker_color : ℕ
attacker_color = 4

abbrev pub defender_color : ℕ
defender_color = 11

abbrev pub tutorial_y : ℕ
tutorial_y = 10

abbrev pub label_len : ℕ
label_len = 30

abbrev pub rect_h : ℕ
rect_h = 8

abbrev pub rect_w : ℕ
rect_w = rect_h * xwin / ywin

abbrev pub legend_x : ℕ
legend_x = xwin - 120

abbrev pub legend_y : ℕ
legend_y = tutorial_y + 20

abbrev pub label_h : ℕ
label_h = 10

abbrev pub label_x : ℕ
label_x = 10

abbrev pub get_y_label : ℕ → ℕ
get_y_label s = ywin - s * label_h

abbrev pub spacing : ℕ
spacing = 2

-- launchers.h
abbrev pub max_atk_speed : ℕ
max_atk_speed = 100

abbrev pub min_atk_speed : ℕ
min_atk_speed = max_atk_speed * 3 / 10

abbrev pub max_atk_angle : ℕ
max_atk_angle = 30

abbrev pub atk_sleep_delay : ℕ
atk_sleep_delay = 500 * 1000 * 1000

abbrev pub atk_launcher_period : ℕ
atk_launcher_period = 60

abbrev pub atk_launcher_prio : ℕ
atk_launcher_prio = 1

abbrev pub atk_missile_prio : ℕ
atk_missile_prio = 2

abbrev pub atk_missile_period : ℕ
atk_missile_period = 10

abbrev pub atk_missile_deadline : ℕ
atk_missile_deadline = atk_missile_period

abbrev pub def_missile_start_y : ℕ
def_missile_start_y = goal_start_y - missile_radius - 1

abbrev pub def_missile_speed : ℕ
def_missile_speed = 130

abbrev pub def_sleep_delay : ℕ
def_sleep_delay = 50 * 1000 * 1000

abbrev pub def_launcher_period : ℕ
def_launcher_period = 40

abbrev pub def_launcher_prio : ℕ
def_launcher_prio = 1

abbrev pub def_missile_prio : ℕ
def_missile_prio = 2

abbrev pub def_missile_period : ℕ
def_missile_period = 15

abbrev pub def_missile_deadline : ℕ
def_missile_deadline = def_missile_period

abbrev pub trajectory_precision : ℕ
trajectory_precision = 50

abbrev pub sample_limit : ℕ
sample_limit = 2 * trajectory_precision

abbrev pub min_samples : ℕ
min_samples = sample_limit / 5

-- An integer division in the source too.
abbrev pub epsilon : ℕ
epsilon = 1 / trajectory_precision
