-- ===== src/Lib.antt =====
-- PatriotsRTES: attackers fall towards a goal and defenders are launched to hit them. Every missile is
-- a thread that moves itself on a shared grid of cells; two launchers hand out the missiles' indices.
--
-- Which file models what (paths from the repository's root):
--   Prelude      Boolean tests, integers, bounded array accesses, results that may fault, counting
--   Config       the constants of src/patriots.h, src/gestor.h and src/launchers.h
--   Platform     the parameters: POSIX semaphores (`Semaphore`) and floating point (`Floating`)
--   World        the structures: cells, the environment, missiles, the queue of indices
--   Access       `access_env` and `release_env` of src/gestor.c; Access/Protocol has any number of
--                threads that take moves between two semaphore calls, and Access/Sessions and
--                Access/Serial what they do to the environment between a grant and its release
--   Fifo         `fifo_queue_gestor_t` of src/launchers.c: free and requested indices as two linked
--                lists in one array; Fifo/Protocol has the threads that use it
--   Grid         `init_env` and the tests on one cell in src/gestor.c
--   Collision    from `update_missile_env` to `handle_collision` in src/gestor.c, with
--                `delete_atk_missile` and `delete_def_missile` of src/launchers.c
--   Tracking     `check_pixel`, `search_screen_for_target` and `scan_env_for_target_pos` of
--                src/gestor.c, `is_already_tracked` and `assign_target_to_atk` of src/launchers.c
--   Trajectory   the prediction of a defender's start in src/launchers.c, down from
--                `get_start_x_position`; Trajectory/Sampling has its samples
--   Lifecycle    the structures of missiles in src/launchers.c: filled, moved and cleared
--   Display      `display_manager` of src/gestor.c down to `draw_cell`, and `display_init`, as lists of
--                Allegro's calls; Display/Texts has the strings that `sprintf` writes to the
--                buffers of LABEL_LEN and INFO_LEN bytes, Display/Scores where they appear
--   Tasks        the creation of the tasks: `spawn_tasks` of src/patriots.c, and the parameters in
--                src/gestor.c and src/launchers.c
--   Movement     `task_missile_movement`, `atk_thread` and `def_thread` of src/launchers.c
--   Launchers    `init_launchers`, `atk_launcher` and `def_launcher` of src/launchers.c;
--                Launchers/Starts, Waits, Loops and DefLoop follow their loops until the flag is set
--   Main         `init` and `main` of src/patriots.c, and `init_gestor` of src/gestor.c
--   System       the threads together: the steps of the others while one missile flies, and
--                System/Whole with the moves of the whole program, whose premises are the code's own
--                equations, and with the flag `end` in the state: every index of a queue has a phase,
--                and System/Ghosts follows the missiles' cells; a defender starts in the window there,
--                and an attacker left of its right border
--
-- How they interact: `main` (Main) sets everything up, creates the tasks (Tasks) and requests an attacker
-- for each SPACE (Fifo); the launcher of attackers then wakes, fills the structure of the requested index
-- (Lifecycle) and creates its thread (Launchers, Movement). A missile's thread takes the
-- environment (Access), updates its position (Collision), and gives the environment back. A collision
-- marks a missile as deleted; its thread then returns its index to the queue (Fifo). The launcher of
-- defenders takes an index and looks for a target (Tracking); the thread of the defender follows it and
-- predicts where to start (Trajectory). The display draws the cells (Display), and the search for targets
-- reads the screen.
--
-- Conventions: state is passed explicitly. An `assert` or an access out of bounds gives an error
-- (`Result`). A C `int` that is an index, a coordinate or a cell's value is an integer; a counter that
-- only counts threads is a natural number, and no decrement meets a zero. Coordinates and counters stay
-- far below 2 ^ 31. A loop has the number of its rounds as an argument: XWIN and YWIN for the grid, N
-- for the missiles, ENV_PRIOS for the loop of `release_env`, which visits each priority once at most,
-- and SAMPLE_LIMIT for the bisection and for the samples, whose own counters end them.
--
-- Parameters: semaphores count; a wait returns on a positive value and lowers it, a post raises it.
-- Floating point has an order that is transitive, conversions that keep it, and a midpoint between its
-- arguments in the range of the screen. `getpixel` is any function. A random quotient and a reading of
-- the clock are arguments.
--
-- The loops of the threads, of the launchers, of the display and of `main` run on fuel. A missile's loop
-- ends within as many rounds as moves take the missile out of the window, or by the flag `end`; that of
-- `main` in the round of the first ESC, and that of a launcher by the flag, so that this fuel is enough.
-- What the other threads do between two rounds, or while a thread waits, is an argument: any function of
-- the world, with what is relied on as a hypothesis, which System derives for the threads of the
-- missiles. That an index is there when a launcher wakes is what the queue's protocol hands over with
-- the mutex (Launchers/Wakes).
--
-- Not modelled: ptask (include and lib), which is another project's library: the creation of a
-- task is a value with its parameters, and the end of a period is the end of a round. Of Allegro the
-- calls are values. The messages on `stderr` of the threads are left out, and so is the time that a
-- launcher sleeps, which is the constant that it passes to `nanosleep`.
pub mod Prelude
pub mod Config
pub mod Platform
pub mod World
pub mod Access
pub mod Fifo
pub mod Grid
pub mod Collision
pub mod Tracking
pub mod Trajectory
pub mod Lifecycle
pub mod Display
pub mod Tasks
pub mod Movement
pub mod Launchers
pub mod Main
pub mod System
