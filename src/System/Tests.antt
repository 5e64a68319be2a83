-- ===== src/System/Tests.antt =====
-- A launched attacker, with somebody who presses SPACE all the time.
use patriots_rtes.Prelude.{
  ℕ, ◌≡◌, refl, false, ℤ, pos, Result, ok, err, [], ◌∷◌, arith, ◌+◌, ◌<◌, true,
}
use patriots_rtes.Platform.{counting, fixed}
use patriots_rtes.World.{World, MissileType, attacker, defender, missile_at}
use patriots_rtes.Fifo.{
  granted, init_queue, request_def_index, request_atk_launch, get_next_index, get_next_index_woken,
  post_mutex, set_read_blk,
}
use patriots_rtes.Fifo.Refinement.{Represents}
use patriots_rtes.Fifo.Requests.{Requested, request_atk_launch-Requested}
use patriots_rtes.Fifo.Taking.{Took, get_next_index_woken-Took, request_def_index-Took}
use patriots_rtes.Collision.Valid.{HasValidCells}
use patriots_rtes.Lifecycle.{init_missiles_gestor}
use patriots_rtes.Launchers.{init_launchers, init_atk_launcher, init_def_launcher, set_queue}
use patriots_rtes.Launchers.Starts.{
  Queued, asks_for_def, wakes, with_attacker, launch_atk_missile_lem,
}
use patriots_rtes.Config.{xwin, ywin}
use patriots_rtes.Collision.{cell_at}
use patriots_rtes.Collision.Deletion.{holds}
use patriots_rtes.Collision.Follow.{Gone}
use patriots_rtes.System.Ghosts.{cells_follow}
use patriots_rtes.Main.{init}
use patriots_rtes.Main.Setup.{init-Ready}
use patriots_rtes.System.Whole.{
  State, enters, held, away, flies, take, launch_atk, quiet, Reach, ready, later,
}
use patriots_rtes.System.Safety.{Returns, program-Returns}
use patriots_rtes.Lifecycle.{
  init_atk_missile, init_empty_missile, set_random_start, frand, move_missile, get_deltatime,
}
use patriots_rtes.Movement.{atk_thread}
use patriots_rtes.Movement.Round.{moves}
use patriots_rtes.Movement.Ending.{Owned, Kept}
use patriots_rtes.Movement.Threads.{Returned}
use patriots_rtes.Launchers.Samples.{
  world, world-HasValidCells, requested-Represents, ask, draws, after, after-Launched,
  after-Represents,
}
use patriots_rtes.Main.{request}
use patriots_rtes.System.{Step, Run, still, more, requests, waits}
use patriots_rtes.System.Runs.{Run-Kept}
use patriots_rtes.System.Lives.{attacker_life}

abbrev or_same : World ℤ ℕ → Result (World ℤ ℕ) → World ℤ ℕ
or_same w (ok v) = v
or_same w (err e) = w

-- Two requests.
abbrev presses : World ℤ ℕ → World ℤ ℕ
presses w = let v = or_same w (request fixed w) in or_same v (request fixed v)

one_press :
    (k : ℕ) (u w : World ℤ ℕ) (r : Result (World ℤ ℕ))
    → request fixed w ≡ r
    → Run fixed attacker k u w
    → Run fixed attacker k u (or_same w r)
one_press k u w (ok v) e run = more run (Step.quiet (requests e))
one_press k u w (err f) e run = run

two_presses : (k : ℕ) (w : World ℤ ℕ) → Run fixed attacker k w (presses w)
two_presses k w =
    let v = or_same w (request fixed w) in
    one_press k w v (request fixed v) refl (one_press k w w (request fixed w) refl still)

in_use : Owned attacker 0 (after 500)
in_use = record {
  free = 1 ∷ 2 ∷ 3 ∷ [];
  used = [];
  lists = after-Represents 500;
  mine = omega arith;
}

Run-Kept_example : Kept attacker 0 (after 500) (presses (after 500))
Run-Kept_example =
    Run-Kept fixed attacker 0 (after 500) (presses (after 500)) (two_presses 0 (after 500))
      world-HasValidCells in_use

attacker_life_example :
    Returned fixed attacker 0
      (atk_thread fixed (λ i. false) (λ i w. presses w) presses 0 500 (after 500))
unfolding after-Launched moves move_missile get_deltatime init_atk_missile set_random_start
    init_empty_missile frand
attacker_life_example =
    attacker_life fixed ask (draws 500) (pos 7) world (1 ∷ 2 ∷ 3 ∷ []) [] 0
      (after-Launched 500 320 refl (omega arith)) (λ i. false) (λ i w. presses w) presses 472 500
      requested-Represents world-HasValidCells (omega arith) (λ j w cells o. two_presses 0 w)
      (λ w cells o. two_presses 0 w) refl (omega arith)

-- The program after its start, when the launcher of defenders has taken index 0.
taken :
    Took
      (1 ∷ 2 ∷ 3 ∷ [])
      []
      0
      (granted (pos 0))
      (request_def_index (init fixed world).0.def_gestor.gestor)
unfolding init init_launchers init_def_launcher init_missiles_gestor init_queue
taken =
    request_def_index-Took (init fixed world).0.def_gestor.gestor (1 ∷ 2 ∷ 3 ∷ []) [] 0
      ((init-Ready fixed world).lists defender) refl

abbrev begun : State ℤ ℕ
begun = record {
  world = set_queue fixed defender taken.out (init fixed world).0;
  phase = enters defender 0 held (λ kind k. away);
  end = false;
}

begun-Reach : Reach fixed begun
unfolding init init_launchers init_def_launcher init_missiles_gestor init_queue
begun-Reach = later (ready (init-Ready fixed world)) (take defender 0 (asks_for_def taken.returns))

program-Returns_example :
    HasValidCells begun.world
    × ((kind : MissileType) → Queued kind begun.world)
    × ((kind : MissileType) (k : ℕ) → Returns fixed (begun.phase kind k) kind k begun.world)
program-Returns_example = program-Returns fixed begun-Reach

-- The program after a launch: the launcher of attackers waits, SPACE is pressed, and it launches
-- index 0 at x = 320.
abbrev ready_world : World ℤ ℕ
ready_world = (init fixed world).0

abbrev asleep : World ℤ ℕ
asleep =
    let g = ready_world.atk_gestor.gestor in
    set_queue fixed attacker (post_mutex (set_read_blk g (g.read_sem.blk + 1))) ready_world

asleep-Represents : Represents asleep.atk_gestor.gestor (0 ∷ 1 ∷ 2 ∷ 3 ∷ []) []
asleep-Represents =
    let r = (init-Ready fixed world).lists attacker in
    record {
      free_chain = r.free_chain;
      used_chain = r.used_chain;
      tail_last = r.tail_last;
      distinct = r.distinct;
    }

asked :
    Requested asleep.atk_gestor.gestor
      (0 ∷ 1 ∷ 2 ∷ 3 ∷ [])
      []
      (request_atk_launch asleep.atk_gestor.gestor)
asked =
    request_atk_launch-Requested asleep.atk_gestor.gestor (0 ∷ 1 ∷ 2 ∷ 3 ∷ []) [] asleep-Represents

abbrev pressed : World ℤ ℕ
pressed = set_queue fixed attacker asked.out asleep

given : Took (1 ∷ 2 ∷ 3 ∷ []) [] 0 (pos 0) (get_next_index_woken pressed.atk_gestor.gestor)
unfolding init init_launchers init_missiles_gestor init_queue
given = get_next_index_woken-Took pressed.atk_gestor.gestor (1 ∷ 2 ∷ 3 ∷ []) [] 0 asked.lists

abbrev woken_up : World ℤ ℕ
woken_up = set_queue fixed attacker given.out pressed

abbrev launched : World ℤ ℕ
launched = with_attacker fixed 0 (omega arith) (pos 7) woken_up (draws 500)

abbrev flying : State ℤ ℕ
flying = record {
  world = launched;
  phase = enters attacker 0 flies (enters attacker 0 held (λ kind k. away));
  end = false;
}

flying-Reach : Reach fixed flying
unfolding init init_launchers init_atk_launcher init_missiles_gestor init_queue get_next_index
    init_atk_missile set_random_start init_empty_missile
flying-Reach =
    later
      (later
        (later (later (ready (init-Ready fixed world)) (quiet (waits refl)))
          (quiet (requests (rw asked.returns refl))))
        (take attacker 0 (wakes given.returns)))
      (launch_atk (draws 500) (pos 7) 0 320 refl
        (launch_atk_missile_lem fixed 0 (omega arith) (pos 7) woken_up (draws 500) (omega arith))
        refl (omega arith))

cells_follow_example :
    ((a b : ℕ)
      → a < xwin
      → b < ywin
      → holds attacker 0 (cell_at flying.world a b) ≡ true
      → (flying.phase attacker 0 ≡ flies)
        × ((missile_at attacker flying.world 0).x ≡ pos a)
        × ((missile_at attacker flying.world 0).y ≡ pos b))
    × ((missile_at attacker flying.world 0).deleted ≡ true → Gone attacker 0 flying.world)
cells_follow_example = cells_follow fixed flying-Reach refl attacker 0
