-- ===== src/Collision/Tests.antt =====
-- An attacker that meets a defender on an empty field.
use patriots_rtes.Prelude.{
  sym, ℕ, ◌<◌, ◌≡◌, refl, ◌⊎◌, ◌==◌, if◌then◌else◌, Bool, true, false, ◌&&◌, ◌||◌, ℤ, pos, negsuc,
  ok, err, arith,
}
use patriots_rtes.Config.{xwin, ywin}
use patriots_rtes.Platform.{counting}
use patriots_rtes.World.{
  Pos, wall, def_missile, Cell, MissileType, attacker, defender, Missile, World, missile_at,
}
use patriots_rtes.Fifo.{init_queue}
use patriots_rtes.Grid.{init_cell_empty}
use patriots_rtes.Collision.{
  cell_at, handle_collision, collision_around, update_missile_position, update_missile_env,
  clear_cell,
}
use patriots_rtes.Collision.Scan.{IsClearBox, FirstHit, collision_around_lem}
use patriots_rtes.Collision.Update.{Moved, update_missile_position-Moved}
use patriots_rtes.Collision.Static.{handle_collision-points}
use mathlib.Core.Bool.{false≢true}
use patriots_rtes.Collision.Deletion.{holds, holds_missile, handle_collision-deletes}
use patriots_rtes.Collision.Follow.{at, Follows, Gone, moved_to}
use patriots_rtes.Collision.Place.{update_missile_env-Follows}
use patriots_rtes.Collision.Valid.{IsValidCell, HasValidCells, Fine, update_missile_env-Fine}

abbrev attack : Missile ℕ ℕ
attack = record {
  x = pos 100;
  y = pos 98;
  partial_x = 100;
  partial_y = 98;
  angle = 1;
  speed = 50;
  index = pos 0;
  deleted = false;
  assigned_target = negsuc 0;
  mutex = 1;
  missile_type = attacker;
}

abbrev defended_cell : Cell
defended_cell = record { type = def_missile; value = pos 1; target = pos 0 }

abbrev wall_cell : Cell
wall_cell = record { type = wall; value = negsuc 1; target = negsuc 1 }

-- The defender with index 1 stands at (100, 100), and (0, 100) is a wall.
abbrev field : ℕ → ℕ → Cell
field x y =
    if x == 100 && y == 100 then defended_cell else (if x == 0 then wall_cell else init_cell_empty)

abbrev world : World ℕ ℕ
world = record {
  env = record {
    cell = field;
    def_points = 0;
    atk_points = 0;
    count = 1;
    prio_sem = λ p. record { sem = 0; count = 0; blk = 0 };
    mutex = 1;
  };
  atk_gestor = record { queue = λ k. attack; gestor = init_queue (λ i. pos 0) };
  def_gestor = record { queue = λ k. attack; gestor = init_queue (λ i. pos 0) };
}

world-HasValidCells : HasValidCells world
world-HasValidCells x y hx hy = by_place (x == 100 && y == 100) (x == 0)
  where
    by_place :
        (defended walled : Bool)
        → IsValidCell
            (if defended then defended_cell else (if walled then wall_cell else init_cell_empty))
    by_place true walled = (1, refl, omega arith)
    by_place false true = refl
    by_place false false = refl

collision_around_example :
    (false ≡ false) × (world ≡ world) × IsClearBox attack world 10 10 20 20
    ⊎ (false ≡ true) × FirstHit attack world world 10 10 20 20
unfolding collision_around
collision_around_example =
    collision_around_lem attack 10 10 20 20 world world false (omega arith) (omega arith) refl

abbrev away : Missile ℕ ℕ
away = record attack { x = pos 100; y = pos 480 }

update_missile_position-Moved_example :
    (a b : ℕ) × ((◌≡◌ {A = ℤ} (pos 100) (pos a)) × (a < xwin))
    × ((◌≡◌ {A = ℤ} (pos 479) (pos b)) × (b < ywin))
    × Moved away a b world (clear_cell 100 479 world) true
unfolding update_missile_position
update_missile_position-Moved_example =
    update_missile_position-Moved away (pos 100) (pos 479) world (clear_cell 100 479 world) true
      refl

-- What the environment is after the attacker has met the defender.
abbrev met : World ℕ ℕ × Bool
met = elim (handle_collision attacker 100 100 world) [ ok p ↦ p | err e ↦ (world, false) ]

handle_collision-deletes_example :
    (missile_at defender met.0 1
      ≡ record attack { deleted = holds defender 1 defended_cell || false })
    × (cell_at met.0 100 100 ≡ (
        if 100 == 100 && 100 == 100 && holds_missile defended_cell
        then init_cell_empty
        else defended_cell))
unfolding handle_collision
handle_collision-deletes_example =
    handle_collision-deletes attacker 100 100 world met.0 met.1 refl defender 1 100 100

handle_collision-points_example :
    (met.0.env.def_points ≡ 1) × (met.0.env.atk_points ≡ 0) × (met.1 ≡ true)
unfolding handle_collision
handle_collision-points_example = handle_collision-points attacker 100 100 world met.0 met.1 refl

update_missile_env-Fine_example : Fine (update_missile_env attack (pos 100) (pos 97) world)
update_missile_env-Fine_example =
    update_missile_env-Fine attack 100 97 world (0, refl, omega arith) (omega arith) (omega arith)
      world-HasValidCells

abbrev place : MissileType → ℕ → Pos
place attacker k = at 100 97
place defender k = at 100 100

world-Follows : Follows place world
world-Follows = record { at_place = stands; no_ghost = λ kind k h. absurd (alive kind k h) }
  where
    stands :
        (kind : MissileType) (k a b : ℕ)
        → a < xwin
        → b < ywin
        → holds kind k (cell_at world a b) ≡ true
        → place kind k ≡ at a b
    stands attacker k a b la lb h = absurd (ground arith)
    stands defender k a b la lb h =
        let (ea, eb) : (100 ≡ a) × (100 ≡ b) = ground arith in rw (sym ea, sym eb) refl

    alive : (kind : MissileType) (k : ℕ) → (missile_at kind world k).deleted ≡ true → ⊥
    alive attacker k h = false≢true h
    alive defender k h = false≢true h

-- What the environment is after the attacker has moved next to the defender.
abbrev moved : World ℕ ℕ × Bool
moved = elim (update_missile_env attack (pos 100) (pos 97) world) [
  | ok p ↦ p
  | err e ↦ (world, false)
]

update_missile_env-Follows_example :
    Follows (moved_to attacker 0 (at 100 98) place) moved.0
    × ((moved.1 ≡ false) ⊎ Gone attacker 0 moved.0)
unfolding update_missile_env
update_missile_env-Follows_example =
    update_missile_env-Follows place attack 0 refl (pos 100) (pos 97) world moved.0 moved.1 refl
      refl world-Follows refl
