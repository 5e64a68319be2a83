-- ===== src/Trajectory/Tests.antt =====
-- A prediction with whole numbers.
use patriots_rtes.Prelude.{ℕ, ◌+◌, ◌-◌, ◌*◌, ok, err, pos, ◌≤ℤ◌, refl, arith}
use patriots_rtes.Platform.{whole}
use patriots_rtes.World.{Pos}
use patriots_rtes.Trajectory.Sampling.{
  Reading, Collected, Sampled, collect_positions, collect_positions-Sampled,
}
use patriots_rtes.Trajectory.{Trajectory, calc_speed, get_expected_position_x}
use patriots_rtes.Trajectory.Bisection.{get_expected_position_x-bounds}

abbrev falling : Trajectory ℕ
falling = record { m = 1; b = 0; speed = 60 }

abbrev seen : Pos
seen = record { x = pos 100; y = pos 100 }

get_expected_position_x-bounds_example :
    (pos 100 ≤ℤ get_expected_position_x whole falling seen)
    × (get_expected_position_x whole falling seen ≤ℤ pos 632)
get_expected_position_x-bounds_example =
    get_expected_position_x-bounds whole falling seen 100 refl (omega arith) (omega arith)

abbrev start : Reading
start = record {
  place = record { x = pos 600; y = pos 100 };
  time = record { tv_sec = pos 7; tv_nsec = pos 0 };
}

-- The target moves two pixels to the left a second.
abbrev readings : ℕ → Reading
readings i = record {
  place = record { x = pos (600 - 2 * (i + 1)); y = pos 100 };
  time = record { tv_sec = pos (8 + i); tv_nsec = pos 0 };
}

abbrev sampled : Collected whole
sampled = elim (collect_positions whole start readings) [
  | ok c ↦ c
  | err e ↦ record { pos_b = start.place; dt = 0; i = 0 }
]

collect_positions-Sampled_example : Sampled whole readings start sampled
unfolding collect_positions calc_speed
collect_positions-Sampled_example = collect_positions-Sampled whole readings start sampled refl
