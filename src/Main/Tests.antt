-- ===== src/Main/Tests.antt =====
-- A run of the program on any memory: SPACE in round 1, ESC in round 3.
use patriots_rtes.Prelude.{
  ◌≡◌, ℕ, refl, ◌==◌, if◌then◌else◌, true, Option, none, some, pos, arith, ◌*◌, ◌+◌,
}
use patriots_rtes.Platform.{counting, whole}
use patriots_rtes.World.{Missile, World, defender, goal}
use patriots_rtes.Fifo.{init_queue}
use patriots_rtes.Main.{init, main}
use patriots_rtes.Main.Setup.{Ready, init-Ready}
use patriots_rtes.Main.Keys.{FirstEsc, LoopEnds, main-Ends}

abbrev dirty : Missile ℕ ℕ
dirty = record {
  x = pos 9;
  y = pos 9;
  partial_x = 9;
  partial_y = 9;
  angle = 9;
  speed = 9;
  index = pos 2;
  deleted = true;
  assigned_target = pos 1;
  mutex = 0;
  missile_type = defender;
}

abbrev memory : World ℕ ℕ
memory = record {
  env = record {
    cell = λ x y. record { type = goal; value = pos 0; target = pos 0 };
    def_points = 7;
    atk_points = 7;
    count = 7;
    prio_sem = λ p. record { sem = 7; count = 7; blk = 7 };
    mutex = 7;
  };
  atk_gestor = record { queue = λ k. dirty; gestor = init_queue (λ i. pos 9) };
  def_gestor = record { queue = λ k. dirty; gestor = init_queue (λ i. pos 9) };
}

init-Ready_example : Ready (init whole memory).0
init-Ready_example = init-Ready whole memory

-- The scan codes of SPACE and of ESC are 75 and 59 here.
abbrev keys : ℕ → Option ℕ
keys i = if i == 1 then some (75 * 256 + 32) else (if i == 3 then some (59 * 256 + 27) else none)

first_esc : FirstEsc 59 keys 0 3
first_esc = record { not_before = λ j lo hi. ground arith; pressed = refl }

main-Ends_example :
    (main whole 75 59 keys (λ j w. w) (λ w. w) (pos 1, pos 2, pos 3) 3 memory ≡ none)
    × LoopEnds whole 75 59 keys
        (λ j w. w)
        0
        4
        (init whole memory).0
        (main whole 75 59 keys (λ j w. w) (λ w. w) (pos 1, pos 2, pos 3) 9 memory)
main-Ends_example =
    main-Ends whole 75 59 keys (λ j w. w) (λ w. w) (pos 1, pos 2, pos 3) 3 3 9 memory (λ j v q. q)
      (λ v q. q) (ground arith) first_esc (omega arith) (omega arith)
