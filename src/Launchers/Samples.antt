-- ===== src/Launchers/Samples.antt =====
-- A world with one requested index, and what the launcher of attackers makes of it, to run the proofs on.
use patriots_rtes.Prelude.{
  ℕ, ◌≡◌, refl, ◌==◌, if◌then◌else◌, false, ℤ, pos, negsuc, [], ◌∷◌, arith, ◌+◌, ◌≤◌, update_ne,
}
use patriots_rtes.Config.{none_index}
use patriots_rtes.Platform.{counting, fixed}
use patriots_rtes.World.{
  Missile, FifoQueueGestor, MissileGestor, World, attacker, goal, set_missile,
}
use patriots_rtes.Fifo.{init_queue, get_next_index, get_next_index_woken, take_head}
use patriots_rtes.Fifo.Refinement.{Represents}
use patriots_rtes.Grid.{init_env}
use patriots_rtes.Collision.Valid.{HasValidCells, init_env-HasValidCells}
use patriots_rtes.Lifecycle.{init_atk_missile, init_empty_missile, set_random_start}
use patriots_rtes.Launchers.{
  Draws, set_queue, wait_next_index, launch_atk_missile, atk_launcher_round,
}
use patriots_rtes.Launchers.Lives.{Launch}

abbrev pub no_missile : Missile ℤ ℕ
no_missile = record {
  x = pos 0;
  y = pos 0;
  partial_x = pos 0;
  partial_y = pos 0;
  angle = pos 0;
  speed = pos 0;
  index = negsuc 0;
  deleted = false;
  assigned_target = negsuc 0;
  mutex = 1;
  missile_type = attacker;
}

abbrev pub gestor : MissileGestor ℤ ℕ
gestor = record { queue = λ k. no_missile; gestor = init_queue (λ i. pos 9) }

abbrev pub world : World ℤ ℕ
world = record {
  env = init_env (record {
    cell = λ x y. record { type = goal; value = pos 0; target = pos 0 };
    def_points = 0;
    atk_points = 0;
    count = 0;
    prio_sem = λ p. record { sem = 0; count = 0; blk = 0 };
    mutex = 0;
  });
  atk_gestor = gestor;
  def_gestor = gestor;
}

pub world-HasValidCells : HasValidCells world
world-HasValidCells = init_env-HasValidCells world _

-- The queue with index 0 requested.
abbrev pub requested : FifoQueueGestor ℕ
requested = record (init_queue (λ i. pos 9)) {
  free_index = pos 1;
  head_index = pos 0;
  tail_index = pos 0;
  next = λ i. if i == 0 then none_index else (if i == 3 then none_index else pos (i + 1));
}

pub requested-Represents : Represents requested (1 ∷ 2 ∷ 3 ∷ []) (0 ∷ [])
requested-Represents = record {
  free_chain = ground arith;
  used_chain = ground arith;
  tail_last = refl;
  distinct = λ k. ground arith;
}

-- Somebody requests a launch.
abbrev pub ask : World ℤ ℕ → World ℤ ℕ
ask = set_queue fixed attacker requested

-- The quotient for the start, in thousandths.
abbrev pub draws : ℕ → Draws ℤ
draws r = record { start = pos r; speed = pos 1000; angle = pos 500 }

-- The world after the round.
abbrev pub after : ℕ → World ℤ ℕ
after r =
    let g = record requested {
      head_index = requested.next 0;
      mutex = 2;
      read_sem = record (requested.read_sem) { blk = 0 };
    } in
    set_missile attacker 0 (init_atk_missile fixed (pos r) (pos 1000) (pos 500) (pos 0) no_missile)
      (set_queue fixed attacker g world)

pub after-Represents : (r : ℕ) → Represents (after r).atk_gestor.gestor (1 ∷ 2 ∷ 3 ∷ []) []
after-Represents r = record {
  free_chain = ground arith;
  used_chain = refl;
  tail_last = tt;
  distinct = λ k. ground arith;
}

unfoldable pub after-Launched :
    (r x : ℕ)
    → (init_atk_missile fixed (pos r) (pos 1000) (pos 500) (pos 0) no_missile).x ≡ pos x
    → x ≤ 640
    → Launch fixed ask (draws r) (pos 7) world (1 ∷ 2 ∷ 3 ∷ []) [] 0
unfolding get_next_index get_next_index_woken take_head wait_next_index atk_launcher_round
    launch_atk_missile init_queue init_atk_missile set_random_start init_empty_missile
after-Launched r x e le = record {
  world = after r;
  returns = refl;
  fresh = record {
    x = x;
    at_x = e;
    in_x = le;
    at_y = refl;
    index = refl;
    kind = refl;
    alive = refl;
    no_target = refl;
  };
  lists = after-Represents r;
  others = λ j ne. update_ne gestor.queue 0 j _ ne;
  env = refl;
  defenders = refl;
}
