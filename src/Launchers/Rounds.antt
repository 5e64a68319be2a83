-- ===== src/Launchers/Rounds.antt =====
-- A round of `atk_launcher`: the missile that it launches.
use patriots_rtes.Prelude.{
  ℕ, ◌+◌, ◌≤◌, ◌≡◌, ◌≢◌, refl, false, ℤ, pos, negsuc, ◌≤ℤ◌, List, [], ◌∷◌, Result, ok, update_self,
  update_ne, arith, sym, ap, ◌∙◌, subst,
}
use patriots_rtes.Config.{xwin, wall_thickness, missile_radius, none_index}
use patriots_rtes.Platform.{Semaphore, Floating}
use patriots_rtes.World.{attacker, Missile, World, missile_at, set_missile}
use patriots_rtes.Fifo.{get_next_index_woken, post_mutex, set_read_blk}
use patriots_rtes.Fifo.Refinement.{Represents}
use patriots_rtes.Fifo.Taking.{Took, get_next_index-empty, get_next_index_woken-Took}
use patriots_rtes.Trajectory.Bisection.{IsBetween}
use patriots_rtes.Lifecycle.{frand, init_empty_missile, set_random_start, init_atk_missile}
use patriots_rtes.Tasks.{launch_atk_thread}
use patriots_rtes.Launchers.{
  Draws, Round, set_queue, wait_next_index, launch_atk_missile, atk_launcher_round,
}

module _ {F D : Type 0} (fl : Floating F D) where
  open fl use {of_int, le, to_int, of_int-le, to_int-bounds}

  -- The cast to `int` gives a whole number of the range back, and one in the range for a float there.
  pub to_int-of_int : (n : ℕ) → n ≤ xwin → to_int (of_int (pos n)) ≡ pos n
  to_int-of_int n small =
      let (lo, hi) =
        to_int-bounds n n (of_int (pos n)) small (of_int-le n n (omega arith))
          (of_int-le n n (omega arith)) in
      between (to_int (of_int (pos n))) lo hi
    where
      between : (z : ℤ) → pos n ≤ℤ z → z ≤ℤ pos n → z ≡ pos n
      between (pos m) lo hi = ground arith
      between (negsuc m) lo hi = absurd (ground arith)

  to_int-pos :
      (n : ℕ) (a : F) → n ≤ xwin → IsBetween fl 0 n a → (m : ℕ) × (to_int a ≡ pos m) × (m ≤ n)
  to_int-pos n a small h =
      let (lo, hi) = to_int-bounds 0 n a small h.0 h.1 in natural (to_int a) lo hi
    where
      natural : (z : ℤ) → pos 0 ≤ℤ z → z ≤ℤ pos n → (m : ℕ) × (z ≡ pos m) × (m ≤ n)
      natural (pos m) lo hi = (m, refl, ground arith)
      natural (negsuc m) lo hi = absurd (ground arith)

  -- The quotient makes `frand(0, XWIN)` a float of that range.
  abbrev pub IsQuotient : F → Type 0
  IsQuotient r = IsBetween fl 0 xwin (frand fl r (of_int (pos 0)) (of_int (pos xwin)))

module _ {F S : Type 0} where
  -- A missile as it is launched: below the upper wall, at a place of the window's width or just right
  -- of it, with its index, not deleted and without a target.
  pub record Fresh (k : ℕ) (m : Missile F S) : Type 0 where
    pub x : ℕ
    pub at_x : m.x ≡ pos x
    pub in_x : x ≤ xwin
    pub at_y : m.y ≡ pos (wall_thickness + missile_radius + 1)
    pub index : m.index ≡ pos k
    pub kind : m.missile_type ≡ attacker
    pub alive : m.deleted ≡ false
    pub no_target : m.assigned_target ≡ none_index

module _ {F D S : Type 0} (fl : Floating F D) ⦃s : Semaphore S⦄ where
  open fl use {of_int, to_int}

  pub init_atk_missile-Fresh :
      (draws : Draws F) (k : ℕ) (m : Missile F S)
      → IsQuotient fl draws.start
      → Fresh k (init_atk_missile fl draws.start draws.speed draws.angle (pos k) m)
  unfolding init_atk_missile set_random_start init_empty_missile
  init_atk_missile-Fresh draws k m h =
      let (n, e, le) =
        to_int-pos fl xwin (frand fl draws.start (of_int (pos 0)) (of_int (pos xwin))) (omega arith)
          h in
      record {
        x = n;
        at_x = ap (λ z. to_int (of_int z)) e ∙ to_int-of_int fl n le;
        in_x = le;
        at_y = to_int-of_int fl 8 (omega arith);
        index = refl;
        kind = refl;
        alive = refl;
        no_target = refl;
      }

  -- What the others have made of the world when the launcher wakes.
  abbrev pub woken : (World F S → World F S) → World F S → World F S
  woken waited w =
      let g = w.atk_gestor.gestor in
      waited (set_queue fl attacker (post_mutex (set_read_blk g (g.read_sem.blk + 1))) w)

  wait_next_index-waited :
      (waited : World F S → World F S) (w : World F S) (free used : List ℕ) (k : ℕ)
      → w.atk_gestor.gestor.head_index ≡ none_index
      → (t : Took free used k (pos k) (get_next_index_woken (woken waited w).atk_gestor.gestor))
      → wait_next_index fl waited w ≡ ok (set_queue fl attacker t.out (woken waited w), pos k)
  unfolding wait_next_index
  wait_next_index-waited waited w free used k e t =
      rw (get_next_index-empty w.atk_gestor.gestor e, t.returns) refl

  -- The round has launched the missile `k`: nothing but its structure and the queue is changed.
  pub record Launched (v : World F S) (free used : List ℕ) (k : ℕ) (r : Result (Round (World F S)))
      : Type 0 where
    pub world : World F S
    pub returns : r ≡ ok (record { world = world; calls = launch_atk_thread k ∷ []; index = pos k })
    pub fresh : Fresh k (missile_at attacker world k)
    pub lists : Represents world.atk_gestor.gestor free used
    pub others : (j : ℕ) → k ≢ j → missile_at attacker world j ≡ missile_at attacker v j
    pub env : world.env ≡ v.env
    pub defenders : world.def_gestor ≡ v.def_gestor

  -- A round that finds no index requested waits, and launches the missile of the index that was
  -- requested first when it wakes, if the task can be created.
  pub atk_launcher_round-Launched :
      (waited : World F S → World F S) (draws : Draws F) (thread : ℤ) (w : World F S)
      (free used : List ℕ) (k : ℕ)
      → w.atk_gestor.gestor.head_index ≡ none_index
      → Represents (woken waited w).atk_gestor.gestor free (k ∷ used)
      → IsQuotient fl draws.start
      → pos 0 ≤ℤ thread
      → Launched (woken waited w) free used k (atk_launcher_round fl waited draws thread w)
  unfolding atk_launcher_round launch_atk_missile
  atk_launcher_round-Launched waited draws thread w free used k e r quotient created =
      let v = woken waited w in
      let t = get_next_index_woken-Took v.atk_gestor.gestor free used k r in
      let m =
        init_atk_missile fl draws.start draws.speed draws.angle (pos k) (missile_at attacker v k) in
      let own = update_self v.atk_gestor.queue k m in
      record {
        world = set_missile attacker k m (set_queue fl attacker t.out v);
        returns =
            ground
              (arith, wait_next_index-waited waited w free used k e t, r.used_chain.1, created);
        fresh =
            subst (Fresh k) (sym own)
              (init_atk_missile-Fresh draws k (missile_at attacker v k) quotient);
        lists = t.lists;
        others = λ j ne. update_ne v.atk_gestor.queue k j m ne;
        env = refl;
        defenders = refl;
      }
