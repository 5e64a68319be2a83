-- ===== src/Launchers/Targets.antt =====
-- A round of `def_launcher`: the target that it finds, and the missile that it launches.
use patriots_rtes.Prelude.{
  ℕ, ◌<◌, ◌≡◌, ◌⊎◌, inl, inr, refl, update_self, true, false, ℤ, pos, ◌≤ℤ◌, leb_ℤ, [], ◌∷◌, Result,
  ok, arith, sym, ap, ◌∙◌, subst, Bool,
}
use patriots_rtes.Config.{ywin, max_missiles, none_index}
use patriots_rtes.Platform.{Semaphore, Floating}
use patriots_rtes.World.{attacker, defender, Missile, World, missile_at, set_missile}
use patriots_rtes.Collision.{cell_at}
use patriots_rtes.Collision.Scan.{Outcome}
use patriots_rtes.Collision.Valid.{HasValidCells}
use patriots_rtes.Tracking.{check_pixel, search_screen_for_target}
use patriots_rtes.Tracking.Search.{NoneInRows, FirstMarked, search_screen_for_target_lem}
use patriots_rtes.Tracking.Total.{
  marked, mark_target_lem, check_pixel-index, search_screen_for_target-Fine, launched-tracked,
  check_pixel-tracked,
}
use patriots_rtes.Lifecycle.{init_def_missile}
use patriots_rtes.Tasks.{launch_def_thread}
use patriots_rtes.Launchers.Starts.{launch_def_missile_lem}
use patriots_rtes.Launchers.{Round, hold_index, def_launcher_round}

module _ {F D S : Type 0} (fl : Floating F D) ⦃s : Semaphore S⦄ (getpixel : ℕ → ℕ → ℕ) (k : ℕ)
    (w : World F S) where
  -- The round has found a target for the index that it held, and has launched the missile.
  pub record Assigned (r : Result (Round (World F S))) : Type 0 where
    pub world : World F S
    pub returns :
        r ≡ ok (record { world = world; calls = launch_def_thread k ∷ []; index = none_index })
    pub x : ℕ
    pub y : ℕ
    pub j : ℕ
    pub first : FirstMarked getpixel (pos k) w (marked (pos k) j x y w) 0 ywin
    pub stands : (cell_at w x y).value ≡ pos j
    pub target : (cell_at world x y).target ≡ pos k
    pub assigned : (missile_at attacker world j).assigned_target ≡ pos k
    pub launched : (missile_at defender world k).index ≡ pos k
    pub taken :
        (screen : ℕ → ℕ → ℕ) (a b : ℕ)
        → (cell_at world a b).target ≡ pos k
        → check_pixel screen a b world ≡ false

  -- The round has found none: it keeps its index and changes nothing.
  abbrev pub Keeps : Result (Round (World F S)) → Type 0
  Keeps r =
      (r ≡ ok (record { world = w; calls = []; index = pos k })) × NoneInRows getpixel w 0 ywin

  abbrev launched_world : ℕ → ℕ → ℕ → World F S
  launched_world j x y =
      let v = marked (pos k) j x y w in
      set_missile defender k (init_def_missile fl (pos k) (missile_at defender v k)) v

  held : (waited : World F S → World F S) → hold_index fl waited (pos k) w ≡ ok (w, pos k)
  held waited = let e : leb_ℤ (pos 0) (pos k) ≡ true = ground arith in rw (e, hold_index) refl

  kept :
      (waited : World F S → World F S) (thread : ℤ)
      → search_screen_for_target getpixel (pos k) w ≡ ok (w, false)
      → def_launcher_round fl getpixel waited thread (pos k) w
        ≡ ok (record { world = w; calls = []; index = pos k })
  unfolding def_launcher_round
  kept waited thread h = rw (held waited, def_launcher_round, h) refl

  assigned :
      (waited : World F S → World F S) (thread : ℤ) (v : World F S)
      → k < max_missiles
      → pos 0 ≤ℤ thread
      → search_screen_for_target getpixel (pos k) w ≡ ok (v, true)
      → def_launcher_round fl getpixel waited thread (pos k) w
        ≡ ok (record {
          world = set_missile defender k (init_def_missile fl (pos k) (missile_at defender v k)) v;
          calls = launch_def_thread k ∷ [];
          index = none_index;
        })
  unfolding def_launcher_round
  assigned waited thread v lt created h =
      rw (held waited, def_launcher_round, h, launch_def_missile_lem fl k lt thread v created) refl

  found_first :
      (waited : World F S → World F S) (thread : ℤ) (v : World F S)
      → k < max_missiles
      → HasValidCells w
      → pos 0 ≤ℤ thread
      → search_screen_for_target getpixel (pos k) w ≡ ok (v, true)
      → FirstMarked getpixel (pos k) w v 0 ywin
      → Assigned (def_launcher_round fl getpixel waited thread (pos k) w)
  unfolding init_def_missile
  found_first waited thread v lt valid created h f =
      let (j, stands, lt_j) = check_pixel-index getpixel f.x f.y w valid f.in_x f.in_y.1 f.passes in
      let e : ◌≡◌ {A = Outcome F S} (ok (v, true)) (ok (marked (pos k) j f.x f.y w, true)) =
        sym f.marked ∙ mark_target_lem (pos k) j f.x f.y w stands lt_j in
      let same : v ≡ marked (pos k) j f.x f.y w = cc in
      let u = launched_world j f.x f.y in
      let own : (missile_at defender u k).index ≡ pos k =
        ap (λ (m : Missile F S). m.index)
          (update_self w.def_gestor.queue k
            (init_def_missile fl (pos k) (missile_at defender w k))) in
      record {
        world = u;
        returns =
            assigned waited thread (marked (pos k) j f.x f.y w) lt created
              (subst (λ z. search_screen_for_target getpixel (pos k) w ≡ ok (z, true)) same h);
        x = f.x;
        y = f.y;
        j = j;
        first = subst (λ z. FirstMarked getpixel (pos k) w z 0 ywin) same f;
        stands = stands;
        target = ground arith;
        assigned = ground arith;
        launched = own;
        taken = λ screen a b at_target.
            check_pixel-tracked screen a b u (rw at_target (launched-tracked u k lt own));
      }

  -- With valid cells, a round with an index in range either keeps it, if no pixel of the screen passes
  -- the test, or launches the missile of the index: the first pixel that passes has it as its target,
  -- and so has the attacker of that cell, and no cell with this target passes the test of a later
  -- search, whatever the screen shows.
  pub def_launcher_round-Assigned :
      (waited : World F S → World F S) (thread : ℤ)
      → k < max_missiles
      → HasValidCells w
      → pos 0 ≤ℤ thread
      → Keeps (def_launcher_round fl getpixel waited thread (pos k) w)
        ⊎ Assigned (def_launcher_round fl getpixel waited thread (pos k) w)
  def_launcher_round-Assigned waited thread lt valid created =
      let (p, e, more) = search_screen_for_target-Fine getpixel (pos k) w valid in
      by_result p.0 p.1 e (search_screen_for_target_lem getpixel (pos k) w p.0 p.1 e)
    where
      pair :
          {a b : World F S} {c d : Bool} → a ≡ b → c ≡ d → ◌≡◌ {A = World F S × Bool} (a, c) (b, d)
      pair p q = rw (p, q) refl

      by_result :
          (v : World F S) (c : Bool)
          → search_screen_for_target getpixel (pos k) w ≡ ok (v, c)
          → (c ≡ false) × (v ≡ w) × NoneInRows getpixel w 0 ywin
            ⊎ (c ≡ true) × FirstMarked getpixel (pos k) w v 0 ywin
          → Keeps (def_launcher_round fl getpixel waited thread (pos k) w)
            ⊎ Assigned (def_launcher_round fl getpixel waited thread (pos k) w)
      by_result v c e (inl (none_found, same, clear)) = inl (
        kept waited thread (
            subst (λ (q : World F S × Bool). search_screen_for_target getpixel (pos k) w ≡ ok q)
              (pair same none_found) e),
        clear,
      )
      by_result v c e (inr (found, first)) =
          inr (found_first waited thread v lt valid created (e ∙ ap (λ b. ok (v, b)) found) first)
