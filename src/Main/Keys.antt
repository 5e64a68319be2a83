-- ===== src/Main/Keys.antt =====
-- The loop of `main` ends with the first ESC, and its requests never fail.
use patriots_rtes.Prelude.{
  ℕ, zero, suc, ◌+◌, ◌≤◌, ◌<◌, ◌≡◌, refl, ◌==◌, if◌then◌else◌, Bool, true, false, Option, none,
  some, ℤ, pos, ◌≤ℤ◌, Result, ok, arith, subst,
}
use patriots_rtes.Platform.{Semaphore, Floating}
use patriots_rtes.World.{attacker, World}
use patriots_rtes.Fifo.Requests.{requested_lists, request_atk_launch-Requested}
use patriots_rtes.Tasks.Spawn.{spawn_tasks_lem}
use patriots_rtes.Launchers.{set_queue}
use patriots_rtes.Launchers.Starts.{Queued}
use patriots_rtes.Main.{scan_code, request, main_round, main_loop, main, init}
use patriots_rtes.Main.Setup.{init-Ready}

-- The first round in which ESC is pressed.
pub record FirstEsc (key_esc : ℕ) (keys : ℕ → Option ℕ) (i n : ℕ) : Type 0 where
  pub not_before : (j : ℕ) → i ≤ j → j < i + n → (scan_code (keys j) == key_esc) ≡ false
  pub pressed : (scan_code (keys (i + n)) == key_esc) ≡ true

FirstEsc-next :
    (key_esc : ℕ) (keys : ℕ → Option ℕ) {i n : ℕ}
    → FirstEsc key_esc keys i (suc n)
    → FirstEsc key_esc keys (i + 1) n
FirstEsc-next key_esc keys esc = record {
  not_before = λ j lo hi. esc.not_before j (omega (arith, lo)) (omega (arith, hi));
  pressed = subst (λ z. (scan_code (keys z) == key_esc) ≡ true) (omega arith) esc.pressed;
}

module _ {F S : Type 0} where
  -- The queue of the attackers is well formed.
  abbrev pub HasQueue : World F S → Type 0
  HasQueue = Queued attacker

  -- A result that is a world with a well-formed queue.
  pub record Returns (r : Result (World F S)) : Type 0 where
    pub world : World F S
    pub returns : r ≡ ok world
    pub queue : HasQueue world

module _ {F D S : Type 0} (fl : Floating F D) ⦃s : Semaphore S⦄ (key_space key_esc : ℕ) where
  request-Returns : (w : World F S) → HasQueue w → Returns (request fl w)
  request-Returns w q =
      let r = request_atk_launch-Requested w.atk_gestor.gestor q.free q.used q.lists in
      record {
        world = set_queue fl attacker r.out w;
        returns = rw r.returns refl;
        queue = record {
          free = (requested_lists q.free q.used w.atk_gestor.gestor.read_sem.blk).0;
          used = (requested_lists q.free q.used w.atk_gestor.gestor.read_sem.blk).1;
          lists = r.lists;
        };
      }

  main_round-Returns :
      (key : Option ℕ) (others : World F S → World F S) (w : World F S)
      → ((v : World F S) → HasQueue v → HasQueue (others v))
      → HasQueue w
      → Returns (main_round fl key_space key_esc key others w)
  unfolding main_round
  main_round-Returns none others w keep q = record { world = w; returns = refl; queue = q }
  main_round-Returns (some c) others w keep q = by_key (scan_code (some c) == key_space)
    where
      by_key : (b : Bool) → Returns (if b then request fl (others w) else ok w)
      by_key true = request-Returns (others w) (keep w q)
      by_key false = record { world = w; returns = refl; queue = q }

  -- `n` rounds from round `i` on, one after the other, whatever the keys are.
  pub data Rounds (keys : ℕ → Option ℕ) (others : ℕ → World F S → World F S)
      : ℕ → ℕ → World F S → World F S → Type 0 where
    stop : {i : ℕ} {w : World F S} → Rounds keys others i 0 w w
    go :
        {i n : ℕ} {u v w : World F S}
        → main_round fl key_space key_esc (keys i) (others i) u ≡ ok v
        → Rounds keys others (i + 1) n v w
        → Rounds keys others i (suc n) u w

  -- The loop has returned what `n` rounds from round `i` on make, with a well-formed queue.
  pub record LoopEnds (keys : ℕ → Option ℕ) (others : ℕ → World F S → World F S) (i n : ℕ)
      (w : World F S) (r : Option (Result (World F S))) : Type 0 where
    pub world : World F S
    pub returns : r ≡ some (ok world)
    pub rounds : Rounds keys others i n w world
    pub queue : HasQueue world

  module _ (keys : ℕ → Option ℕ) (others : ℕ → World F S → World F S)
      (keep : (j : ℕ) (v : World F S) → HasQueue v → HasQueue (others j v)) where
    main_loop-Ends :
        (n fuel i : ℕ) (w : World F S)
        → n < fuel
        → FirstEsc key_esc keys i n
        → HasQueue w
        → LoopEnds keys others i (suc n) w (main_loop fl key_space key_esc keys others fuel i w)
    unfolding main_loop
    main_loop-Ends n zero i w lt esc q = absurd (omega arith)
    main_loop-Ends zero (suc fuel) i w lt esc q =
        let r = main_round-Returns (keys i) (others i) w (keep i) q in
        let e : (scan_code (keys i) == key_esc) ≡ true =
          subst (λ z. (scan_code (keys z) == key_esc) ≡ true) (omega arith) esc.pressed in
        record {
          world = r.world;
          returns = rw (r.returns, main_loop, e) refl;
          rounds = go r.returns stop;
          queue = r.queue;
        }
    main_loop-Ends (suc n) (suc fuel) i w lt esc q =
        let r = main_round-Returns (keys i) (others i) w (keep i) q in
        let e : (scan_code (keys i) == key_esc) ≡ false =
          esc.not_before i (omega arith) (omega arith) in
        let rest =
          main_loop-Ends n fuel (i + 1) r.world (omega arith) (FirstEsc-next key_esc keys esc)
            r.queue in
        record {
          world = rest.world;
          returns = rw (r.returns, main_loop, e) rest.returns;
          rounds = go r.returns rest.rounds;
          queue = rest.queue;
        }

    main_loop-goes_on :
        (n less i : ℕ) (w : World F S)
        → less ≤ n
        → FirstEsc key_esc keys i n
        → HasQueue w
        → main_loop fl key_space key_esc keys others less i w ≡ none
    unfolding main_loop
    main_loop-goes_on n zero i w le esc q = refl
    main_loop-goes_on zero (suc less) i w le esc q = absurd (omega arith)
    main_loop-goes_on (suc n) (suc less) i w le esc q =
        let r = main_round-Returns (keys i) (others i) w (keep i) q in
        let e : (scan_code (keys i) == key_esc) ≡ false =
          esc.not_before i (omega arith) (omega arith) in
        rw (r.returns, main_loop, e)
          (main_loop-goes_on n less (i + 1) r.world (omega arith) (FirstEsc-next key_esc keys esc)
            r.queue)

  -- If the three tasks can be created, and the tasks keep the queue of the attackers well formed, `main`
  -- leaves its loop in the first round in which ESC is pressed, and not before, whatever else is pressed
  -- and whatever the memory held. If that is round `n`, fuel for `n` rounds at most runs out, and more
  -- gives, without a fault, the world that exactly `n + 1` rounds of the loop make, with the queue well
  -- formed.
  pub main-Ends :
      (keys : ℕ → Option ℕ) (others : ℕ → World F S → World F S) (spawned : World F S → World F S)
      (tasks : ℤ × ℤ × ℤ) (n less fuel : ℕ) (w : World F S)
      → ((j : ℕ) (v : World F S) → HasQueue v → HasQueue (others j v))
      → ((v : World F S) → HasQueue v → HasQueue (spawned v))
      → (pos 0 ≤ℤ tasks.0) × (pos 0 ≤ℤ tasks.1) × (pos 0 ≤ℤ tasks.2)
      → FirstEsc key_esc keys 0 n
      → less ≤ n
      → n < fuel
      → (main fl key_space key_esc keys others spawned tasks less w ≡ none)
        × LoopEnds keys others 0
            (suc n)
            (spawned (init fl w).0)
            (main fl key_space key_esc keys others spawned tasks fuel w)
  unfolding main
  main-Ends keys others spawned tasks n less fuel w keep keep_spawned created esc le lt =
      let v = (init fl w).0 in
      let ready = init-Ready fl w in
      let q : HasQueue v = record { free = _; used = _; lists = ready.lists attacker } in
      let r = main_loop-Ends keys others keep n fuel 0 (spawned v) lt esc (keep_spawned v q) in
      let tasks_made = spawn_tasks_lem tasks.0 tasks.1 tasks.2 created.0 created.1 created.2 in
      (
        rw (tasks_made, main)
            (main_loop-goes_on keys others keep n less 0 (spawned v) le esc (keep_spawned v q)),
        record {
          world = r.world;
          returns = rw (tasks_made, main) r.returns;
          rounds = r.rounds;
          queue = r.queue;
        },
      )
