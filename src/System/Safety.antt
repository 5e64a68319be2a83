-- ===== src/System/Safety.antt =====
-- No thread of the whole program faults.
use patriots_rtes.Prelude.{
  ℕ, ◌≤ℤ◌, ◌≡◌, Bool, ◌||◌, ℤ, pos, [], ◌∷◌, Result, ok, some, subst, Option,
}
use patriots_rtes.Platform.{Semaphore, Floating}
use patriots_rtes.World.{MissileType, attacker, defender, World, missile_at}
use patriots_rtes.Collision.Valid.{HasValidCells}
use patriots_rtes.Tasks.{launch_atk_thread, launch_def_thread}
use patriots_rtes.Movement.{task_round, clear_task}
use patriots_rtes.Movement.Round.{task_round-RoundDone}
use patriots_rtes.Movement.Threads.{started, clear_task-Returned}
use patriots_rtes.Launchers.{Draws, set_queue, launch_atk_missile, launch_def_missile}
use patriots_rtes.System.Others.{moves-Kept, ends-Kept}
use patriots_rtes.System.Keeps.{Takes-Kept, launches_atk-Kept, launches_def-Kept, starts-Kept}
use patriots_rtes.System.Runs.{Quiet-Kept}
use patriots_rtes.Launchers.Starts.{
  Queued, Takes-Given, with_attacker, with_defender, launch_atk_missile_lem, launch_def_missile_lem,
  launch_atk_missile-ok, launch_def_missile-ok,
}
use patriots_rtes.System.Queues.{
  Quiet-Queued, round-Queued, finish-Queued, set_queue-Queued, set_missile-Queued,
}
use patriots_rtes.System.Whole.{
  Phase, away, held, samples, flies, ended, State, after_round, Move, quiet, round, finish, take,
  launch_atk, launch_def, start, escape, Reach, ready, later,
}
use patriots_rtes.System.Phases.{At, Good, At-Kept, acts-Good}
use patriots_rtes.System.Moves.{
  Quiet-cells, round-At, clear-cells, Given-Owned, set_queue-cells, launch_atk-At, start-At,
  launch_def-At,
}

module _ {F D S : Type 0} (fl : Floating F D) ⦃s : Semaphore S⦄ where
  now_at :
      {w : World F S} {phase : MissileType → ℕ → Phase} {stop : Bool} {kind : MissileType} {k : ℕ}
      {p : Phase}
      → Good (record { world = w; phase = phase; end = stop })
      → phase kind k ≡ p
      → At p kind k w
  now_at {w} {phase} {stop} {kind} {k} g e = subst (λ p. At p kind k w) e (g.at kind k)

  Move-Good : {t u : State F S} → Move fl t u → Good t → Good u
  Move-Good (quiet {w = w} {w' = w'} {phase = phase} move) g = record {
    cells = Quiet-cells fl move g.cells;
    queues = Quiet-Queued fl move g.cells g.queues;
    at = λ kind k.
        At-Kept (phase kind k) kind k w w' (Quiet-Kept fl move g.cells kind k) (g.at kind k);
  }
  Move-Good (round kind k deltatime stop {w = w} {w' = w'} {phase = phase} {c = c} e h) g =
      let mine = now_at g e in
      let (next, cells) = round-At fl kind k deltatime stop w w' c mine h in
      acts-Good kind k (after_round (c || stop)) w w' phase stop next cells
        (λ kind2. round-Queued fl kind k deltatime w w' c mine.2 h kind2 (g.queues kind2))
        (λ kind2 j other o. moves-Kept fl kind2 j kind k deltatime w w' c other mine.2 h o) g
  Move-Good (finish kind k {w = w} {w' = w'} {phase = phase} {stop = stop} e h) g =
      let mine = now_at g e in
      acts-Good kind k away w w' phase stop tt (clear-cells fl kind k w w' h g.cells)
        (λ kind2. finish-Queued fl kind k w w' mine.0 mine.1 h kind2 (g.queues kind2))
        (λ kind2 j other o. ends-Kept fl kind2 j kind k w w' other g.cells mine.0 mine.1 h o) g
  Move-Good (take kind k {w = w} {q = q} {phase = phase} {stop = stop} taken) g =
      let before = g.queues kind in
      let given = Takes-Given before.free before.used taken before.lists in
      acts-Good kind k held w (set_queue fl kind q w) phase stop (Given-Owned fl kind k w q given)
        (set_queue-cells fl kind q w g.cells)
        (λ kind2.
          set_queue-Queued fl kind2 kind q given.free_left given.used_left w given.lists
            (g.queues kind2))
        (λ kind2 j other o. Takes-Kept fl kind2 kind j k w q taken g.cells o) g
  Move-Good
        (launch_atk draws thread k x {w = w} {w' = w'} {phase = phase} {stop = stop} {call = call} e
          h at_x lt)
        g =
      let mine = now_at g e in
      let (next, cells) = launch_atk-At fl draws thread k x w w' call mine h at_x lt g.cells in
      acts-Good attacker k flies w w' phase stop next cells
        (λ kind.
          subst (Queued kind) (launch_atk_missile-ok fl k mine.mine.0 thread w draws w' call h)
            (set_missile-Queued kind attacker k _ w (g.queues kind)))
        (λ kind j other o.
          launches_atk-Kept fl kind j draws thread k w w' call other mine.mine.0 h g.cells o)
        g
  Move-Good (launch_def thread k {w = w} {w' = w'} {phase = phase} {stop = stop} {call = call} e h)
        g =
      let mine = now_at g e in
      let (next, cells) = launch_def-At fl thread k w w' call mine h g.cells in
      acts-Good defender k samples w w' phase stop next cells
        (λ kind.
          subst (Queued kind) (launch_def_missile-ok fl k mine.mine.0 thread w w' call h)
            (set_missile-Queued kind defender k _ w (g.queues kind)))
        (λ kind j other o.
          launches_def-Kept fl kind j thread k w w' call other mine.mine.0 h g.cells o)
        g
  Move-Good (start k c {w = w} {phase = phase} {stop = stop} e lt) g =
      acts-Good defender k flies w (started fl k (pos c) w) phase stop
        (start-At fl k c w (now_at g e) lt g.cells) g.cells
        (λ kind. set_missile-Queued kind defender k _ w (g.queues kind))
        (λ kind j other o. starts-Kept fl kind j k (pos c) w other g.cells o) g
  Move-Good escape g = record { cells = g.cells; queues = g.queues; at = g.at }

  pub Reach-Good : {t : State F S} → Reach fl t → Good t
  Reach-Good (ready r) = record {
    cells = r.cells;
    queues = λ kind. record { free = 0 ∷ 1 ∷ 2 ∷ 3 ∷ []; used = []; lists = r.lists kind };
    at = λ kind k. tt;
  }
  Reach-Good (later r move) = Move-Good move (Reach-Good r)

  -- What the thread of an index does next returns.
  abbrev pub Returns : Phase → MissileType → ℕ → World F S → Type 0
  Returns away kind k w = Unit {0}
  Returns held attacker k w =
      (draws : Draws F) (thread : ℤ)
      → pos 0 ≤ℤ thread
      → (w' : World F S) × (launch_atk_missile fl draws thread (pos k) w
          ≡ ok (w', launch_atk_thread k))
  Returns held defender k w =
      (thread : ℤ)
      → pos 0 ≤ℤ thread
      → (w' : World F S) × (launch_def_missile fl thread (pos k) w ≡ ok (w', launch_def_thread k))
  Returns samples kind k w = (missile_at kind w k).index ≡ pos k
  Returns flies kind k w =
      (deltatime : F) → (p : World F S × Bool) × (task_round fl kind k deltatime w ≡ ok p)
  Returns ended kind k w = (w' : World F S) × (clear_task fl kind k w ≡ ok w')

  -- In every state that the program reaches from a ready one, if attackers start left of the right
  -- border and defenders in the window, the cells are valid, both queues are well formed, and no thread faults: the launch of a
  -- missile whose index its launcher holds returns, a round of a missile that flies returns, a thread
  -- that has left its loop gives its index back, and one that takes samples has its index.
  pub program-Returns :
      {t : State F S}
      → Reach fl t
      → HasValidCells t.world
        × ((kind : MissileType) → Queued kind t.world)
        × ((kind : MissileType) (k : ℕ) → Returns (t.phase kind k) kind k t.world)
  program-Returns {t} r =
      let g = Reach-Good r in
      (g.cells, g.queues, λ kind k. next (t.phase kind k) kind k (g.at kind k))
    where
      next :
          (p : Phase) (kind : MissileType) (k : ℕ) → At p kind k t.world → Returns p kind k t.world
      next away kind k a = tt
      next held attacker k a = λ draws thread created. (
        with_attacker fl k a.mine.0 thread t.world draws,
        launch_atk_missile_lem fl k a.mine.0 thread t.world draws created,
      )
      next held defender k a = λ thread created. (
        with_defender fl k a.mine.0 thread t.world,
        launch_def_missile_lem fl k a.mine.0 thread t.world created,
      )
      next samples kind k a = a.1
      next flies kind k a = λ deltatime.
          let d = task_round-RoundDone fl kind k deltatime t.world a.2 in
          ((d.world, d.collided), d.returns)
      next ended kind k a =
          let c = clear_task-Returned fl kind k t.world a.0 a.1 in
          let done : ◌≡◌ {A = Option (Result (World F S))} (some (clear_task fl kind k t.world))
              (some (ok c.world)) =
            c.returns in
          (c.world, cc)
