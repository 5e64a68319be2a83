-- ===== src/Access/Sessions.antt =====
-- What the threads do to the cells and the scores between `access_env` and `release_env`: however their
-- steps interleave, the sessions have the effect that they have one after the other.
use patriots_rtes.Prelude.{
  ℕ, ◌<◌, ◌≡◌, refl, sym, ◌∙◌, subst, update, true, Option, none, some, List, [], ◌∷◌, arith,
}
use patriots_rtes.Config.{env_prios}
use patriots_rtes.Platform.{Semaphore}
use patriots_rtes.World.{Env, Cell}
use patriots_rtes.Access.{access_test, access_resume, release_env}
use patriots_rtes.Access.Release.{release_env_lem, hand_over, first_blocked, wake_order}
use patriots_rtes.Access.Protocol.{
  Pc, outside, inside, leaving, Move, ask, test, wake, resume, work, give_back, leave, System, pick,
  IsFresh, Reach, start, later,
}
use patriots_rtes.Access.Invariant.{uses_env}

-- What `access_env` protects: the cells and the scores.
pub record Board : Type 0 where
  pub cell : ℕ → ℕ → Cell
  pub def_points : ℕ
  pub atk_points : ℕ

abbrev pub Action : Type 0
Action = Board → Board

-- A session is the list of a thread's actions, and a history that of the sessions; the last stands
-- first.
abbrev pub run_session : List Action → Board → Board
run_session [] b = b
run_session (f ∷ fs) b = f (run_session fs b)

abbrev pub run_history : List (List Action) → Board → Board
run_history [] b = b
run_history (session ∷ sessions) b = run_session session (run_history sessions b)

module _ {S : Type 0} where
  abbrev pub board_of : Env S → Board
  board_of e = record { cell = e.cell; def_points = e.def_points; atk_points = e.atk_points }

  abbrev pub set_board : Board → Env S → Env S
  set_board b e = record e { cell = b.cell; def_points = b.def_points; atk_points = b.atk_points }

module _ {S : Type 0} ⦃s : Semaphore S⦄ where
  -- A move of `access_env`, or the `sem_wait` of `release_env`.
  abbrev pub IsCall : {e e' : Env S} {p p' : Pc} → Move e p e' p' → Type 0
  IsCall (ask lt h) = Unit {0}
  IsCall test = Unit {0}
  IsCall (wake h) = Unit {0}
  IsCall resume = Unit {0}
  IsCall (give_back h) = Unit {0}
  IsCall (work cell def_points atk_points) = ⊥
  IsCall (leave h) = ⊥

  -- A reachable state, with the sessions that have ended, and what the threads inside have done so far.
  pub data Traced (n : ℕ) (b : Board)
      : System S → List (List Action) → (ℕ → List Action) → Type 0 where
    begins :
        {e : Env S}
        → IsFresh e
        → board_of e ≡ b
        → Traced n b (record { env = e; pc = λ _. outside }) [] (λ _. [])
    calls :
        {t : System S} {log : List (List Action)} {did : ℕ → List Action} (i : ℕ) {e : Env S}
        {p : Pc}
        → Traced n b t log did
        → i < n
        → (m : Move t.env (t.pc i) e p) → IsCall m
        → Traced n b (record { env = e; pc = update t.pc i p }) log did
    acts :
        {t : System S} {log : List (List Action)} {did : ℕ → List Action} (i prio : ℕ) (f : Action)
        → Traced n b t log did
        → i < n
        → t.pc i ≡ inside prio
        → Traced n b
            (record {
              env = set_board (f (board_of t.env)) t.env;
              pc = update t.pc i (inside prio);
            })
            log
            (update did i (f ∷ did i))
    leaves :
        {t : System S} {log : List (List Action)} {did : ℕ → List Action} (i prio : ℕ) {e : Env S}
        → Traced n b t log did
        → i < n
        → t.pc i ≡ leaving prio
        → release_env prio t.env ≡ some e
        → Traced n b
            (record { env = e; pc = update t.pc i outside })
            (did i ∷ log)
            (update did i [])

  pub Traced-Reach :
      {n : ℕ} {b : Board} {t : System S} {log : List (List Action)} {did : ℕ → List Action}
      → Traced n b t log did
      → Reach n t
  Traced-Reach (begins fresh e) = start fresh
  Traced-Reach (calls i r lt m c) = later (Traced-Reach r) (pick i lt m)
  Traced-Reach (acts {t = t} i prio f r lt e) =
      let b = f (board_of t.env) in
      later (Traced-Reach r) (
        pick i lt (
          subst (λ p. Move t.env p (set_board b t.env) (inside prio)) (sym e)
            (work b.cell b.def_points b.atk_points)))
  Traced-Reach (leaves {t = t} i prio {e = e'} r lt e h) =
      later (Traced-Reach r) (pick i lt (subst (λ p. Move t.env p e' outside) (sym e) (leave h)))

  -- A call leaves the cells and the scores, and no session ends with it.
  pub IsCall-board :
      {e e' : Env S} {p p' : Pc} (m : Move e p e' p')
      → IsCall m
      → (board_of e' ≡ board_of e) × (uses_env p ≡ true → uses_env p' ≡ true)
  unfolding access_test access_resume
  IsCall-board (ask lt h) c = (refl, λ u. cc)
  IsCall-board test c = (ground arith, λ u. cc)
  IsCall-board (wake h) c = (refl, λ u. cc)
  IsCall-board resume c = (refl, λ u. cc)
  IsCall-board (give_back h) c = (refl, λ u. refl)
  IsCall-board (work cell def_points atk_points) c = absurd c
  IsCall-board (leave h) c = absurd c

  pub release_env-board :
      (prio : ℕ) (e e' : Env S)
      → prio < env_prios
      → release_env prio e ≡ some e'
      → board_of e' ≡ board_of e
  release_env-board prio e e' lt h =
      let both : ◌≡◌ {A = Option (Env S)}
          (some (hand_over e (first_blocked e.prio_sem (wake_order prio)))) (some e') =
        sym (release_env_lem prio e lt) ∙ h in
      let same : hand_over e (first_blocked e.prio_sem (wake_order prio)) ≡ e' = cc in
      subst (λ z. board_of z ≡ board_of e) same
        (by_woken (first_blocked e.prio_sem (wake_order prio)))
    where
      by_woken : (q : Option ℕ) → board_of (hand_over e q) ≡ board_of e
      by_woken none = refl
      by_woken (some q) = refl
