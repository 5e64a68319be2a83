-- ===== src/Access/Serial.antt =====
-- The sessions of the threads are serial.
use patriots_rtes.Prelude.{
  ℕ, ◌<◌, ◌≡◌, ◌≢◌, refl, sym, ap, ◌∙◌, subst, update, update_self, update_ne, true, false,
  Bool-cases, inl, inr, some, List, [], ◌∷◌,
}
use mathlib.Core.Bool.{false≢true}
use native.Mathlib.Decide.{ℕ_discrete}
use patriots_rtes.Platform.{Semaphore}
use patriots_rtes.World.{Env}
use patriots_rtes.Access.{release_env}
use patriots_rtes.Access.Protocol.{Pc, inside, leaving, outside, Move, System, Reach}
use patriots_rtes.Access.Invariant.{Reach-Inv, uses_env}
use patriots_rtes.Access.Safety.{mutual_exclusion}
use patriots_rtes.Access.Sessions.{
  Board, Action, run_session, run_history, board_of, set_board, IsCall, Traced, begins, calls, acts,
  leaves, Traced-Reach, IsCall-board, release_env-board,
}

module _ {S : Type 0} ⦃s : Semaphore S⦄ where
  -- While one thread has the environment, another has not.
  other_out :
      {n : ℕ} {t : System S}
      → Reach n t
      → (i j : ℕ) → i < n
      → j < n
      → uses_env (t.pc i) ≡ true
      → i ≢ j
      → uses_env (t.pc j) ≡ false
  other_out {t = t} r i j hi hj ui ne = elim (Bool-cases (uses_env (t.pc j))) [
    | inl uj ↦ absurd (ne (mutual_exclusion r i j hi hj ui uj))
    | inr off ↦ off
  ]

module _ {S : Type 0} ⦃s : Semaphore S⦄ (n : ℕ) (b : Board) where
  record Serial (t : System S) (log : List (List Action)) (did : ℕ → List Action) : Type 0 where
    alone :
        (i : ℕ)
        → i < n
        → uses_env (t.pc i) ≡ true
        → board_of t.env ≡ run_session (did i) (run_history log b)
    nobody : ((i : ℕ) → i < n → uses_env (t.pc i) ≡ false) → board_of t.env ≡ run_history log b
    idle : (i : ℕ) → i < n → uses_env (t.pc i) ≡ false → did i ≡ []

  calls-Serial :
      (t : System S) (log : List (List Action)) (did : ℕ → List Action) (i : ℕ) (e : Env S) (p : Pc)
      → i < n
      → (m : Move t.env (t.pc i) e p) → IsCall m
      → Reach n (record { env = e; pc = update t.pc i p })
      → Serial t log did
      → Serial (record { env = e; pc = update t.pc i p }) log did
  calls-Serial t log did i e p lt m c r v = record {
    alone = λ j lj uj. (IsCall-board m c).0 ∙ alone_before j lj uj (ℕ_discrete i j);
    nobody =
        λ none. (IsCall-board m c).0 ∙ v.nobody (λ j lj. before j (none j lj) (ℕ_discrete i j));
    idle = λ j lj off. v.idle j lj (before j off (ℕ_discrete i j));
  }
    where
      before :
          (j : ℕ) → uses_env (update t.pc i p j) ≡ false → Dec (i ≡ j) → uses_env (t.pc j) ≡ false
      before j off (no ne) = ap uses_env (sym (update_ne t.pc i j p ne)) ∙ off
      before j off (yes same) = elim (Bool-cases (uses_env (t.pc i))) [
        | inl on ↦
            let ends =
              ap uses_env (sym (update_self t.pc i p))
              ∙ subst (λ k. uses_env (update t.pc i p k) ≡ false) (sym same) off in
            absurd (false≢true (sym ends ∙ (IsCall-board m c).1 on))
        | inr out ↦ subst (λ k. uses_env (t.pc k) ≡ false) same out
      ]

      enters_alone :
          uses_env (t.pc i) ≡ false
          → uses_env (update t.pc i p i) ≡ true
          → (j : ℕ) → j < n
          → Dec (i ≡ j)
          → uses_env (t.pc j) ≡ false
      enters_alone out on j lj (yes same) = subst (λ k. uses_env (t.pc k) ≡ false) same out
      enters_alone out on j lj (no ne) =
          ap uses_env (sym (update_ne t.pc i j p ne)) ∙ other_out r i j lt lj on ne

      alone_before :
          (j : ℕ)
          → j < n
          → uses_env (update t.pc i p j) ≡ true
          → Dec (i ≡ j)
          → board_of t.env ≡ run_session (did j) (run_history log b)
      alone_before j lj uj (no ne) = v.alone j lj (ap uses_env (sym (update_ne t.pc i j p ne)) ∙ uj)
      alone_before j lj uj (yes same) = elim (Bool-cases (uses_env (t.pc j))) [
        | inl on ↦ v.alone j lj on
        | inr out ↦ rw (v.idle j lj out) (
            v.nobody (λ k lk.
              enters_alone (subst (λ k. uses_env (t.pc k) ≡ false) (sym same) out)
                (subst (λ k. uses_env (update t.pc i p k) ≡ true) (sym same) uj) k lk
                (ℕ_discrete i k)))
      ]

  acts-Serial :
      (t : System S) (log : List (List Action)) (did : ℕ → List Action) (i prio : ℕ) (f : Action)
      → i < n
      → t.pc i ≡ inside prio
      → Reach n t
      → Serial t log did
      → Serial
          (record { env = set_board (f (board_of t.env)) t.env; pc = update t.pc i (inside prio) })
          log
          (update did i (f ∷ did i))
  acts-Serial t log did i prio f lt e r v = record {
    alone = λ j lj uj. alone j lj uj (ℕ_discrete i j);
    nobody = λ none.
        absurd (false≢true (sym (none i lt) ∙ ap uses_env (update_self t.pc i (inside prio))));
    idle = λ j lj off. idle j lj off (ℕ_discrete i j);
  }
    where
      uses : uses_env (t.pc i) ≡ true
      uses = ap uses_env e

      alone :
          (j : ℕ)
          → j < n
          → uses_env (update t.pc i (inside prio) j) ≡ true
          → Dec (i ≡ j)
          → f (board_of t.env) ≡ run_session (update did i (f ∷ did i) j) (run_history log b)
      alone j lj uj (yes same) =
          subst
            (λ k. f (board_of t.env) ≡ run_session (update did i (f ∷ did i) k) (run_history log b))
            same (rw (update_self did i (f ∷ did i)) (ap f (v.alone i lt uses)))
      alone j lj uj (no ne) = absurd (
          false≢true (
            sym (other_out r i j lt lj uses ne)
            ∙ ap uses_env (sym (update_ne t.pc i j (inside prio) ne))
            ∙ uj))

      idle :
          (j : ℕ)
          → j < n
          → uses_env (update t.pc i (inside prio) j) ≡ false
          → Dec (i ≡ j)
          → update did i (f ∷ did i) j ≡ []
      idle j lj off (yes same) = absurd (
          false≢true (
            sym off
            ∙ subst (λ k. uses_env (update t.pc i (inside prio) k) ≡ true) same
                (ap uses_env (update_self t.pc i (inside prio)))))
      idle j lj off (no ne) =
          update_ne did i j (f ∷ did i) ne
          ∙ v.idle j lj (ap uses_env (sym (update_ne t.pc i j (inside prio) ne)) ∙ off)

  leaves-Serial :
      (t : System S) (log : List (List Action)) (did : ℕ → List Action) (i prio : ℕ) (e : Env S)
      → i < n
      → t.pc i ≡ leaving prio
      → release_env prio t.env ≡ some e
      → Reach n t
      → Serial t log did
      → Serial (record { env = e; pc = update t.pc i outside }) (did i ∷ log) (update did i [])
  leaves-Serial t log did i prio e lt at h r v = record {
    alone = λ j lj uj. absurd (false≢true (sym (out j lj (ℕ_discrete i j)) ∙ uj));
    nobody = λ none. board ∙ v.alone i lt uses;
    idle = λ j lj off. idle j lj (ℕ_discrete i j);
  }
    where
      uses : uses_env (t.pc i) ≡ true
      uses = ap uses_env at

      board : board_of e ≡ board_of t.env
      board = let inv = Reach-Inv r in release_env-board prio t.env e (rw at at (inv.legal i)) h

      out : (j : ℕ) → j < n → Dec (i ≡ j) → uses_env (update t.pc i outside j) ≡ false
      out j lj (yes same) =
          subst (λ k. uses_env (update t.pc i outside k) ≡ false) same
            (ap uses_env (update_self t.pc i outside))
      out j lj (no ne) = ap uses_env (update_ne t.pc i j outside ne) ∙ other_out r i j lt lj uses ne

      idle : (j : ℕ) → j < n → Dec (i ≡ j) → update did i [] j ≡ []
      idle j lj (yes same) = subst (λ k. update did i [] k ≡ []) same (update_self did i [])
      idle j lj (no ne) = update_ne did i j [] ne ∙ v.idle j lj (other_out r i j lt lj uses ne)

  Traced-Serial :
      {t : System S} {log : List (List Action)} {did : ℕ → List Action}
      → Traced n b t log did
      → Serial t log did
  Traced-Serial (begins fresh e) = record {
    alone = λ i lt u. absurd (false≢true u);
    nobody = λ none. e;
    idle = λ i lt off. refl;
  }
  Traced-Serial (calls {t = t} {log = log} {did = did} i {e = e} {p = p} r lt m c) =
      calls-Serial t log did i e p lt m c (Traced-Reach (calls i r lt m c)) (Traced-Serial r)
  Traced-Serial (acts {t = t} {log = log} {did = did} i prio f r lt e) =
      acts-Serial t log did i prio f lt e (Traced-Reach r) (Traced-Serial r)
  Traced-Serial (leaves {t = t} {log = log} {did = did} i prio {e = e} r lt at h) =
      leaves-Serial t log did i prio e lt at h (Traced-Reach r) (Traced-Serial r)

  -- However the threads' steps interleave, the cells and the scores are what the sessions that have
  -- ended make of those at the start, one after the other; and if a thread has the environment, what
  -- its own actions make of that, and no other thread has acted since it came in.
  pub sessions_serial :
      {t : System S} {log : List (List Action)} {did : ℕ → List Action}
      → Traced n b t log did
      → ((i : ℕ)
          → i < n
          → uses_env (t.pc i) ≡ true
          → (board_of t.env ≡ run_session (did i) (run_history log b))
            × ((j : ℕ) → j < n → i ≢ j → did j ≡ []))
        × (((i : ℕ) → i < n → uses_env (t.pc i) ≡ false) → board_of t.env ≡ run_history log b)
  sessions_serial r =
      let v = Traced-Serial r in
      (
        λ i lt u.
            (v.alone i lt u, λ j lj ne. v.idle j lj (other_out (Traced-Reach r) i j lt lj u ne)),
        v.nobody,
      )
