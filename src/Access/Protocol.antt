-- ===== src/Access/Protocol.antt =====
-- Threads that call `access_env` and `release_env`, interleaved at the semaphore calls.
use patriots_rtes.Prelude.{ℕ, ◌<◌, ◌≡◌, update, Bool, true, false, some}
use patriots_rtes.Config.{env_prios}
use patriots_rtes.Platform.{Semaphore}
use patriots_rtes.World.{Env, Cell}
use patriots_rtes.Access.{access_test, access_resume, release_env}

-- Where a thread stands, with the priority of its call.
pub data Pc : Type 0 where
  outside : Pc
  testing : ℕ → Pc  -- in `access_env`, past the first `sem_wait`
  blocked : ℕ → Pc  -- at the `sem_wait` on the priority's semaphore
  woken : ℕ → Pc  -- past it
  inside : ℕ → Pc  -- between `access_env` and `release_env`
  leaving : ℕ → Pc  -- in `release_env`, past the `sem_wait`

abbrev pub after_test : ℕ → Bool → Pc
after_test prio true = inside prio
after_test prio false = blocked prio

module _ {S : Type 0} ⦃s : Semaphore S⦄ where
  open s use {sem_wait}

  -- One step of one thread. Inside, it may change the cells and the scores.
  pub data Move (e : Env S) : Pc → Env S → Pc → Type 0 where
    ask :
        {prio : ℕ} {m : S}
        → prio < env_prios
        → sem_wait e.mutex ≡ some m
        → Move e outside (record e { mutex = m }) (testing prio)
    test :
        {prio : ℕ}
        → Move e (testing prio) (access_test prio e).0 (after_test prio (access_test prio e).1)
    wake :
        {prio : ℕ} {t : S}
        → sem_wait (e.prio_sem prio).sem ≡ some t
        → Move e
            (blocked prio)
            (record e { prio_sem = update e.prio_sem prio (record (e.prio_sem prio) { sem = t }) })
            (woken prio)
    resume : {prio : ℕ} → Move e (woken prio) (access_resume prio e) (inside prio)
    work :
        {prio : ℕ} (cell : ℕ → ℕ → Cell) (def_points atk_points : ℕ)
        → Move e
            (inside prio)
            (record e { cell = cell; def_points = def_points; atk_points = atk_points })
            (inside prio)
    give_back :
        {prio : ℕ} {m : S}
        → sem_wait e.mutex ≡ some m
        → Move e (inside prio) (record e { mutex = m }) (leaving prio)
    leave :
        {prio : ℕ} {e' : Env S} → release_env prio e ≡ some e' → Move e (leaving prio) e' outside

pub record System (S : Type 0) : Type 0 where
  pub env : Env S
  pub pc : ℕ → Pc

module _ {S : Type 0} ⦃s : Semaphore S⦄ where
  open s use {value}

  -- One of the first `n` threads makes a step.
  pub data Step (n : ℕ) (t : System S) : System S → Type 0 where
    pick :
        (i : ℕ) {e : Env S} {p : Pc}
        → i < n
        → Move t.env (t.pc i) e p
        → Step n t (record { env = e; pc = update t.pc i p })

  -- What `init_env` leaves of the access state.
  pub record IsFresh (e : Env S) : Type 0 where
    pub mutex_free : value e.mutex ≡ 1
    pub nobody_in : e.count ≡ 0
    pub none_blocked : (p : ℕ) → p < env_prios → (e.prio_sem p).blk ≡ 0
    pub none_posted : (p : ℕ) → p < env_prios → value (e.prio_sem p).sem ≡ 0

  pub data Reach (n : ℕ) : System S → Type 0 where
    start : {e : Env S} → IsFresh e → Reach n (record { env = e; pc = λ _. outside })
    later : {t u : System S} → Reach n t → Step n t u → Reach n u
