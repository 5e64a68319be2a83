-- ===== src/Launchers/Loops.antt =====
-- The loop of the launcher of attackers: it ends once `end` is set, and launches what it takes.
use patriots_rtes.Prelude.{
  ℕ, zero, suc, ◌+◌, ◌≤◌, ◌<◌, ◌≡◌, refl, Bool, true, false, ℤ, pos, ◌≤ℤ◌, Option, some, List, [],
  ◌∷◌, ◌++◌, length, Result, ok, arith, ap, ◌∙◌, subst,
}
use mathlib.Core.List.{append_assoc, append-nil, map}
use patriots_rtes.Platform.{Semaphore, Floating}
use patriots_rtes.World.{MissileType, attacker, World}
use patriots_rtes.Tasks.{TaskCall, launch_atk_thread}
use patriots_rtes.Launchers.{Draws, Round, atk_launcher_round, atk_launcher}
use patriots_rtes.Launchers.Starts.{with_attacker, launch_atk_missile_lem}
use patriots_rtes.Launchers.Waits.{Sound, Provides, wait_next_index-TookIndex}

-- The flag is set in round `i + n`, counted from round `i`, and not before.
pub record SetAfter (ended : ℕ → Bool) (i n : ℕ) : Type 0 where
  pub not_before : (j : ℕ) → i ≤ j → j < i + n → ended j ≡ false
  pub set : ended (i + n) ≡ true

pub SetAfter-next :
    {ended : ℕ → Bool} {i n : ℕ} → SetAfter ended i (suc n) → SetAfter ended (i + 1) n
SetAfter-next {ended} s = record {
  not_before = λ j lo hi. s.not_before j (omega (arith, lo)) (omega (arith, hi));
  set = subst (λ j. ended j ≡ true) (omega arith) s.set;
}

pub SetAfter-now : {ended : ℕ → Bool} {i : ℕ} → SetAfter ended i 0 → ended i ≡ true
SetAfter-now {ended} s = subst (λ j. ended j ≡ true) (omega arith) s.set

pub SetAfter-not_now : {ended : ℕ → Bool} {i n : ℕ} → SetAfter ended i (suc n) → ended i ≡ false
SetAfter-not_now {i = i} s = s.not_before i (omega arith) (omega arith)

module _ {F S : Type 0} where
  -- A launcher's loop has returned; it has created the threads of the missiles `launched`, one after the
  -- other.
  pub record Launches (kind : MissileType) (thread : ℕ → TaskCall) (calls : List TaskCall)
      (r : Option (Result (World F S × List TaskCall))) : Type 0 where
    pub world : World F S
    pub launched : List ℕ
    pub returns : r ≡ some (ok (world, calls ++ map thread launched))
    pub sound : Sound kind world

module _ {F D S : Type 0} (fl : Floating F D) ⦃s : Semaphore S⦄ where
  -- A round of the launcher of attackers that has launched one.
  record AtkRound (r : Result (Round (World F S))) : Type 0 where
    world : World F S
    k : ℕ
    returns : r ≡ ok (record { world = world; calls = launch_atk_thread k ∷ []; index = pos k })
    sound : Sound attacker world

  atk_launcher_round-AtkRound :
      (waited : World F S → World F S) (draws : Draws F) (thread : ℤ) (w : World F S)
      → Sound attacker w
      → Provides fl attacker waited
      → pos 0 ≤ℤ thread
      → AtkRound (atk_launcher_round fl waited draws thread w)
  unfolding atk_launcher_round
  atk_launcher_round-AtkRound waited draws thread w sound provides created =
      let t = wait_next_index-TookIndex fl waited w sound provides in
      let q = t.sound.queue in
      record {
        world = with_attacker fl t.k t.in_queue thread t.world draws;
        k = t.k;
        returns =
            rw (t.returns, launch_atk_missile_lem fl t.k t.in_queue thread t.world draws created)
              refl;
        sound = record {
          cells = t.sound.cells;
          queue = record { free = q.free; used = q.used; lists = q.lists };
        };
      }

  -- If the flag is set when round `n` starts, and not before, every wait ends with an index requested,
  -- the others keep valid cells and a well-formed queue, and every task can be created, then
  -- `atk_launcher` returns, without a fault, and has created the threads of exactly `n` attackers.
  pub atk_launcher-Launches :
      (ended : ℕ → Bool) (waited others : ℕ → World F S → World F S) (draws : ℕ → Draws F)
      (threads : ℕ → ℤ)
      → ((j : ℕ) → Provides fl attacker (waited j))
      → ((j : ℕ) (v : World F S) → Sound attacker v → Sound attacker (others j v))
      → ((j : ℕ) → pos 0 ≤ℤ threads j)
      → (n fuel i : ℕ) (calls : List TaskCall) (w : World F S) → SetAfter ended i n
      → n < fuel
      → Sound attacker w
      → (l : Launches attacker launch_atk_thread calls
          (atk_launcher fl ended waited others draws threads fuel i calls w))
        × (length l.launched ≡ n)
  unfolding atk_launcher
  atk_launcher-Launches ended waited others draws threads provides keep created n zero i calls w set
        lt sound =
      absurd (omega (arith, lt))
  atk_launcher-Launches ended waited others draws threads provides keep created zero (suc fuel) i
        calls w set lt sound =
      (
        record {
          world = w;
          launched = [];
          returns = rw (SetAfter-now set, append-nil, atk_launcher) refl;
          sound = sound;
        },
        refl,
      )
  atk_launcher-Launches ended waited others draws threads provides keep created (suc n) (suc fuel) i
        calls w set lt sound =
      let r =
        atk_launcher_round-AtkRound (waited i) (draws i) (threads i) w sound (provides i)
          (created i) in
      let next = calls ++ launch_atk_thread r.k ∷ [] in
      let (l, many) =
        atk_launcher-Launches ended waited others draws threads provides keep created n fuel (i + 1)
          next (others i r.world) (SetAfter-next set) (omega (arith, lt))
          (keep i r.world r.sound) in
      (
        record {
          world = l.world;
          launched = r.k ∷ l.launched;
          returns =
              rw (SetAfter-not_now set, r.returns, atk_launcher)
                (l.returns
                  ∙ ap (λ c. some (ok (l.world, c)))
                      (append_assoc calls (launch_atk_thread r.k ∷ [])
                        (map launch_atk_thread l.launched)));
          sound = l.sound;
        },
        omega (arith, many),
      )
