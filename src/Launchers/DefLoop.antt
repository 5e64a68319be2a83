-- ===== src/Launchers/DefLoop.antt =====
-- The loop of the launcher of defenders: it ends once `end` is set, and launches what it takes.
use patriots_rtes.Prelude.{
  ℕ, zero, suc, ◌+◌, ◌≤◌, ◌<◌, ◌≡◌, ◌⊎◌, refl, Bool, true, false, inl, inr, ℤ, pos, ◌≤ℤ◌, leb_ℤ,
  some, List, [], ◌∷◌, ◌++◌, length, length-++, Result, ok, arith, sym, ap, ◌∙◌, subst,
}
use mathlib.Core.List.{append_assoc, map, map-append}
use patriots_rtes.Config.{max_missiles, none_index}
use patriots_rtes.Platform.{Semaphore, Floating}
use patriots_rtes.World.{defender, World}
use patriots_rtes.Fifo.Refinement.{Represents}
use patriots_rtes.Tracking.{search_screen_for_target}
use patriots_rtes.Tracking.Total.{
  search_screen_for_target-Fine, search_screen_for_target-SameQueues,
}
use patriots_rtes.Tasks.{TaskCall, launch_def_thread}
use patriots_rtes.Launchers.{Round, hold_index, def_launcher_round, def_launcher_loop, def_launcher}
use patriots_rtes.Launchers.Starts.{with_defender, launch_def_missile_lem}
use patriots_rtes.Launchers.Loops.{
  SetAfter, SetAfter-next, SetAfter-now, SetAfter-not_now, Launches,
}
use patriots_rtes.Launchers.Waits.{Sound, TookIndex, Provides, wait_def_index-TookIndex}

-- An index that the launcher of defenders holds, or none.
abbrev pub IsHeld : ℤ → Type 0
IsHeld z = (z ≡ none_index) ⊎ ((k : ℕ) × (z ≡ pos k) × (k < max_missiles))

module _ {F D S : Type 0} (fl : Floating F D) ⦃s : Semaphore S⦄ where
  hold_index-TookIndex :
      (waited : World F S → World F S) (held : ℤ) (w : World F S)
      → IsHeld held
      → Sound defender w
      → Provides fl defender waited
      → TookIndex defender (hold_index fl waited held w)
  hold_index-TookIndex waited held w (inl away) sound provides =
      let below : leb_ℤ (pos 0) held ≡ false = ground (arith, away) in
      rw (below, hold_index) (wait_def_index-TookIndex fl waited w sound provides)
  hold_index-TookIndex waited held w (inr (k, e, lt)) sound provides =
      let natural : leb_ℤ (pos 0) held ≡ true = ground (arith, e) in
      record {
        world = w;
        k = k;
        returns = rw (natural, hold_index) (ap (λ z. ok (w, z)) e);
        in_queue = lt;
        sound = sound;
      }

  -- A round of the launcher of defenders: it keeps its index, or has launched the missile of it.
  record DefRound (r : Result (Round (World F S))) : Type 0 where
    world : World F S
    launched : List ℕ
    index : ℤ
    returns :
        r ≡ ok (record { world = world; calls = map launch_def_thread launched; index = index })
    one_at_most : length launched ≤ 1
    is_held : IsHeld index
    sound : Sound defender world

  def_launcher_round-DefRound :
      (getpixel : ℕ → ℕ → ℕ) (waited : World F S → World F S) (thread held : ℤ) (w : World F S)
      → IsHeld held
      → Sound defender w
      → Provides fl defender waited
      → pos 0 ≤ℤ thread
      → DefRound (def_launcher_round fl getpixel waited thread held w)
  unfolding def_launcher_round
  def_launcher_round-DefRound getpixel waited thread held w is_held sound provides created =
      let t = hold_index-TookIndex waited held w is_held sound provides in
      let (p, e, valid) = search_screen_for_target-Fine getpixel (pos t.k) t.world t.sound.cells in
      let same =
        search_screen_for_target-SameQueues getpixel (pos t.k) t.world p.0 p.1 t.sound.cells e in
      by_found t p.0 p.1 e (record {
        cells = valid;
        queue = record {
          free = t.sound.queue.free;
          used = t.sound.queue.used;
          lists =
              subst (λ g. Represents g t.sound.queue.free t.sound.queue.used) (sym same.1)
                t.sound.queue.lists;
        };
      })
    where
      by_found :
          (t : TookIndex defender (hold_index fl waited held w)) (v : World F S) (found : Bool)
          → search_screen_for_target getpixel (pos t.k) t.world ≡ ok (v, found)
          → Sound defender v
          → DefRound (def_launcher_round fl getpixel waited thread held w)
      by_found t v true e after = record {
        world = with_defender fl t.k t.in_queue thread v;
        launched = t.k ∷ [];
        index = none_index;
        returns = rw (t.returns, e, launch_def_missile_lem fl t.k t.in_queue thread v created) refl;
        one_at_most = omega arith;
        is_held = inl refl;
        sound = record {
          cells = after.cells;
          queue = record {
            free = after.queue.free;
            used = after.queue.used;
            lists = after.queue.lists;
          };
        };
      }
      by_found t v false e after = record {
        world = v;
        launched = [];
        index = pos t.k;
        returns = rw (t.returns, e) refl;
        one_at_most = omega arith;
        is_held = inr (t.k, refl, t.in_queue);
        sound = after;
      }

  def_launcher_loop-Launches :
      (ended : ℕ → Bool) (screens : ℕ → ℕ → ℕ → ℕ) (waited others : ℕ → World F S → World F S)
      (threads : ℕ → ℤ)
      → ((j : ℕ) → Provides fl defender (waited j))
      → ((j : ℕ) (v : World F S) → Sound defender v → Sound defender (others j v))
      → ((j : ℕ) → pos 0 ≤ℤ threads j)
      → (n fuel i : ℕ) (calls : List TaskCall) (held : ℤ) (w : World F S) → SetAfter ended i n
      → n < fuel
      → IsHeld held
      → Sound defender w
      → (l : Launches defender launch_def_thread calls
          (def_launcher_loop fl ended screens waited others threads fuel i calls held w))
        × (length l.launched ≤ n + 1)
  unfolding def_launcher_loop
  def_launcher_loop-Launches ended screens waited others threads provides keep created n zero i
        calls held w set lt is_held sound =
      absurd (omega (arith, lt))
  def_launcher_loop-Launches ended screens waited others threads provides keep created zero
        (suc fuel) i calls held w set lt is_held sound =
      let r =
        def_launcher_round-DefRound (screens i) (waited i) (threads i) held w is_held sound
          (provides i) (created i) in
      (
        record {
          world = r.world;
          launched = r.launched;
          returns = rw (r.returns, SetAfter-now set, def_launcher_loop) refl;
          sound = r.sound;
        },
        omega (arith, r.one_at_most),
      )
  def_launcher_loop-Launches ended screens waited others threads provides keep created (suc n)
        (suc fuel) i calls held w set lt is_held sound =
      let r =
        def_launcher_round-DefRound (screens i) (waited i) (threads i) held w is_held sound
          (provides i) (created i) in
      let next = calls ++ map launch_def_thread r.launched in
      let (l, many) =
        def_launcher_loop-Launches ended screens waited others threads provides keep created n fuel
          (i + 1) next r.index (others i r.world) (SetAfter-next set) (omega (arith, lt)) r.is_held
          (keep i r.world r.sound) in
      (
        record {
          world = l.world;
          launched = r.launched ++ l.launched;
          returns =
              rw (r.returns, SetAfter-not_now set, def_launcher_loop)
                (l.returns
                  ∙ ap (λ c. some (ok (l.world, c)))
                      (append_assoc calls (map launch_def_thread r.launched)
                          (map launch_def_thread l.launched)
                        ∙ ap (λ c. calls ++ c)
                            (sym (map-append launch_def_thread r.launched l.launched))));
          sound = l.sound;
        },
        omega (arith, many, r.one_at_most, length-++ r.launched l.launched),
      )

  -- If the flag is set when round `n` ends, and not before, every wait ends with a free index, the
  -- others keep valid cells and a well-formed queue, and every task can be created, then
  -- `def_launcher` returns, without a fault, and has created the threads of `n + 1` defenders at most.
  pub def_launcher-Launches :
      (ended : ℕ → Bool) (screens : ℕ → ℕ → ℕ → ℕ) (first : World F S → World F S)
      (waited others : ℕ → World F S → World F S) (threads : ℕ → ℤ) (n fuel : ℕ) (w : World F S)
      → Provides fl defender first
      → ((j : ℕ) → Provides fl defender (waited j))
      → ((j : ℕ) (v : World F S) → Sound defender v → Sound defender (others j v))
      → ((j : ℕ) → pos 0 ≤ℤ threads j)
      → SetAfter ended 0 n
      → n < fuel
      → Sound defender w
      → (l : Launches defender launch_def_thread []
          (def_launcher fl ended screens first waited others threads fuel w))
        × (length l.launched ≤ n + 1)
  unfolding def_launcher
  def_launcher-Launches ended screens first waited others threads n fuel w provides_first provides
        keep created set lt sound =
      let t = wait_def_index-TookIndex fl first w sound provides_first in
      let (l, many) =
        def_launcher_loop-Launches ended screens waited others threads provides keep created n fuel
          0 [] (pos t.k) t.world set lt (inr (t.k, refl, t.in_queue)) t.sound in
      (
        record {
          world = l.world;
          launched = l.launched;
          returns = rw (t.returns, def_launcher) l.returns;
          sound = l.sound;
        },
        many,
      )
