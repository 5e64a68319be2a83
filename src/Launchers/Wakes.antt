-- ===== src/Launchers/Wakes.antt =====
-- The queue's protocol wakes a launcher only when an index is there for it.
use patriots_rtes.Prelude.{ℕ, ◌≤◌, ◌<◌, ◌≡◌, refl, List, [], ◌∷◌, arith}
use patriots_rtes.Prelude.Tally.{tally-pos}
use patriots_rtes.Platform.{Semaphore}
use patriots_rtes.World.{MissileType, attacker, defender, World, gestor_of}
use patriots_rtes.Fifo.Protocol.{Pc, write_woken, read_woken, Reach}
use patriots_rtes.Fifo.Invariant.{length, is_write_woken, is_read_woken, Reach-Good}
use patriots_rtes.Launchers.Waits.{HasIndex}

-- Where the thread of a launcher stands when it has been woken.
abbrev pub woken : MissileType → Pc
woken attacker = read_woken
woken defender = write_woken

split : (xs : List ℕ) → 1 ≤ length xs → (k : ℕ) × (ks : List ℕ) × (xs ≡ k ∷ ks)
split [] h = absurd (omega (arith, h))
split (k ∷ ks) h = (k, ks, refl)

module _ {F S : Type 0} ⦃s : Semaphore S⦄ {n : ℕ} where
  -- In a world whose queue is in a state that the queue's protocol reaches with a woken launcher in it, an
  -- index is there for the launcher: a requested one for attackers, a free one for defenders.
  woken-HasIndex :
      (kind : MissileType) (w : World F S) (pc : ℕ → Pc) (i : ℕ)
      → Reach n (record { gestor = (gestor_of kind w).gestor; pc = pc })
      → i < n
      → pc i ≡ woken kind
      → HasIndex kind w
  woken-HasIndex attacker w pc i r lt at =
      let good = Reach-Good r in
      let one = tally-pos is_read_woken n pc i lt (rw at refl) in
      let (k, used, e) = split good.used (omega (arith, good.inv.one_for_reader, one)) in
      (good.free, k, used, rw e at good.inv.lists)
  woken-HasIndex defender w pc i r lt at =
      let good = Reach-Good r in
      let one = tally-pos is_write_woken n pc i lt (rw at refl) in
      let (k, free, e) =
        split good.free
          (omega (arith, good.inv.one_for_writer (omega (arith, good.inv.write_blk, one)), one)) in
      (free, k, good.used, rw e at good.inv.lists)
