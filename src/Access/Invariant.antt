-- ===== src/Access/Invariant.antt =====
-- The invariant of the access protocol: it holds at the start and every step keeps it.
mod Defs
mod Counts
mod Moves
pub use Defs.*
pub use Counts.*
use Moves.{Move-Inv}
use patriots_rtes.Prelude.{ℕ, refl}
use patriots_rtes.Platform.{Semaphore}
use patriots_rtes.Access.Protocol.{System, Step, pick, Reach, start, later}

module _ {S : Type 0} ⦃s : Semaphore S⦄ where
  Step-Inv : {n : ℕ} {t u : System S} → Step n t u → Inv n t.env t.pc → Inv n u.env u.pc
  Step-Inv (pick i lt mv) inv = Move-Inv i lt inv mv refl

  pub Reach-Inv : {n : ℕ} {t : System S} → Reach n t → Inv n t.env t.pc
  Reach-Inv {n} (start {e} f) = Inv-init n e f
  Reach-Inv (later r st) = Step-Inv st (Reach-Inv r)
