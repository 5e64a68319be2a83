-- ===== src/System/Lists.antt =====
-- What the operations on a queue leave of the use of an index.
use patriots_rtes.Prelude.{ℕ, zero, suc, ◌+◌, ◌≡◌, count, count-append, List, [], ◌∷◌, arith, subst}
use patriots_rtes.World.{FifoQueueGestor}
use patriots_rtes.Fifo.Chain.{Chain-unique}
use patriots_rtes.Fifo.Refinement.{Represents, IsNew}
use patriots_rtes.Fifo.Requests.{requested_lists}

-- The links determine both lists, so that an index in use is so for whatever lists they hold.
pub IsNew-any :
    {S : Type 0} (g : FifoQueueGestor S) (k : ℕ) (free used free' used' : List ℕ)
    → Represents g free used
    → Represents g free' used'
    → IsNew k free used
    → IsNew k free' used'
IsNew-any g k free used free' used' r r' new =
    let e = Chain-unique g.next g.free_index free free' r.free_chain r'.free_chain in
    let d = Chain-unique g.next g.head_index used used' r.used_chain r'.used_chain in
    (
      new.0,
      subst (λ a. count k a + count k used' ≡ 0) e
          (subst (λ b. count k free + count k b ≡ 0) d new.1),
    )

-- A request moves an index from one list to the other.
pub requested_lists-IsNew :
    (k : ℕ) (free used : List ℕ) (b : ℕ)
    → IsNew k free used
    → IsNew k (requested_lists free used b).0 (requested_lists free used b).1
requested_lists-IsNew k [] used b new = new
requested_lists-IsNew k (j ∷ free) used zero new = new
requested_lists-IsNew k (j ∷ free) used (suc b) new =
    (new.0, ground (arith, count-append k used (j ∷ []), new.1))
