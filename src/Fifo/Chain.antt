-- ===== src/Fifo/Chain.antt =====
-- Linked lists in the array `next`: which indices a chain visits, and what writes leave of it.
use patriots_rtes.Prelude.{
  ℕ, ◌≤◌, ◌<◌, ◌≡◌, ◌≢◌, refl, update, update_ne, count, List, [], ◌∷◌, ◌++◌, ℤ, pos, arith, subst,
  sym,
}
use patriots_rtes.Config.{max_missiles, none_index}

-- From the index `i` the links visit the list, and end.
abbrev pub Chain : (ℕ → ℤ) → ℤ → List ℕ → Type 0
Chain next i [] = i ≡ none_index
Chain next i (k ∷ ks) = (i ≡ pos k) × (k < max_missiles) × Chain next (next k) ks

-- `t` is the last index of a list that is not empty.
abbrev pub IsTail : ℤ → List ℕ → Type 0
IsTail t [] = Unit {0}
IsTail t (k ∷ []) = t ≡ pos k
IsTail t (k ∷ l ∷ ks) = IsTail t (l ∷ ks)

-- A write at an index off the chain.
pub Chain-update :
    (next : ℕ → ℤ) (i : ℤ) (ks : List ℕ) (k : ℕ) (v : ℤ)
    → count k ks ≡ 0
    → Chain next i ks
    → Chain (update next k v) i ks
Chain-update next i [] k v off c = c
Chain-update next i (l ∷ ks) k v off c = (
  c.0,
  c.1,
  rw (update_ne next k l v (ground arith)) (Chain-update next (next l) ks k v (ground arith) c.2),
)

-- The tail of a chain is an index in range.
pub tail-pos :
    (next : ℕ → ℤ) (i t : ℤ) (k : ℕ) (ks : List ℕ)
    → Chain next i (k ∷ ks)
    → IsTail t (k ∷ ks)
    → (l : ℕ) × (t ≡ pos l) × (l < max_missiles) × (1 ≤ count l (k ∷ ks))
tail-pos next i t k [] c h = (k, h, c.1, ground arith)
tail-pos next i t k (m ∷ ks) c h =
    let (l, e, lt, on) = tail-pos next (next k) t m ks c.2 h in (l, e, lt, omega arith)

pub IsTail-count : (t k : ℕ) (ks : List ℕ) → IsTail (pos t) (k ∷ ks) → 1 ≤ count t (k ∷ ks)
IsTail-count t k [] h = ground arith
IsTail-count t k (m ∷ ks) h = omega (arith, IsTail-count t m ks h)

-- Linking `m` behind the tail of a chain without repetition appends it.
pub Chain-link :
    (next : ℕ → ℤ) (i : ℤ) (k : ℕ) (ks : List ℕ) (t m : ℕ)
    → Chain next i (k ∷ ks)
    → IsTail (pos t) (k ∷ ks)
    → ((l : ℕ) → count l (k ∷ ks) ≤ 1)
    → next m ≡ none_index
    → m < max_missiles
    → count m (k ∷ ks) ≡ 0
    → Chain (update next t (pos m)) i (k ∷ ks ++ m ∷ [])
Chain-link next i k [] t m c h once ended lm off = ground arith
Chain-link next i k (l ∷ ks) t m c h once ended lm off = (
  c.0,
  c.1,
  rw (update_ne next t k (pos m) off_tail)
      (Chain-link next (next k) l ks t m c.2 h (λ j. omega (arith, once j)) ended lm (omega arith)),
)
  where
    off_tail : t ≢ k
    off_tail e = absurd (ground (arith, IsTail-count t l ks h, once k, e))

pub IsTail-append : (m : ℕ) (k : ℕ) (ks : List ℕ) → IsTail (pos m) (k ∷ ks ++ m ∷ [])
IsTail-append m k [] = refl
IsTail-append m k (l ∷ ks) = IsTail-append m l ks

-- The links have one list only.
pub Chain-unique :
    (next : ℕ → ℤ) (i : ℤ) (ks ls : List ℕ) → Chain next i ks → Chain next i ls → ks ≡ ls
Chain-unique next i [] [] c d = refl
Chain-unique next i [] (l ∷ ls) c d = absurd (ground (arith, c, d.0))
Chain-unique next i (k ∷ ks) [] c d = absurd (ground (arith, c.0, d))
Chain-unique next i (k ∷ ks) (l ∷ ls) c d =
    let e : k ≡ l = ground (arith, c.0, d.0) in
    let rest =
      Chain-unique next (next k) ks ls c.2 (subst (λ j. Chain next (next j) ls) (sym e) d.2) in
    cc
