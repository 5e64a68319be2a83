-- ===== src/Prelude/Tally.antt =====
-- Threads as a family indexed by number: how many of the first `n` have a property, and how that
-- number changes when one of them moves.
use Prim.Native.Nat.{ℕ, zero, suc, ◌+◌, ◌≤◌, ◌<◌}
use mathlib.Core.Path.{◌≡◌, refl}
use mathlib.Core.Logic.{◌⊎◌, inl, inr, ◌≢◌}
use mathlib.Core.Bool.{Bool, true, false}
use native.Mathlib.Omega.{arith}
use native.Mathlib.Decide.{dec_lt}
use patriots_rtes.Prelude.Arrays.{update}

abbrev pub bit : Bool → ℕ
bit true = 1
bit false = 0

module _ {ℓ} {A : Type ℓ} (p : A → Bool) where
  unfoldable pub tally : ℕ → (ℕ → A) → ℕ
  tally zero f = 0
  tally (suc n) f = bit (p (f n)) + tally n f

  tally-update_above :
      (n : ℕ) (f : ℕ → A) (i : ℕ) (a : A) → n ≤ i → tally n (update f i a) ≡ tally n f
  unfolding tally
  tally-update_above zero f i a h = refl
  tally-update_above (suc n) f i a h = ground (arith, tally-update_above n f i a)

  -- One thread moves from `f i` to `a`.
  pub tally-update :
      (n : ℕ) (f : ℕ → A) (i : ℕ) (a : A)
      → i < n
      → tally n (update f i a) + bit (p (f i)) ≡ tally n f + bit (p a)
  unfolding tally
  tally-update zero f i a h = absurd (omega arith)
  tally-update (suc n) f i a h = elim (dec_lt i n) [
    | yes below ↦ ground (arith, tally-update n f i a below)
    | no top ↦ ground (arith, tally-update_above n f i a)
  ]

  pub tally-pos : (n : ℕ) (f : ℕ → A) (i : ℕ) → i < n → p (f i) ≡ true → 1 ≤ tally n f
  unfolding tally
  tally-pos zero f i h e = absurd (omega arith)
  tally-pos (suc n) f i h e = elim (dec_lt i n) [
    | yes below ↦ omega (arith, tally-pos n f i below e)
    | no top ↦ ground arith
  ]

  -- Two different threads count twice.
  pub tally_two :
      (n : ℕ) (f : ℕ → A) (i j : ℕ)
      → i < n
      → j < n
      → i ≢ j
      → p (f i) ≡ true
      → p (f j) ≡ true
      → 2 ≤ tally n f
  unfolding tally
  tally_two zero f i j hi hj ne ei ej = absurd (omega arith)
  tally_two (suc n) f i j hi hj ne ei ej = elim (dec_lt i n) [
    | yes below_i ↦ elim (dec_lt j n) [
      | yes below_j ↦ omega (arith, tally_two n f i j below_i below_j ne ei ej)
      | no top_j ↦ ground (arith, tally-pos n f i below_i ei)
    ]
    | no top_i ↦ ground (arith, tally-pos n f j (omega arith) ej)
  ]

  -- A positive tally names a thread.
  pub tally_witness : (n : ℕ) (f : ℕ → A) → 1 ≤ tally n f → (i : ℕ) × (i < n) × (p (f i) ≡ true)
  unfolding tally
  tally_witness zero f h = absurd (omega arith)
  tally_witness (suc n) f h = elim (cases (p (f n)) refl) [
    | inl e ↦ (n, omega arith, e)
    | inr below ↦ let (i, lt, e) = tally_witness n f below in (i, omega arith, e)
  ]
    where
      cases : (b : Bool) → p (f n) ≡ b → (p (f n) ≡ true) ⊎ (1 ≤ tally n f)
      cases true e = inl e
      cases false e = inr (ground arith)

  pub tally-zero : (n : ℕ) (f : ℕ → A) → ((i : ℕ) → p (f i) ≡ false) → tally n f ≡ 0
  unfolding tally
  tally-zero zero f h = refl
  tally-zero (suc n) f h = ground (arith, h n, tally-zero n f h)
