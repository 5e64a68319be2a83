-- ===== src/Prelude/Arrays.antt =====
-- C arrays as functions of the index. `in_range` is the test that an access needs: an index that
-- fails it is out of bounds.
use Prim.Native.Nat.{ℕ, ◌+◌, ◌<◌}
use mathlib.Core.Path.{◌≡◌}
use mathlib.Core.Logic.{◌≢◌}
use mathlib.Core.Option.{Option, none, some}
use mathlib.Core.List.{List, [], ◌∷◌, ◌++◌}
use native.Mathlib.Omega.{arith}
use patriots_rtes.Prelude.Tests.{ltb, ◌==◌, if◌then◌else◌}
use patriots_rtes.Prelude.Int.{ℤ, pos, negsuc}

-- `a[i] = v`
abbrev pub update {ℓ} : {A : Type ℓ} → (ℕ → A) → ℕ → A → ℕ → A
update a i v j = if i == j then v else a j

-- The number of an index into an array of `size` elements.
abbrev pub in_range : ℕ → ℤ → Option ℕ
in_range size (pos i) = if ltb i size then some i else none
in_range size (negsuc i) = none

pub in_range_pos : (size i : ℕ) → i < size → in_range size (pos i) ≡ some i
in_range_pos size i h = ground arith

pub in_range-some : (size : ℕ) (z : ℤ) {i : ℕ} → in_range size z ≡ some i → (z ≡ pos i) × (i < size)
in_range-some size (pos j) h = ground arith
in_range-some size (negsuc j) h = cc

pub update_self {ℓ} : {A : Type ℓ} (a : ℕ → A) (i : ℕ) (v : A) → update a i v i ≡ v
update_self a i v = ground arith

pub update_ne {ℓ} : {A : Type ℓ} (a : ℕ → A) (i j : ℕ) (v : A) → i ≢ j → update a i v j ≡ a j
update_ne a i j v ne = ground arith

abbrev pub length {ℓ} : {A : Type ℓ} → List A → ℕ
length [] = 0
length (x ∷ xs) = length xs + 1

pub length-++ {ℓ} : {A : Type ℓ} (xs ys : List A) → length (xs ++ ys) ≡ length xs + length ys
length-++ [] ys = omega arith
length-++ (x ∷ xs) ys = omega (arith, length-++ xs ys)

-- How often a number stands in a list.
abbrev pub count : ℕ → List ℕ → ℕ
count k [] = 0
count k (x ∷ xs) = (if k == x then 1 else 0) + count k xs

pub count-append : (k : ℕ) (xs ys : List ℕ) → count k (xs ++ ys) ≡ count k xs + count k ys
count-append k [] ys = omega arith
count-append k (x ∷ xs) ys = omega (arith, count-append k xs ys)
