-- ===== src/Platform.antt =====
-- What the program takes from the C library: POSIX semaphores. Each is an interface with the laws that
-- its documentation gives; the values of a platform stand for the library.
use patriots_rtes.Prelude.{
  ℕ, zero, suc, ◌+◌, ◌-◌, ◌*◌, ◌/◌, ◌≤◌, ◌≡◌, refl, Option, none, some, Bool, true, false, ltb, leb,
  ℤ, pos, pos_part, ◌≤ℤ◌, arith, sub_ℕ, ltb_ℤ, leb_ℤ, negsuc, ◌+ℤ◌, ◌-ℤ◌,
}
use patriots_rtes.Config.{xwin}

-- `sem_init`, `sem_post` and `sem_wait` on an unnamed semaphore. `wait s` is `none` where the caller
-- would block, and `value` is what `sem_getvalue` reads.
pub record Semaphore (S : Type 0) : Type 0 where
  pub sem_init : ℕ → S
  pub sem_post : S → S
  pub sem_wait : S → Option S
  pub value : S → ℕ
  pub value-init : (n : ℕ) → value (sem_init n) ≡ n
  pub value-post : (s : S) → value (sem_post s) ≡ value s + 1
  pub value-wait : (s t : S) → sem_wait s ≡ some t → value s ≡ value t + 1
  pub wait-blocks : (s : S) → sem_wait s ≡ none → value s ≡ 0

-- A counter meets the laws.
abbrev pub counter_wait : ℕ → Option ℕ
counter_wait zero = none
counter_wait (suc n) = some n

pub counter-wait : (s t : ℕ) → counter_wait s ≡ some t → s ≡ t + 1
counter-wait zero t h = cc
counter-wait (suc s) t h = ground arith

pub counter-blocks : (s : ℕ) → counter_wait s ≡ none → s ≡ 0
counter-blocks zero h = refl
counter-blocks (suc s) h = cc

instance abbrev pub counting : Semaphore ℕ
counting = record {
  sem_init = λ n. n;
  sem_post = λ n. n + 1;
  sem_wait = counter_wait;
  value = λ n. n;
  value-init = λ n. refl;
  value-post = λ n. refl;
  value-wait = counter-wait;
  wait-blocks = counter-blocks;
}

-- The arithmetic of C on `float` (`F`) and on `double` (`D`), and what <math.h> adds. The laws are
-- those of the order, of rounding to the nearest in the range of the window, and of the cast to `int`.
pub record Floating (F D : Type 0) : Type 0 where
  pub of_int : ℤ → F
  pub add : F → F → F
  pub sub : F → F → F
  pub mul : F → F → F
  pub div : F → F → F
  pub neg : F → F
  pub lt : F → F → Bool
  pub le : F → F → Bool
  pub to_int : F → ℤ
  pub widen : F → D
  pub narrow : D → F
  pub double_of_int : ℤ → D
  pub double_add : D → D → D
  pub double_sub : D → D → D
  pub double_mul : D → D → D
  pub double_div : D → D → D
  pub double_lt : D → D → Bool
  pub pi : D
  pub fabs : D → D
  pub sqrt : D → D
  pub square : D → D  -- pow(x, 2)
  pub cos : D → D
  pub sin : D → D
  pub le_trans : (a b c : F) → le a b ≡ true → le b c ≡ true → le a c ≡ true
  pub lt_asym : (a b : F) → lt a b ≡ true → lt b a ≡ false
  pub of_int-le : (m n : ℕ) → m ≤ n → le (of_int (pos m)) (of_int (pos n)) ≡ true
  pub midpoint :
      (a b : F)
      → le (of_int (pos 0)) a ≡ true
      → le a b ≡ true
      → le b (of_int (pos xwin)) ≡ true
      → (le a (div (add a b) (of_int (pos 2))) ≡ true)
        × (le (div (add a b) (of_int (pos 2))) b ≡ true)
  pub to_int-bounds :
      (m n : ℕ) (a : F)
      → n ≤ xwin
      → le (of_int (pos m)) a ≡ true
      → le a (of_int (pos n)) ≡ true
      → (pos m ≤ℤ to_int a) × (to_int a ≤ℤ pos n)

-- Whole numbers from 0 on, with every function rounded down, meet the laws.
pub whole_trans : (a b c : ℕ) → leb a b ≡ true → leb b c ≡ true → leb a c ≡ true
whole_trans a b c p q = ground arith

pub whole-lt_asym : (a b : ℕ) → ltb a b ≡ true → ltb b a ≡ false
whole-lt_asym a b p = ground arith

pub whole-of_int : (m n : ℕ) → m ≤ n → leb m n ≡ true
whole-of_int m n h = ground arith

pub whole-midpoint :
    (a b : ℕ)
    → leb 0 a ≡ true
    → leb a b ≡ true
    → leb b xwin ≡ true
    → (leb a ((a + b) / 2) ≡ true) × (leb ((a + b) / 2) b ≡ true)
whole-midpoint a b z p q = ground arith

pub whole-to_int :
    (m n a : ℕ) → leb m a ≡ true → leb a n ≡ true → (pos m ≤ℤ pos a) × (pos a ≤ℤ pos n)
whole-to_int m n a p q = ground arith

abbrev pub whole : Floating ℕ ℕ
whole = record {
  of_int = pos_part;
  add = λ a b. a + b;
  sub = λ a b. a - b;
  mul = λ a b. a * b;
  div = λ a b. a / b;
  neg = λ a. 0;
  lt = ltb;
  le = leb;
  to_int = pos;
  widen = λ a. a;
  narrow = λ a. a;
  double_of_int = pos_part;
  double_add = λ a b. a + b;
  double_sub = λ a b. a - b;
  double_mul = λ a b. a * b;
  double_div = λ a b. a / b;
  double_lt = ltb;
  pi = 3;
  fabs = λ a. a;
  sqrt = λ a. a;
  square = λ a. a * a;
  cos = λ a. 1;
  sin = λ a. 0;
  le_trans = whole_trans;
  lt_asym = whole-lt_asym;
  of_int-le = whole-of_int;
  midpoint = whole-midpoint;
  to_int-bounds = λ m n a h. whole-to_int m n a;
}

-- Thousandths, rounded towards zero, meet the laws too, with negative values. The angle counts as a
-- right one.
abbrev pub product : ℤ → ℤ → ℤ
product (pos a) (pos b) = pos (a * b / 1000)
product (pos a) (negsuc b) = sub_ℕ 0 (a * suc b / 1000)
product (negsuc a) (pos b) = sub_ℕ 0 (suc a * b / 1000)
product (negsuc a) (negsuc b) = pos (suc a * suc b / 1000)

abbrev pub quotient : ℤ → ℤ → ℤ
quotient (pos a) (pos b) = pos (a * 1000 / b)
quotient (pos a) (negsuc b) = sub_ℕ 0 (a * 1000 / suc b)
quotient (negsuc a) (pos b) = sub_ℕ 0 (suc a * 1000 / b)
quotient (negsuc a) (negsuc b) = pos (suc a * 1000 / suc b)

abbrev pub scaled : ℤ → ℤ
scaled (pos n) = pos (1000 * n)
scaled (negsuc n) = negsuc (1000 * n + 999)

abbrev pub truncated : ℤ → ℤ
truncated (pos n) = pos (n / 1000)
truncated (negsuc n) = sub_ℕ 0 (suc n / 1000)

abbrev pub magnitude : ℤ → ℤ
magnitude (pos n) = pos n
magnitude (negsuc n) = pos (suc n)

pub fixed_trans : (a b c : ℤ) → leb_ℤ a b ≡ true → leb_ℤ b c ≡ true → leb_ℤ a c ≡ true
fixed_trans a b c p q = ground arith

pub fixed-lt_asym : (a b : ℤ) → ltb_ℤ a b ≡ true → ltb_ℤ b a ≡ false
fixed-lt_asym a b p = ground arith

pub fixed-of_int : (m n : ℕ) → m ≤ n → leb_ℤ (scaled (pos m)) (scaled (pos n)) ≡ true
fixed-of_int m n h = ground arith

pub fixed-midpoint :
    (a b : ℤ)
    → leb_ℤ (pos 0) a ≡ true
    → leb_ℤ a b ≡ true
    → leb_ℤ b (scaled (pos xwin)) ≡ true
    → (leb_ℤ a (quotient (a +ℤ b) (scaled (pos 2))) ≡ true)
      × (leb_ℤ (quotient (a +ℤ b) (scaled (pos 2))) b ≡ true)
fixed-midpoint (pos a) (pos b) z p q = ground arith
fixed-midpoint (pos a) (negsuc b) z p q = absurd (ground arith)
fixed-midpoint (negsuc a) b z p q = absurd (ground arith)

pub fixed-to_int :
    (m n : ℕ) (a : ℤ)
    → leb_ℤ (scaled (pos m)) a ≡ true
    → leb_ℤ a (scaled (pos n)) ≡ true
    → (pos m ≤ℤ truncated a) × (truncated a ≤ℤ pos n)
fixed-to_int m n (pos a) p q = ground arith
fixed-to_int m n (negsuc a) p q = absurd (ground arith)

abbrev pub fixed : Floating ℤ ℤ
fixed = record {
  of_int = scaled;
  add = λ a b. a +ℤ b;
  sub = λ a b. a -ℤ b;
  mul = product;
  div = quotient;
  neg = λ a. pos 0 -ℤ a;
  lt = ltb_ℤ;
  le = leb_ℤ;
  to_int = truncated;
  widen = λ a. a;
  narrow = λ a. a;
  double_of_int = scaled;
  double_add = λ a b. a +ℤ b;
  double_sub = λ a b. a -ℤ b;
  double_mul = product;
  double_div = quotient;
  double_lt = ltb_ℤ;
  pi = pos 3142;
  fabs = magnitude;
  sqrt = λ a. a;
  square = λ a. product a a;
  cos = λ a. pos 0;
  sin = λ a. pos 1000;
  le_trans = fixed_trans;
  lt_asym = fixed-lt_asym;
  of_int-le = fixed-of_int;
  midpoint = fixed-midpoint;
  to_int-bounds = λ m n a h. fixed-to_int m n a;
}
