-- ===== src/Display/Texts.antt =====
-- The texts that src/gestor.c makes with `sprintf`: the labels with the scores, and the message of a
-- missile that missed its deadline. A text is the list of its characters' codes, without the NUL that
-- ends it in the buffer.
use Prim.Native.Char.{code}
use Prim.Native.String.{String}
use patriots_rtes.Prelude.{
  ℕ, zero, suc, ◌+◌, ◌-◌, ◌*◌, ◌/◌, ◌%◌, ◌^◌, ◌≤◌, ◌<◌, ◌≡◌, ◌==◌, ◌&&◌, Bool, true, false,
  if◌then◌else◌, leb, ℤ, pos, negsuc, List, [], ◌∷◌, ◌++◌, length, length-++, arith, Bool-cases,
  inl, inr,
}
use patriots_rtes.Config.{label_len, info_len}
use patriots_rtes.World.{MissileType, attacker, defender}
use patriots_rtes.Display.{
  Label, attack_points, defender_points, tutorial_text, goal_text, wall_text, atk_missile_text,
  def_missile_text,
}

abbrev pub Text : Type 0
Text = List ℕ

abbrev pub codes : String → Text
codes String.[] = []
codes (String.◌∷◌ c s) = code c ∷ codes s

-- The decimal digits of a number before a text; a fuel above the number is enough.
unfoldable pub digits : ℕ → ℕ → Text → Text
digits zero n s = s
digits (suc fuel) n s = elim (n / 10 == 0) [
  | true ↦ (b'0' + n % 10) ∷ s
  | false ↦ digits fuel (n / 10) ((b'0' + n % 10) ∷ s)
]

-- `%i`
unfoldable pub print_int : ℤ → Text
unfolding digits
print_int (pos n) = digits (suc n) n []
print_int (negsuc n) = b'-' ∷ digits (suc (suc n)) (suc n) []

-- `sprintf` with the conversion `%i`.
unfoldable pub sprintf : Text → List ℤ → Text
unfolding print_int
sprintf [] args = []
sprintf (c ∷ []) args = c ∷ []
sprintf (c ∷ d ∷ s) [] = c ∷ sprintf (d ∷ s) []
sprintf (c ∷ d ∷ s) (z ∷ args) = elim (c == b'%' && d == b'i') [
  | true ↦ print_int z ++ sprintf s args
  | false ↦ c ∷ sprintf (d ∷ s) (z ∷ args)
]

-- The strings that `draw_labels` and `draw_legends` draw.
unfoldable pub label_text : Label → Text
unfolding sprintf
label_text tutorial_text = codes "Press SPACE to create an attacker missile, ESC to exit"
label_text (attack_points p) = sprintf (codes "Attack points: %i") (pos p ∷ [])
label_text (defender_points p) = sprintf (codes "Defender points: %i") (pos p ∷ [])
label_text goal_text = codes ": GOAL"
label_text wall_text = codes ": WALL"
label_text atk_missile_text = codes ": ATK MISSILE"
label_text def_missile_text = codes ": DEF MISSILE"

-- An enumeration counts from 0.
abbrev pub type_code : MissileType → ℤ
type_code attacker = pos 0
type_code defender = pos 1

-- The string that `check_missile_deadline` makes of the format that `task_missile_movement` gives it.
unfoldable pub deadline_text : MissileType → ℤ → Text
unfolding sprintf
deadline_text type index =
    sprintf
      (codes "- Missle type %i index %i missed the deadline                     (0: ATK, 1: DEF)\n")
      (type_code type ∷ index ∷ [])

-- 10 ^ places
abbrev power_of_ten : ℕ → ℕ
power_of_ten zero = 1
power_of_ten (suc places) = 10 * power_of_ten places

-- A number below 10 ^ (places + 1) has at most `places + 1` digits.
digits-length :
    (places fuel n : ℕ) (s : Text)
    → n < power_of_ten (suc places)
    → length (digits fuel n s) ≤ suc places + length s
unfolding digits
digits-length places zero n s lt = omega arith
digits-length zero (suc fuel) n s lt = ground (arith, lt)
digits-length (suc places) (suc fuel) n s lt =
    ground (arith, digits-length places fuel (n / 10) ((b'0' + n % 10) ∷ s) (omega (arith, lt)))

is_digit : ℕ → Bool
is_digit c = leb b'0' c && leb c b'9'

-- The number that the digits of a text make, behind a number that has been read.
pub read_digits : ℕ → Text → ℕ
unfolding is_digit
read_digits v [] = v
read_digits v (c ∷ s) = read_digits (if is_digit c then v * 10 + (c - b'0') else v) s

digits-read : (fuel n : ℕ) (s : Text) → n < fuel → read_digits 0 (digits fuel n s) ≡ read_digits n s
unfolding digits read_digits is_digit
digits-read zero n s lt = absurd (omega (arith, lt))
digits-read (suc fuel) n s lt = elim (Bool-cases (n / 10 == 0)) [
  | inl last ↦ ground (arith, last)
  | inr more ↦
      ground
        (arith, more, digits-read fuel (n / 10) ((b'0' + n % 10) ∷ s) (ground (arith, more, lt)))
]

-- A C `int` has 32 bits.
abbrev pub IsInt : ℤ → Type 0
IsInt (pos n) = n < 2 ^ 31
IsInt (negsuc n) = n < 2 ^ 31

-- With its sign, it has eleven characters at most.
print_int-length : (z : ℤ) → IsInt z → length (print_int z) ≤ 11
unfolding print_int
print_int-length (pos n) i = omega (arith, digits-length 9 (suc n) n [] (omega (arith, i)))
print_int-length (negsuc n) i =
    omega (arith, digits-length 9 (suc (suc n)) (suc n) [] (omega (arith, i)))

number-length : (z : ℤ) (s : Text) → IsInt z → length (print_int z ++ s) ≤ 11 + length s
number-length z s i = omega (arith, length-++ (print_int z) s, print_int-length z i)

type_code-IsInt : (type : MissileType) → IsInt (type_code type)
type_code-IsInt attacker = omega arith
type_code-IsInt defender = omega arith

-- Whatever the scores, the index of a missile and its type are, as `int`s, the strings that are made
-- with `sprintf` and their NUL fit the buffers that they are made in.
pub texts_fit :
    (atk_p def_p : ℕ) (type : MissileType) (index : ℤ)
    → IsInt (pos atk_p)
    → IsInt (pos def_p)
    → IsInt index
    → (length (label_text (attack_points atk_p)) + 1 ≤ label_len)
      × (length (label_text (defender_points def_p)) + 1 ≤ label_len)
      × (length (deadline_text type index) + 1 ≤ info_len)
unfolding label_text deadline_text sprintf
texts_fit atk_p def_p type index ia id ii = (
  ground (arith, length-++ (print_int (pos atk_p)) [], print_int-length (pos atk_p) ia),
  ground (arith, length-++ (print_int (pos def_p)) [], print_int-length (pos def_p) id),
  (let rest = codes " missed the deadline                     (0: ATK, 1: DEF)\n" in
      let index_text = codes " index " ++ (print_int index ++ rest) in
      omega (
        arith,
        number-length (type_code type) index_text (type_code-IsInt type),
        number-length index rest ii,
      )),
)

-- The number that is printed is the number that its digits make.
pub print_int-read : (p : ℕ) → read_digits 0 (print_int (pos p)) ≡ p
unfolding print_int read_digits is_digit
print_int-read p = digits-read (suc p) p [] (omega arith)
