-- ===== src/Display/Tests.antt =====
-- The drawing of a field with one attacker.
use patriots_rtes.Prelude.{
  ℕ, ◌≡◌, ltb, ◌==◌, if◌then◌else◌, ◌&&◌, pos, negsuc, some, [], ◌∷◌, refl, ◌+◌, ◌≤◌, arith, length,
}
use patriots_rtes.Config.{xwin, ywin, label_len, info_len, label_x, get_y_label}
use patriots_rtes.World.{Env, atk_missile, defender}
use patriots_rtes.Grid.{init_cell_empty}
use patriots_rtes.Display.{
  display_round, display_manager, check_deadline, attack_points, defender_points,
}
use patriots_rtes.Display.Texts.{
  codes, digits, print_int, sprintf, label_text, deadline_text, texts_fit,
}
use patriots_rtes.Display.Scores.{Shows, texts_at, scores_shown}
use patriots_rtes.Display.Cells.{draws, is_red_at, attacks, draws-display_round}

abbrev field : Env ℕ
field = record {
  cell = λ x y.
      if x == 7 && y == 9
      then record { type = atk_missile; value = pos 2; target = negsuc 0 }
      else init_cell_empty;
  def_points = 1;
  atk_points = 2;
  count = 1;
  prio_sem = λ p. record { sem = 0; count = 0; blk = 0 };
  mutex = 1;
}

draws-display_round_example :
    draws (is_red_at 7 9) (display_round field)
    ≡ (ltb 7 xwin && ltb 9 ywin && attacks (field.cell 7 9))
draws-display_round_example = draws-display_round 7 9 field

-- Two rounds, of which the second misses its deadline.
two_rounds :
    display_manager (λ i. i == 2) (λ i. field) (λ i. i == 1) 5 0
    ≡ some ((display_round field, []) ∷ (display_round field, 1 ∷ []) ∷ [])
unfolding display_manager check_deadline
two_rounds = refl

greatest : label_text (attack_points 2147483647) ≡ codes "Attack points: 2147483647"
unfolding label_text sprintf print_int digits
greatest = refl

late :
    deadline_text defender (negsuc 0)
    ≡ codes "- Missle type 1 index -1 missed the deadline                     (0: ATK, 1: DEF)\n"
unfolding deadline_text sprintf print_int digits
late = refl

texts_fit_example :
    (length (label_text (attack_points 2147483647)) + 1 ≤ label_len)
    × (length (label_text (defender_points 12)) + 1 ≤ label_len)
    × (length (deadline_text defender (pos 3)) + 1 ≤ info_len)
texts_fit_example =
    texts_fit 2147483647 12 defender (pos 3) (omega arith) (omega arith) (omega arith)

scores_shown_example :
    Shows (codes "Attack points: ") 2 (texts_at label_x (get_y_label 1) (display_round field))
    × Shows (codes "Defender points: ") 1 (texts_at label_x (get_y_label 2) (display_round field))
scores_shown_example = scores_shown field
