-- ===== src/Display/Scores.antt =====
-- Which texts a drawing of the environment has at the places of the two scores.
use patriots_rtes.Prelude.{
  ℕ, zero, suc, ◌+◌, ◌≡◌, refl, ◌==◌, ◌&&◌, if◌then◌else◌, not, List, [], ◌∷◌, ◌++◌, arith, ap, sym,
  pos, ◌∙◌,
}
use mathlib.Core.List.{append_assoc, append-nil}
use patriots_rtes.Config.{xwin, ywin, label_x, get_y_label}
use patriots_rtes.World.{Cell, Env}
use patriots_rtes.Grid.{is_empty_cell}
use patriots_rtes.Display.{
  DrawCommand, textout_ex, draw_cell, draw_column, draw_columns, draw_env, draw_legend,
  draw_legends, draw_labels, display_round, reset_buffer, draw_buffer_to_screen,
}
use patriots_rtes.Display.Texts.{
  Text, codes, print_int, sprintf, label_text, read_digits, print_int-read,
}

-- The text that a call draws from (x, y) on.
abbrev text_at : ℕ → ℕ → DrawCommand → List Text
text_at x y (textout_ex label a b color background) =
    if a == x && b == y then label_text label ∷ [] else []
text_at x y _ = []

unfoldable pub texts_at : ℕ → ℕ → List DrawCommand → List Text
texts_at x y [] = []
texts_at x y (c ∷ cs) = text_at x y c ++ texts_at x y cs

-- There is one text: these characters, and behind them the digits of a number.
pub record Shows (caption : Text) (number : ℕ) (texts : List Text) : Type 0 where
  pub shown : Text
  pub only_one : texts ≡ (caption ++ shown) ∷ []
  pub reads : read_digits 0 shown ≡ number

module _ (x y : ℕ) where
  texts_at-++ :
      (cs ds : List DrawCommand) → texts_at x y (cs ++ ds) ≡ texts_at x y cs ++ texts_at x y ds
  unfolding texts_at
  texts_at-++ [] ds = refl
  texts_at-++ (c ∷ cs) ds =
      ap (λ (r : List Text). text_at x y c ++ r) (texts_at-++ cs ds)
      ∙ sym (append_assoc (text_at x y c) (texts_at x y cs) (texts_at x y ds))

  texts_at-draw_cell :
      (c : Cell) (a b : ℕ)
      → texts_at x y (if not (is_empty_cell c) then draw_cell c a b else []) ≡ []
  unfolding texts_at draw_cell
  texts_at-draw_cell c a b = ground arith

  module _ {S : Type 0} (e : Env S) where
    texts_at-draw_column : (rounds a b : ℕ) → texts_at x y (draw_column rounds a b e) ≡ []
    unfolding texts_at draw_column
    texts_at-draw_column zero a b = refl
    texts_at-draw_column (suc rounds) a b =
        texts_at-++ (if not (is_empty_cell (e.cell a b)) then draw_cell (e.cell a b) a b else [])
          (draw_column rounds a (b + 1) e)
        ∙ rw (texts_at-draw_cell (e.cell a b) a b) (texts_at-draw_column rounds a (b + 1))

    texts_at-draw_columns : (rounds a : ℕ) → texts_at x y (draw_columns rounds a e) ≡ []
    unfolding texts_at draw_columns
    texts_at-draw_columns zero a = refl
    texts_at-draw_columns (suc rounds) a =
        texts_at-++ (draw_column ywin a 0 e) (draw_columns rounds (a + 1) e)
        ∙ rw (texts_at-draw_column ywin a 0) (texts_at-draw_columns rounds (a + 1))

    -- The labels alone draw texts, between the two calls that start and end a round.
    texts_at-display_round :
        texts_at x y (display_round e) ≡ texts_at x y (draw_labels e.atk_points e.def_points)
    unfolding texts_at display_round draw_env reset_buffer draw_buffer_to_screen
    texts_at-display_round =
        texts_at-++ (draw_columns xwin 0 e ++ draw_labels e.atk_points e.def_points)
          draw_buffer_to_screen
        ∙ append-nil _
        ∙ texts_at-++ (draw_columns xwin 0 e) (draw_labels e.atk_points e.def_points)
        ∙ rw (texts_at-draw_columns xwin 0) refl

print_int-Shows :
    (caption : Text) (p : ℕ) {texts : List Text}
    → texts ≡ (caption ++ (print_int (pos p) ++ [])) ∷ []
    → Shows caption p texts
print_int-Shows caption p e = record {
  shown = print_int (pos p);
  only_one = e ∙ ap (λ (s : Text). (caption ++ s) ∷ []) (append-nil (print_int (pos p)));
  reads = print_int-read p;
}

-- A round of the display draws one text at the place of each score: at the first "Attack points: " with
-- the points of the attackers, in decimal, and at the second "Defender points: " with those of the
-- defenders.
pub scores_shown :
    {S : Type 0} (e : Env S)
    → Shows
        (codes "Attack points: ")
        e.atk_points
        (texts_at label_x (get_y_label 1) (display_round e))
      × Shows
          (codes "Defender points: ")
          e.def_points
          (texts_at label_x (get_y_label 2) (display_round e))
unfolding texts_at draw_labels draw_legends draw_legend label_text sprintf
scores_shown e = (
  print_int-Shows (codes "Attack points: ") e.atk_points
      (texts_at-display_round label_x (get_y_label 1) e),
  print_int-Shows (codes "Defender points: ") e.def_points
      (texts_at-display_round label_x (get_y_label 2) e),
)
