-- ===== src/Tests/UiTests.antt =====
-- Tables and spinners at concrete inputs.
use sentra_lab.Base.{◌+◌, String, ◌≡◌, refl, List, [], ◌∷◌}
use sentra_lab.Ui.{Styles, len, pad_right}
use sentra_lab.Ui.Tables.{column_widths, format_row}
use sentra_lab.Ui.Aligned.{sum, format_row-aligned}

abbrev plain_styles : Styles
plain_styles = record {
  title = λ t. t;
  header = λ t. t;
  success = λ t. t;
  failure = λ t. t;
  info = λ t. t;
  border = λ t. t;
  status_bar = λ t. t;
  separator = λ t. t;
  width = len;
}

-- The last row has no second cell.
abbrev three_rows : List (List String)
three_rows = ("r1" ∷ "passed" ∷ []) ∷ ("r20" ∷ "failed" ∷ []) ∷ ("r300" ∷ []) ∷ []

abbrev run_headers : List String
run_headers = "ID" ∷ "Status" ∷ []

pads : pad_right "r1" 5 ≡ "r1   "
unfolding pad_right
pads = refl

format_row-aligned_example :
    len (
      format_row plain_styles
        ("r1" ∷ "passed" ∷ [])
        (column_widths plain_styles run_headers three_rows))
    ≡ sum (column_widths plain_styles run_headers three_rows) + 2
format_row-aligned_example =
    format_row-aligned plain_styles run_headers three_rows 0 ("r1" ∷ "passed" ∷ []) refl refl
