-- ===== src/Ui/Tables.antt =====
-- packages/cli/internal/ui: Table of table.go, and FormatTable of tui.go.
use sentra_lab.Base.{ℕ, ◌+◌, ltb, String, ◌<>◌, List, [], ◌∷◌, ◌++◌, map, if◌then◌else◌}
use sentra_lab.Ui.{Styles, len, repeat, pad_right}

pub record Table : Type 0 where
  pub headers : List String
  pub rows : List (List String)
  pub width : ℕ

unfoldable pub new_table : List String → Table
new_table headers = record { headers = headers; rows = []; width = 80 }

unfoldable pub add_row : List String → Table → Table
add_row row t = record t { rows = t.rows ++ (row ∷ []) }

-- The widths, raised to those of the cells of a row; a cell without a column is passed over.
unfoldable pub raise_widths : (String → ℕ) → List String → List ℕ → List ℕ
raise_widths width [] widths = widths
raise_widths width (cell ∷ cells) [] = []
raise_widths width (cell ∷ cells) (w ∷ widths) =
    (if ltb w (width cell) then width cell else w) ∷ raise_widths width cells widths

unfoldable pub raise_all : (String → ℕ) → List (List String) → List ℕ → List ℕ
unfolding raise_widths
raise_all width [] widths = widths
raise_all width (row ∷ rows) widths = raise_all width rows (raise_widths width row widths)

-- strings.Join
unfoldable pub join_texts : String → List String → String
join_texts sep [] = ""
join_texts sep (s ∷ []) = s
join_texts sep (s ∷ t ∷ ss) = s <> sep <> join_texts sep (t ∷ ss)

-- The cells that have a column, padded to it.
unfoldable pub pad_cells : List String → List ℕ → List String
unfolding pad_right
pad_cells [] widths = []
pad_cells (cell ∷ cells) [] = []
pad_cells (cell ∷ cells) (w ∷ widths) = pad_right cell w ∷ pad_cells cells widths

-- Each cell followed by a space.
unfoldable pub spaced : List String → String
spaced [] = ""
spaced (cell ∷ cells) = cell <> " " <> spaced cells

module _ (styles : Styles) where
  unfoldable pub calculate_column_widths : Table → List ℕ
  unfolding raise_all
  calculate_column_widths t = raise_all styles.width t.rows (map styles.width t.headers)

  unfoldable pub render_header : Table → List ℕ → String
  unfolding pad_cells join_texts
  render_header t widths = join_texts " " (map styles.header (pad_cells t.headers widths))

  unfoldable pub render_separator : List ℕ → String
  unfolding repeat join_texts
  render_separator widths = styles.separator (join_texts "┼" (map (λ w. repeat "─" (w + 2)) widths))

  unfoldable pub render_row : List String → List ℕ → String
  unfolding pad_cells join_texts
  render_row row widths = join_texts " │ " (pad_cells row widths)

  unfoldable pub render_rows : List (List String) → List ℕ → String
  unfolding render_row
  render_rows [] widths = ""
  render_rows (row ∷ rows) widths = render_row row widths <> "\n" <> render_rows rows widths

  unfoldable pub render_body : Table → String
  unfolding calculate_column_widths render_header render_separator render_rows
  render_body t =
      let widths = calculate_column_widths t in
      render_header t widths <> "\n" <> render_separator widths <> "\n" <> render_rows t.rows widths

  unfoldable pub render : Table → String
  unfolding render_body
  render t = elim t.rows [ [] ↦ styles.info "No data to display" | row ∷ rows ↦ render_body t ]

  unfoldable pub column_widths : List String → List (List String) → List ℕ
  unfolding raise_all
  column_widths headers rows = raise_all len rows (map len headers)

  unfoldable pub format_row : List String → List ℕ → String
  unfolding pad_cells spaced
  format_row row widths = spaced (pad_cells row widths)

  unfoldable pub format_rows : List (List String) → List ℕ → String
  unfolding format_row
  format_rows [] widths = ""
  format_rows (row ∷ rows) widths = format_row row widths <> "\n" <> format_rows rows widths

  unfoldable pub format_table : List String → List (List String) → String
  unfolding column_widths format_rows pad_cells spaced
  format_table headers rows =
      let widths = column_widths headers rows in
      let table =
        spaced (map styles.header (pad_cells headers widths)) <> "\n" <> format_rows rows widths in
      elim rows [ [] ↦ "No data" | row ∷ rest ↦ table ]
