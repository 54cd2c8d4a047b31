-- ===== src/Ui.antt =====
-- packages/cli/internal/ui/tui.go: texts for the terminal. The styles of lipgloss and the width that it
-- gives a text are parameters; len is the number of bytes of a text in UTF-8.
pub mod Tables
pub mod Aligned
pub mod Models
pub mod Spinning
use Prim.Native.Char.{Char, code}
use sentra_lab.Base.{
  ℕ, zero, suc, ◌+◌, ◌-◌, ◌==◌, ltb, leb, String, ◌<>◌, Bool, true, false, List, [], ◌∷◌, length,
  if◌then◌else◌,
}

-- The bytes of a character.
abbrev pub bytes : ℕ → ℕ
bytes c = if ltb c 128 then 1 else if ltb c 2048 then 2 else if ltb c 65536 then 3 else 4

-- len(s)
unfoldable pub len : String → ℕ
len String.[] = 0
len (String.◌∷◌ c s) = bytes (code c) + len s

-- strings.Repeat(s, n)
unfoldable pub repeat : String → ℕ → String
repeat s zero = ""
repeat s (suc n) = s <> repeat s n

unfoldable pub pad_right : String → ℕ → String
unfolding len repeat
pad_right str width = if leb width (len str) then str else str <> repeat " " (width - len str)

pub record Styles : Type 0 where
  pub title : String → String
  pub header : String → String
  pub success : String → String
  pub failure : String → String
  pub info : String → String
  pub border : String → String
  pub status_bar : String → String
  pub separator : String → String
  -- lipgloss.Width
  pub width : String → ℕ

module _ (styles : Styles) where
  unfoldable pub format_success : String → String
  format_success t = styles.success ("✓ " <> t)

  unfoldable pub format_error : String → String
  format_error t = styles.failure ("✗ " <> t)

  unfoldable pub format_info : String → String
  format_info t = styles.info ("ℹ " <> t)

  -- A negative padding is none, which is where the subtraction of ℕ stops.
  unfoldable pub format_status_bar : String → String → ℕ → String
  unfolding repeat
  format_status_bar left right width =
      styles.status_bar
        (left <> repeat " " (width - styles.width left - styles.width right) <> right)

  -- From the item at `i` on.
  unfoldable pub list_lines : List String → ℕ → ℕ → String
  list_lines [] i selected = ""
  list_lines (item ∷ items) i selected =
      (if i == selected then styles.success ("▶ " <> item) else "  " <> item)
      <> "\n"
      <> list_lines items (i + 1) selected

  unfoldable pub format_list : List String → ℕ → String
  unfolding list_lines
  format_list items selected_index = list_lines items 0 selected_index
