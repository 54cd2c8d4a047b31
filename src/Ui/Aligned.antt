-- ===== src/Ui/Aligned.antt =====
-- packages/cli/internal/ui: the widths of the columns, and the lines of FormatTable.
use text.Mathlib.TextLemmas.{nil-append, cons-append}
use mathlib.Core.Path.{subst}
use mathlib.Core.Option.{some-injective}
use sentra_lab.Base.{
  ℕ, zero, suc, ◌+◌, ◌-◌, ◌≤◌, String, ◌<>◌, ◌≡◌, refl, ap, sym, ◌∙◌, some, get_elem?, List, [],
  ◌∷◌, All, length, map, arith,
}
use sentra_lab.Ui.{Styles, len, repeat, pad_right}
use sentra_lab.Ui.Tables.{
  Table, raise_widths, raise_all, calculate_column_widths, column_widths, pad_cells, spaced,
  format_row,
}

-- Every cell that has a column is at most as wide as it.
abbrev pub Fits : (String → ℕ) → List String → List ℕ → Type 0
Fits width [] widths = Unit
Fits width (cell ∷ cells) [] = Unit
Fits width (cell ∷ cells) (w ∷ widths) = (width cell ≤ w) × Fits width cells widths

module _ (width : String → ℕ) where
  raise_widths-Fits :
      (cells : List String) (widths : List ℕ) → Fits width cells (raise_widths width cells widths)
  unfolding raise_widths
  raise_widths-Fits [] widths = tt
  raise_widths-Fits (cell ∷ cells) [] = tt
  raise_widths-Fits (cell ∷ cells) (w ∷ widths) = (ground arith, raise_widths-Fits cells widths)

  raise_widths-keeps :
      (cells others : List String) (widths : List ℕ)
      → Fits width others widths
      → Fits width others (raise_widths width cells widths)
  unfolding raise_widths
  raise_widths-keeps [] others widths h = h
  raise_widths-keeps (cell ∷ cells) [] [] h = tt
  raise_widths-keeps (cell ∷ cells) (o ∷ others) [] h = tt
  raise_widths-keeps (cell ∷ cells) [] (w ∷ widths) h = tt
  raise_widths-keeps (cell ∷ cells) (o ∷ others) (w ∷ widths) (fits, h) =
      (ground arith, raise_widths-keeps cells others widths h)

  raise_all-keeps :
      (rows : List (List String)) (others : List String) (widths : List ℕ)
      → Fits width others widths
      → Fits width others (raise_all width rows widths)
  unfolding raise_all
  raise_all-keeps [] others widths h = h
  raise_all-keeps (row ∷ rows) others widths h =
      raise_all-keeps rows others (raise_widths width row widths)
        (raise_widths-keeps row others widths h)

  raise_all-All :
      (rows : List (List String)) (widths : List ℕ)
      → All (λ row. Fits width row (raise_all width rows widths)) rows
  unfolding raise_all
  raise_all-All [] widths = tt
  raise_all-All (row ∷ rows) widths = (
    raise_all-keeps rows row (raise_widths width row widths) (raise_widths-Fits row widths),
    raise_all-All rows (raise_widths width row widths),
  )

  map-Fits : (cells : List String) → Fits width cells (map width cells)
  map-Fits [] = tt
  map-Fits (cell ∷ cells) = (omega arith, map-Fits cells)

  length-raise_widths :
      (cells : List String) (widths : List ℕ)
      → length (raise_widths width cells widths) ≡ length widths
  unfolding raise_widths
  length-raise_widths [] widths = refl
  length-raise_widths (cell ∷ cells) [] = refl
  length-raise_widths (cell ∷ cells) (w ∷ widths) = ap suc (length-raise_widths cells widths)

-- A table's columns are as wide as its headers and as every cell of every row.
pub calculate_column_widths-Fits :
    (styles : Styles) (t : Table)
    → Fits styles.width t.headers (calculate_column_widths styles t)
      × All (λ row. Fits styles.width row (calculate_column_widths styles t)) t.rows
unfolding calculate_column_widths
calculate_column_widths-Fits styles t = (
  raise_all-keeps styles.width t.rows t.headers (map styles.width t.headers)
      (map-Fits styles.width t.headers),
  raise_all-All styles.width t.rows (map styles.width t.headers),
)

len-append : (s t : String) → len (s <> t) ≡ len s + len t
unfolding len
len-append String.[] t = ap len (nil-append t) ∙ omega arith
len-append (String.◌∷◌ c s) t = ap len (cons-append c s t) ∙ omega (arith, len-append s t)

len-repeat : (n : ℕ) → len (repeat " " n) ≡ n
unfolding repeat len
len-repeat zero = refl
len-repeat (suc n) = omega (arith, len-append " " (repeat " " n), len-repeat n)

len-pad_right : (s : String) (w : ℕ) → len s ≤ w → len (pad_right s w) ≡ w
unfolding pad_right
len-pad_right s w h = ground (arith, len-append s (repeat " " (w - len s)), len-repeat (w - len s))

abbrev pub sum : List ℕ → ℕ
sum [] = 0
sum (w ∷ widths) = w + sum widths

len-spaced :
    (cells : List String) (widths : List ℕ)
    → Fits len cells widths
    → length cells ≡ length widths
    → len (spaced (pad_cells cells widths)) ≡ sum widths + length widths
unfolding spaced pad_cells len
len-spaced [] [] h same = refl
len-spaced [] (w ∷ widths) h same = absurd (omega (arith, same))
len-spaced (cell ∷ cells) [] h same = absurd (omega (arith, same))
len-spaced (cell ∷ cells) (w ∷ widths) (fits, h) same = omega (
  arith,
  len-append (pad_right cell w) (" " <> spaced (pad_cells cells widths)),
  len-append " " (spaced (pad_cells cells widths)),
  len-pad_right cell w fits,
  len-spaced cells widths h (omega (arith, same)),
)

All-get_elem? :
    (P : List String → Type 0) (rows : List (List String)) (i : ℕ) (row : List String)
    → All P rows
    → get_elem? rows i ≡ some row
    → P row
All-get_elem? P [] i row h at = cc
All-get_elem? P (r ∷ rows) zero row (p, h) at = subst P (some-injective _ _ at) p
All-get_elem? P (r ∷ rows) (suc i) row (p, h) at = All-get_elem? P rows i row h at

length-raise_all :
    (rows : List (List String)) (widths : List ℕ)
    → length (raise_all len rows widths) ≡ length widths
unfolding raise_all
length-raise_all [] widths = refl
length-raise_all (row ∷ rows) widths =
    length-raise_all rows (raise_widths len row widths) ∙ length-raise_widths len row widths

length-map : (f : String → ℕ) (cells : List String) → length (map f cells) ≡ length cells
length-map f [] = refl
length-map f (cell ∷ cells) = ap suc (length-map f cells)

length-column_widths :
    (styles : Styles) (headers : List String) (rows : List (List String))
    → length (column_widths styles headers rows) ≡ length headers
unfolding column_widths
length-column_widths styles headers rows =
    length-raise_all rows (map len headers) ∙ length-map len headers

-- In FormatTable every row that has just one cell for each header becomes a line of as many bytes as
-- the widths of all the columns together and one more for each, whatever the other rows have.
pub format_row-aligned :
    (styles : Styles) (headers : List String) (rows : List (List String)) (i : ℕ)
    (row : List String)
    → get_elem? rows i ≡ some row
    → length row ≡ length headers
    → len (format_row styles row (column_widths styles headers rows))
      ≡ sum (column_widths styles headers rows) + length headers
unfolding format_row
format_row-aligned styles headers rows i row at full =
    let widths = column_widths styles headers rows in
    let columns = length-column_widths styles headers rows in
    let fits : Fits len row widths =
      unfold column_widths in
      All-get_elem? (λ r. Fits len r (raise_all len rows (map len headers))) rows i row
        (raise_all-All len rows (map len headers)) at in
    len-spaced row widths fits (full ∙ sym columns) ∙ ap (λ n. sum widths + n) columns
