-- ===== src/Columns.antt =====
-- columns/columns.go: the rows of a report and how they are drawn. Texts are ASCII, so that a text has as many
-- runes as bytes. A value is the text that F gives, a report is drawn to something that is no terminal, and
-- what is drawn is a list of lines.
pub mod Aligned
pub mod Documents
mod Examples
use natscli.Prelude.{
  ℕ, ◌+◌, ◌-◌, max, Bool, true, false, not, ◌&&◌, ◌||◌, List, [], ◌∷◌, ◌++◌, Text, codes, str_eq,
  has_suffix, trim_suffix, join, ◌==◌, if◌then◌else◌, length, replicate,
}

pub data ColumnRow : Type 0 where
  kind_row : Text → Text → ColumnRow
  kind_indent : Text → ColumnRow
  kind_line : List Text → ColumnRow
  kind_title : Text → ColumnRow

pub record Writer : Type 0 where
  pub heading : Text
  pub rows : List ColumnRow
  pub sep : Text
  pub unlimited : Text

abbrev pub new_writer : Text → Writer
new_writer heading = record {
  heading = heading;
  rows = [];
  sep = codes ":";
  unlimited = codes "unlimited";
}

abbrev pub add : ColumnRow → Writer → Writer
add r w = record w { rows = w.rows ++ r ∷ [] }

-- strings.TrimSuffix of the separator
unfoldable pub add_row : Text → Text → Writer → Writer
add_row t v w = add (kind_row (trim_suffix t w.sep) v) w

unfoldable pub add_row_if : Text → Text → Bool → Writer → Writer
add_row_if t v condition w = if condition then add_row t v w else w

unfoldable pub add_row_if_not_empty : Text → Text → Writer → Writer
add_row_if_not_empty t v w = if str_eq v [] then w else add_row t v w

unfoldable pub add_row_unlimited_if : Text → Text → Bool → Writer → Writer
add_row_unlimited_if t v unlimited w = if unlimited then add_row t w.unlimited w else add_row t v w

unfoldable pub add_section_title : Text → Writer → Writer
add_section_title t w = add (kind_title t) w

unfoldable pub println : List Text → Writer → Writer
println msg w = add (kind_line msg) w

unfoldable pub indent : ℕ → Writer → Writer
indent width w = add (kind_indent (replicate width b' ')) w

-- what was drawn last
pub data Prev : Type 0 where
  nothing row line title : Prev

pub record Drawing : Type 0 where
  pub margin : Text
  pub prev : Prev
  pub prev_empty : Bool
  pub index : ℕ

unfoldable pub longest : List ColumnRow → ℕ
longest [] = 0
longest (kind_row t v ∷ rows) = max (length t) (longest rows)
longest (kind_indent s ∷ rows) = longest rows
longest (kind_line vs ∷ rows) = longest rows
longest (kind_title t ∷ rows) = longest rows

-- what stands before the value, with the blank behind it
unfoldable pub left_of : ℕ → Text → Text → Text → Text
left_of n margin sep [] = margin ++ (replicate (n + 2 + 1) b' ' ++ b' ' ∷ [])
left_of n margin sep (c ∷ t) =
    margin ++ (replicate (n + 2 - length (c ∷ t)) b' ' ++ ((c ∷ t) ++ (sep ++ b' ' ∷ [])))

unfoldable pub maybe_add_colon : Text → Text
maybe_add_colon v = if has_suffix v (codes ":") then v else v ++ codes ":"

is_title : Prev → Bool
is_title nothing = false
is_title row = false
is_title line = false
is_title title = true

is_line : Prev → Bool
is_line nothing = false
is_line row = false
is_line line = true
is_line title = false

abbrev is_nil {ℓ} : {A : Type ℓ} → List A → Bool
is_nil [] = true
is_nil (x ∷ xs) = false

-- a blank line before a title, unless it is the first row or follows a title or a blank line
unfoldable pub before_title : Drawing → List Text
unfolding is_title is_line
before_title d =
    if (not (d.index == 0) && not (is_title d.prev) && not (is_line d.prev))
      || (is_line d.prev && not d.prev_empty)
    then [] ∷ []
    else []

unfoldable pub draw_row : ℕ → Text → Drawing → ColumnRow → Drawing × List Text
unfolding left_of maybe_add_colon before_title
draw_row n sep d (kind_indent s) = (record d { margin = s; index = d.index + 1 }, [])
draw_row n sep d (kind_title t) = (
  record d { prev = title; prev_empty = false; index = d.index + 1 },
  before_title d ++ ((d.margin ++ maybe_add_colon t) ∷ ([] ∷ [])),
)
draw_row n sep d (kind_row t v) = (
  record d { prev = row; prev_empty = false; index = d.index + 1 },
  (left_of n d.margin sep t ++ v) ∷ [],
)
draw_row n sep d (kind_line vs) =
    if is_title d.prev && is_nil vs then (record d { index = d.index + 1 }, []) else (
      record d { prev = line; prev_empty = is_nil vs; index = d.index + 1 },
      (join (d.margin ∷ vs) (codes " ")) ∷ [],
    )

unfoldable pub draw_rows : ℕ → Text → Drawing → List ColumnRow → List Text
draw_rows n sep d [] = []
draw_rows n sep d (r ∷ rows) =
    let (d', lines) = draw_row n sep d r in lines ++ draw_rows n sep d' rows

abbrev pub start : Drawing
start = record { margin = []; prev = nothing; prev_empty = false; index = 0 }

unfoldable pub render_human : Writer → List Text
unfolding draw_rows
render_human w =
    (if str_eq w.heading [] then [] else w.heading ∷ [] ∷ [])
    ++ draw_rows (longest w.rows) w.sep start w.rows
