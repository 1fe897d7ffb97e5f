-- ===== src/Columns/Documents.antt =====
-- columns/columns.go, renderJSON and renderMarkdown: a report as a document. A document is an association list
-- whose keys are in the order in which they were set first, and none is the panic of a type assertion.
pub mod Defined
mod Examples
use natscli.Prelude.{
  ℕ, ◌+◌, ◌-◌, ◌*◌, Bool, true, false, List, [], ◌∷◌, ◌++◌, Option, none, some, Text, codes, str_eq,
  join, if◌then◌else◌, replicate,
}
use natscli.Columns.{ColumnRow, kind_row, kind_indent, kind_line, kind_title, Writer}

-- What a section holds under a key: a row's value, or the texts of its lines.
pub data Entry : Type 0 where
  value : Text → Entry
  texts : List Text → Entry

-- What a document holds under a key: a row's value, or a section.
pub data Held : Type 0 where
  plain : Text → Held
  section : List (Text × Entry) → Held

unfoldable pub lookup {ℓ} : {A : Type ℓ} → Text → List (Text × A) → Option A
lookup k [] = none
lookup k ((j, a) ∷ m) = if str_eq j k then some a else lookup k m

unfoldable pub insert {ℓ} : {A : Type ℓ} → Text → A → List (Text × A) → List (Text × A)
insert k a [] = (k, a) ∷ []
insert k a ((j, b) ∷ m) =
    let rest = insert k a m in if str_eq j k then (j, a) ∷ m else (j, b) ∷ rest

-- sectionData.(map[string]any)
unfoldable pub section_of : Option Held → Option (List (Text × Entry))
section_of none = some []
section_of (some (plain v)) = none
section_of (some (section m)) = some m

-- existing.([]string)
unfoldable pub headers_of : Option Entry → Option (List Text)
headers_of none = some []
headers_of (some (value v)) = none
headers_of (some (texts vs)) = some vs

abbrev pub Document : Type 0
Document = List (Text × Held)

unfoldable pub put_row : Text → Text → Text → Document → Option Document
put_row title label v doc =
    if str_eq label []
    then some doc
    else if str_eq title []
    then some (insert label (plain v) doc)
    else elim (section_of (lookup title doc)) [
      | none ↦ none
      | some m ↦ some (insert title (section (insert label (value v) m)) doc)
    ]

unfoldable pub with_headers : Text → List Text → Document → List (Text × Entry) → Option Document
with_headers title vs doc m = elim (headers_of (lookup (codes "header") m)) [
  | none ↦ none
  | some hs ↦ some (insert title (section (insert (codes "header") (texts (hs ++ vs)) m)) doc)
]

unfoldable pub put_line : Text → List Text → Document → Option Document
unfolding with_headers
put_line title [] doc = some doc
put_line title (v ∷ vs) doc =
    if str_eq title [] then some doc else elim (section_of (lookup title doc)) [
      | none ↦ none
      | some m ↦ with_headers title (v ∷ vs) doc m
    ]

unfoldable pub put_rows : Text → List ColumnRow → Document → Option Document
put_rows title [] doc = some doc
put_rows title (kind_title t ∷ rows) doc = put_rows t rows doc
put_rows title (kind_indent s ∷ rows) doc = put_rows title rows doc
put_rows title (kind_row l v ∷ rows) doc = elim (put_row title l v doc) [
  | none ↦ none
  | some after ↦ put_rows title rows after
]
put_rows title (kind_line vs ∷ rows) doc = elim (put_line title vs doc) [
  | none ↦ none
  | some after ↦ put_rows title rows after
]

unfoldable pub render_json : Writer → Option Document
unfolding put_rows
render_json w =
    put_rows [] w.rows (if str_eq w.heading [] then [] else (codes "Header", plain w.heading) ∷ [])

-- the lines of a row in Markdown, where something was drawn before, and the depth
unfoldable pub mark_row : Bool → ℕ → ColumnRow → List Text
mark_row drawn depth (kind_indent s) = []
mark_row drawn depth (kind_title t) =
    (if drawn then [] ∷ [] else []) ++ ((replicate (depth + 2) b'#' ++ (b' ' ∷ t)) ∷ ([] ∷ []))
mark_row drawn depth (kind_row [] v) = (codes "- " ++ v) ∷ []
mark_row drawn depth (kind_row (c ∷ l) v) = (codes "- **" ++ ((c ∷ l) ++ (codes ":** " ++ v))) ∷ []
mark_row drawn depth (kind_line vs) = join vs (codes " ") ∷ []

unfoldable pub mark_depth : ℕ → Text → ℕ
mark_depth depth [] = 0
mark_depth depth (c ∷ s) = depth + 1

unfoldable pub mark_rows : Bool → ℕ → List ColumnRow → List Text
unfolding mark_depth
mark_rows drawn depth [] = []
mark_rows drawn depth (kind_indent s ∷ rows) = mark_rows drawn (mark_depth depth s) rows
mark_rows drawn depth (kind_title t ∷ rows) =
    mark_row drawn depth (kind_title t) ++ mark_rows true depth rows
mark_rows drawn depth (kind_row l v ∷ rows) =
    mark_row drawn depth (kind_row l v) ++ mark_rows true depth rows
mark_rows drawn depth (kind_line vs ∷ rows) =
    mark_row drawn depth (kind_line vs) ++ mark_rows true depth rows

unfoldable pub render_markdown : Writer → List Text
unfolding mark_rows
render_markdown w =
    (if str_eq w.heading [] then [] else (codes "# " ++ w.heading) ∷ ([] ∷ []))
    ++ mark_rows false 0 w.rows
