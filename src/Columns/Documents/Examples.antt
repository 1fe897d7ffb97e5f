-- ===== src/Columns/Documents/Examples.antt =====
-- A report whose section has the name of an earlier row, and one that has not.
use natscli.Prelude.{
  Bool, [], ◌∷◌, none, some, ◌≡◌, refl, Text, codes, str_eq, has_suffix, trim_suffix,
}
use natscli.Columns.{kind_title, kind_row, Writer, new_writer, add_row, add_section_title}
use natscli.Columns.Documents.{
  Document, lookup, insert, section_of, headers_of, put_row, put_line, put_rows, render_json,
  mark_row, mark_depth, mark_rows, render_markdown,
}
use natscli.Columns.Documents.Defined.{render_json_defined}

abbrev report : Text → Writer
report label =
    add_row (codes "Max") (codes "5")
      (add_section_title (codes "Limits") (add_row label (codes "on") (new_writer (codes "Info"))))

panics : render_json (report (codes "Limits")) ≡ none
unfolding render_json put_rows put_row put_line lookup insert section_of headers_of add_row
    add_section_title trim_suffix has_suffix str_eq
panics = refl

marks :
    render_markdown (report (codes "Mode"))
    ≡ codes "# Info"
      ∷ []
      ∷ codes "- **Mode:** on"
      ∷ []
      ∷ codes "## Limits"
      ∷ []
      ∷ codes "- **Max:** 5"
      ∷ []
unfolding render_markdown mark_rows mark_row mark_depth add_row add_section_title trim_suffix
    has_suffix str_eq
marks = refl

abbrev limits : Writer
limits = record {
  heading = codes "Info";
  rows = kind_title (codes "Limits") ∷ kind_row (codes "Max") (codes "5") ∷ [];
  sep = codes ":";
  unlimited = codes "unlimited";
}

abbrev is_limits : Text → Bool
is_limits t = str_eq t (codes "Limits")

render_json_defined_example : (doc : Document) × (render_json limits ≡ some doc)
unfolding str_eq
render_json_defined_example = render_json_defined limits is_limits refl (refl, ((refl, refl), tt))
