-- ===== src/Columns/Examples.antt =====
-- A report of three rows.
use natscli.Prelude.{
  ◌+◌, [], ◌∷◌, ◌++◌, ◌≡◌, refl, Text, codes, str_eq, has_suffix, trim_suffix, length,
}
use natscli.Columns.{
  kind_row, Writer, new_writer, add_row, add_section_title, add_row_if_not_empty, println, start,
  longest, left_of, maybe_add_colon, before_title, draw_row, draw_rows, render_human,
}
use natscli.Columns.Aligned.{draw_row-IsAligned}

abbrev report : Writer
report = add_row (codes "Max:") (codes "5") (
    println [] (
      add_section_title (codes "Limits") (
        add_row_if_not_empty (codes "Tag") []
          (add_row (codes "Name") (codes "ORDERS") (new_writer (codes "Info"))))))

draws_report :
    render_human report
    ≡ codes "Info"
      ∷ []
      ∷ codes "  Name: ORDERS"
      ∷ []
      ∷ codes "Limits:"
      ∷ []
      ∷ codes "   Max: 5"
      ∷ []
unfolding render_human draw_rows draw_row longest left_of maybe_add_colon before_title add_row
    add_section_title add_row_if_not_empty println trim_suffix has_suffix str_eq
draws_report = refl

abbrev one_row : Writer
one_row = record {
  heading = [];
  rows = kind_row (codes "Max") (codes "5") ∷ [];
  sep = codes ":";
  unlimited = codes "unlimited";
}

draw_row-IsAligned_example :
    (left : Text) × ((draw_row
        (longest one_row.rows)
        one_row.sep
        start
        (kind_row (codes "Max") (codes "5"))).1
      ≡ (left ++ codes "5") ∷ [])
    × (length left ≡ length start.margin + longest one_row.rows + 4)
draw_row-IsAligned_example = draw_row-IsAligned one_row 0 (codes "Max") (codes "5") start refl refl
