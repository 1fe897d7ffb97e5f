-- ===== src/Columns/Aligned.antt =====
-- The column in which the values of a report start.
use natscli.Prelude.{
  ℕ, zero, suc, ◌+◌, ◌-◌, ◌≤◌, List, [], ◌∷◌, ◌++◌, some, ◌≡◌, refl, ◌∙◌, arith, Text, length,
  get_elem?, replicate, length-append, length-replicate,
}
use natscli.Columns.{
  ColumnRow, kind_row, kind_indent, kind_line, kind_title, Writer, Drawing, longest, left_of,
  draw_row,
}

not_longer :
    (rows : List ColumnRow) (i : ℕ) (t v : Text)
    → get_elem? rows i ≡ some (kind_row t v)
    → length t ≤ longest rows
unfolding longest
not_longer [] i t v h = ground arith
not_longer (kind_row s u ∷ rows) zero t v h = ground arith
not_longer (kind_indent s ∷ rows) zero t v h = ground arith
not_longer (kind_line s ∷ rows) zero t v h = ground arith
not_longer (kind_title s ∷ rows) zero t v h = ground arith
not_longer (kind_row s u ∷ rows) (suc i) t v h = let ih = not_longer rows i t v h in omega arith
not_longer (kind_indent s ∷ rows) (suc i) t v h = not_longer rows i t v h
not_longer (kind_line s ∷ rows) (suc i) t v h = not_longer rows i t v h
not_longer (kind_title s ∷ rows) (suc i) t v h = not_longer rows i t v h

spaced :
    (margin rest : Text) (k : ℕ)
    → length (margin ++ (replicate k b' ' ++ rest)) ≡ length margin + k + length rest
spaced margin rest k =
    let pad : Text = replicate k b' ' in
    omega (
      arith,
      length-append margin (pad ++ rest),
      length-append pad rest,
      length-replicate {A = ℕ} k b' ',
    )

length-left_of :
    (n : ℕ) (margin sep t : Text)
    → length sep ≡ 1
    → length t ≤ n
    → length (left_of n margin sep t) ≡ length margin + n + 4
unfolding left_of
length-left_of n margin sep [] h k = spaced margin (b' ' ∷ []) (n + 2 + 1) ∙ omega arith
length-left_of n margin sep (c ∷ t) h k =
    let blank : Text = b' ' ∷ [] in
    spaced margin ((c ∷ t) ++ (sep ++ blank)) (n + 2 - length (c ∷ t))
    ∙ omega (arith, length-append (c ∷ t) (sep ++ blank), length-append sep blank, h, k)

-- With a separator of one character, a row of a report is drawn as one line in which the value stands behind as
-- many characters as the margin, the longest label and four more have, whatever the row's own label is.
pub draw_row-IsAligned :
    (w : Writer) (i : ℕ) (t v : Text) (d : Drawing)
    → length w.sep ≡ 1
    → get_elem? w.rows i ≡ some (kind_row t v)
    → (left : Text) × ((draw_row (longest w.rows) w.sep d (kind_row t v)).1 ≡ (left ++ v) ∷ [])
      × (length left ≡ length d.margin + longest w.rows + 4)
unfolding draw_row
draw_row-IsAligned w i t v d h k = (
  left_of (longest w.rows) d.margin w.sep t,
  refl,
  length-left_of (longest w.rows) d.margin w.sep t h (not_longer w.rows i t v k),
)
