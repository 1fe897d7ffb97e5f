-- ===== src/Columns/Documents/Defined.antt =====
-- Reports whose JSON form does not panic.
use natscli.Prelude.{
  Bool, true, false, List, [], ◌∷◌, ◌++◌, ◌⊎◌, inl, inr, Option, some, ◌≡◌, refl, sym, ap, ◌∙◌,
  Text, codes, str_eq_refl, str_eq→eq, str_eq, Bool-cases, All,
}
use natscli.Checks.Streams.Agreement.{true-ne-false}
use natscli.Columns.{ColumnRow, kind_row, kind_indent, kind_line, kind_title, Writer}
use natscli.Columns.Documents.{
  Entry, value, texts, Held, plain, section, Document, lookup, insert, section_of, headers_of,
  put_row, put_line, with_headers, put_rows, render_json,
}

module _ {ℓ} {A : Type ℓ} where
  lookup-insert : (k : Text) (a : A) (m : List (Text × A)) → lookup k (insert k a m) ≡ some a
  unfolding lookup insert
  lookup-insert k a [] = rw (str_eq_refl k) refl
  lookup-insert k a ((j, b) ∷ m) = elim (Bool-cases (str_eq j k)) [
    | inl e ↦ rw e (rw e refl)
    | inr e ↦ rw e (rw e (lookup-insert k a m))
  ]

  lookup-insert_other :
      (k j : Text) (a : A) (m : List (Text × A))
      → str_eq k j ≡ false
      → lookup j (insert k a m) ≡ lookup j m
  unfolding lookup insert
  lookup-insert_other k j a [] h = rw h refl
  lookup-insert_other k j a ((i, b) ∷ m) h = elim (Bool-cases (str_eq i k)) [
    | inl e ↦ rw e (rw (ap (λ s. str_eq s j) (str_eq→eq i k e) ∙ h) refl)
    | inr e ↦ rw e (rw (lookup-insert_other k j a m h) refl)
  ]

-- a section to which lines can be added
abbrev pub IsOpen : Option Held → Type 0
IsOpen o =
    (m : List (Text × Entry)) × (section_of o ≡ some m)
    × ((hs : List Text) × (headers_of (lookup (codes "header") m) ≡ some hs))

module _ (is_title : Text → Bool) where
  abbrev pub AllOpen : Document → Type 0
  AllOpen doc = (t : Text) → is_title t ≡ true → IsOpen (lookup t doc)

  -- what a row may be: its label is no title, and not the key of the lines
  abbrev pub IsApart : ColumnRow → Type 0
  IsApart (kind_row l v) = (is_title l ≡ false) × (str_eq l (codes "header") ≡ false)
  IsApart (kind_indent s) = Unit {0}
  IsApart (kind_line vs) = Unit {0}
  IsApart (kind_title t) = is_title t ≡ true

  differ : (l t : Text) → is_title l ≡ false → is_title t ≡ true → str_eq l t ≡ false
  differ l t h k = elim (Bool-cases (str_eq l t)) [
    | inl e ↦ absurd (true-ne-false (sym k ∙ sym (ap is_title (str_eq→eq l t e)) ∙ h))
    | inr e ↦ e
  ]

  -- setting what is no title, or an open section
  put_plain :
      (l v : Text) (doc : Document)
      → is_title l ≡ false
      → AllOpen doc
      → AllOpen (insert l (plain v) doc)
  put_plain l v doc h opened t k =
      rw (lookup-insert_other l t (plain v) doc (differ l t h k)) (opened t k)

  put_section :
      (title : Text) (m : List (Text × Entry)) (doc : Document)
      → ((hs : List Text) × (headers_of (lookup (codes "header") m) ≡ some hs))
      → AllOpen doc
      → AllOpen (insert title (section m) doc)
  unfolding section_of
  put_section title m doc h opened t k = elim (Bool-cases (str_eq title t)) [
    | inl e ↦ rw (sym (str_eq→eq title t e), lookup-insert title (section m) doc) (m, refl, h)
    | inr e ↦ rw (lookup-insert_other title t (section m) doc e) (opened t k)
  ]

  put_row-Open :
      (title l v : Text) (doc : Document)
      → (title ≡ []) ⊎ (is_title title ≡ true)
      → IsApart (kind_row l v)
      → AllOpen doc
      → (after : Document) × (put_row title l v doc ≡ some after) × AllOpen after
  unfolding put_row str_eq
  put_row-Open title [] v doc c (h, g) opened = (doc, refl, opened)
  put_row-Open title (a ∷ l) v doc (inl e) (h, g) opened =
      rw e (insert (a ∷ l) (plain v) doc, refl, put_plain (a ∷ l) v doc h opened)
  put_row-Open [] (a ∷ l) v doc (inr e) (h, g) opened =
      (insert (a ∷ l) (plain v) doc, refl, put_plain (a ∷ l) v doc h opened)
  put_row-Open (b ∷ t) (a ∷ l) v doc (inr e) (h, g) opened =
      let (m, held, (hs, heads)) = opened (b ∷ t) e in
      let after = insert (a ∷ l) (value v) m in
      rw held (
        insert (b ∷ t) (section after) doc,
        refl,
        put_section (b ∷ t) after doc
            (hs, rw (lookup-insert_other (a ∷ l) (codes "header") (value v) m g) heads) opened,
      )

  put_line-Open :
      (title : Text) (vs : List Text) (doc : Document)
      → (title ≡ []) ⊎ (is_title title ≡ true)
      → AllOpen doc
      → (after : Document) × (put_line title vs doc ≡ some after) × AllOpen after
  unfolding put_line with_headers headers_of str_eq
  put_line-Open title [] doc c opened = (doc, refl, opened)
  put_line-Open title (v ∷ vs) doc (inl e) opened = rw e (doc, refl, opened)
  put_line-Open [] (v ∷ vs) doc (inr e) opened = (doc, refl, opened)
  put_line-Open (b ∷ t) (v ∷ vs) doc (inr e) opened =
      let (m, held, (hs, heads)) = opened (b ∷ t) e in
      let lines = texts (hs ++ v ∷ vs) in
      let after = insert (codes "header") lines m in
      rw held (
        rw (with_headers, heads)
          (
            insert (b ∷ t) (section after) doc,
            refl,
            put_section (b ∷ t) after doc
                (hs ++ v ∷ vs, ap headers_of (lookup-insert (codes "header") lines m)) opened,
          ))

  put_rows-Open :
      (rows : List ColumnRow) (title : Text) (doc : Document)
      → (title ≡ []) ⊎ (is_title title ≡ true)
      → All IsApart rows
      → AllOpen doc
      → (after : Document) × (put_rows title rows doc ≡ some after)
  unfolding put_rows
  put_rows-Open [] title doc c h opened = (doc, refl)
  put_rows-Open (kind_title t ∷ rows) title doc c (p, h) opened =
      put_rows-Open rows t doc (inr p) h opened
  put_rows-Open (kind_indent s ∷ rows) title doc c (p, h) opened =
      put_rows-Open rows title doc c h opened
  put_rows-Open (kind_row l v ∷ rows) title doc c (p, h) opened =
      let (after, e, still) = put_row-Open title l v doc c p opened in
      rw (put_rows, e) (put_rows-Open rows title after c h still)
  put_rows-Open (kind_line vs ∷ rows) title doc c (p, h) opened =
      let (after, e, still) = put_line-Open title vs doc c opened in
      rw (put_rows, e) (put_rows-Open rows title after c h still)

nothing_held : (is_title : Text → Bool) → AllOpen is_title []
unfolding lookup section_of headers_of
nothing_held is_title t k = ([], refl, ([], refl))

-- Where a test accepts every title of a report, but none of its labels and not the key of its heading, and no
-- label is the key of a section's lines, the JSON form is made: no type assertion panics.
pub render_json_defined :
    (w : Writer) (is_title : Text → Bool)
    → is_title (codes "Header") ≡ false
    → All (IsApart is_title) w.rows
    → (doc : Document) × (render_json w ≡ some doc)
unfolding render_json insert
render_json_defined w is_title h apart = elim (Bool-cases (str_eq w.heading [])) [
  | inl e ↦ rw e (put_rows-Open is_title w.rows [] [] (inl refl) apart (nothing_held is_title))
  | inr e ↦ rw e (
      put_rows-Open is_title w.rows [] ((codes "Header", plain w.heading) ∷ []) (inl refl) apart
        (put_plain is_title (codes "Header") w.heading [] h (nothing_held is_title)))
]
