-- ===== src/Headers/Decoding.antt =====
-- What a message of headers decodes to.
use natscli.Prelude.{
  ◌≤◌, ◌<◌, Bool, true, false, not, ◌||◌, List, [], ◌∷◌, ◌++◌, append-nil, append_assoc, map, ◌≢◌,
  inl, inr, some, ◌≡◌, refl, sym, ap, ◌∙◌, arith, Text, codes, str_eq_refl, str_eq→eq, str_eq,
  has_prefix, ◌==◌, if◌then◌else◌, Bool-cases, length, take, drop, all, All,
}
use natscli.Util.ByteSize.{trim_space}
use natscli.Checks.Streams.Agreement.{true-ne-false}
use natscli.Headers.{
  MimeHeader, decoded, slice_panic, add_value, skip_blanks, cut_colon, put_line, read_mime_header,
  add_status, finish, decode_headers_msg,
}

-- A key that is not empty and has no colon, and a value that does not begin with a blank.
abbrev starts_blank : Text → Bool
starts_blank [] = false
starts_blank (c ∷ s) = c == b' ' || c == 9

abbrev pub IsPlain : Text × Text → Type 0
IsPlain (k, v) = (k ≢ []) × (all (λ c. not (c == b':')) k ≡ true) × (starts_blank v ≡ false)

-- How a key and its value are written, and the lines of a message with a status.
abbrev pub line_of : Text × Text → Text
line_of (k, v) = k ++ b':' ∷ b' ' ∷ v

abbrev pub lines_of : Text → List (Text × Text) → List Text
lines_of st kvs = (codes "NATS/1.0" ++ st) ∷ (map line_of kvs ++ [] ∷ [])

-- The header that has the values in order.
abbrev pub collect : List (Text × Text) → MimeHeader → MimeHeader
collect [] m = m
collect ((k, v) ∷ kvs) m = collect kvs (add_value k v m)

cut_colon_append :
    (k v : Text) → all (λ c. not (c == b':')) k ≡ true → cut_colon (k ++ b':' ∷ v) ≡ some (k, v)
unfolding cut_colon
cut_colon_append [] v h = refl
cut_colon_append (c ∷ k) v h = ground (arith, cut_colon_append k v)

skip_one_blank : (v : Text) → starts_blank v ≡ false → skip_blanks (b' ' ∷ v) ≡ v
unfolding skip_blanks
skip_one_blank [] h = refl
skip_one_blank (c ∷ v) h = rw h refl

read_line_of :
    (k v : Text) (rest : List Text) (m : MimeHeader)
    → IsPlain (k, v)
    → read_mime_header (line_of (k, v) ∷ rest) m ≡ read_mime_header rest (add_value k v m)
unfolding read_mime_header put_line
read_line_of [] v rest m (some_of, free, blank) = absurd (some_of refl)
read_line_of (c ∷ k) v rest m (some_of, free, blank) =
    let cut = cut_colon_append (c ∷ k) (b' ' ∷ v) free in
    let value = skip_one_blank v blank in ground arith

read_lines :
    (kvs : List (Text × Text)) (m : MimeHeader)
    → All IsPlain kvs
    → read_mime_header (map line_of kvs ++ [] ∷ []) m ≡ decoded (collect kvs m)
unfolding map
read_lines [] m h = unfold read_mime_header in refl
read_lines ((k, v) ∷ kvs) m (p, h) =
    read_line_of k v (map line_of kvs ++ [] ∷ []) m p ∙ read_lines kvs (add_value k v m) h

prefix_there : (st : Text) → has_prefix (codes "NATS/1.0" ++ st) (codes "NATS/1.0") ≡ true
unfolding has_prefix
prefix_there st = ground arith

decode_lines :
    (st : Text) (kvs : List (Text × Text))
    → All IsPlain kvs
    → decode_headers_msg (lines_of st kvs) ≡ finish st (decoded (collect kvs []))
unfolding decode_headers_msg
decode_lines st kvs h = rw (prefix_there st) (ap (finish st) (read_lines kvs [] h))

-- The values that a header has for a key, and those that keys and values give for it, in order.
abbrev pub values_of : Text → MimeHeader → List Text
values_of k [] = []
values_of k ((j, vs) ∷ m) = if str_eq j k then vs else values_of k m

abbrev pub given_for : Text → List (Text × Text) → List Text
given_for k [] = []
given_for k ((j, v) ∷ kvs) = if str_eq j k then v ∷ given_for k kvs else given_for k kvs

-- A message decodes to a header that has the values of these keys, and no others.
abbrev pub DecodesTo : List Text → List (Text × Text) → Type 0
DecodesTo lines kvs =
    (m : MimeHeader) × (decode_headers_msg lines ≡ decoded m)
    × ((k : Text) → values_of k m ≡ given_for k kvs)

not_empty : (s : Text) → s ≢ [] → 0 < length s
not_empty [] h = absurd (h refl)
not_empty (c ∷ s) h = omega arith

other : (i j k : Text) → str_eq i j ≡ false → str_eq i k ≡ true → str_eq j k ≡ false
other i j k e h = elim (Bool-cases (str_eq j k)) [
  | inl x ↦ absurd (
      true-ne-false
        (sym (str_eq_refl i) ∙ ap (str_eq i) (str_eq→eq i k h ∙ sym (str_eq→eq j k x)) ∙ e))
  | inr x ↦ x
]

values_of-add_value :
    (k j v : Text) (m : MimeHeader)
    → values_of k (add_value j v m) ≡ values_of k m ++ given_for k ((j, v) ∷ [])
unfolding add_value
values_of-add_value k j v [] = refl
values_of-add_value k j v ((i, vs) ∷ m) = elim (Bool-cases (str_eq i j)) [
  | inl e ↦
      rw (e, str_eq→eq i j e)
        (elim (Bool-cases (str_eq j k)) [
          | inl h ↦ rw h refl
          | inr h ↦ rw h (sym (append-nil (values_of k m)))
        ])
  | inr e ↦ rw e (elim (Bool-cases (str_eq i k)) [
    | inl h ↦ rw (h, other i j k e h) (sym (append-nil vs))
    | inr h ↦ rw h (values_of-add_value k j v m)
  ])
]

given_for-append :
    (k : Text) (xs ys : List (Text × Text))
    → given_for k (xs ++ ys) ≡ given_for k xs ++ given_for k ys
given_for-append k [] ys = refl
given_for-append k ((j, v) ∷ xs) ys =
    let rest = given_for-append k xs ys in
    elim (Bool-cases (str_eq j k)) [ inl e ↦ rw e (rw rest refl) | inr e ↦ rw e rest ]

values_of-collect :
    (k : Text) (kvs : List (Text × Text)) (m : MimeHeader)
    → values_of k (collect kvs m) ≡ values_of k m ++ given_for k kvs
values_of-collect k [] m = sym (append-nil (values_of k m))
values_of-collect k ((j, v) ∷ kvs) m =
    values_of-collect k kvs (add_value j v m)
    ∙ (ap (λ vs. vs ++ given_for k kvs) (values_of-add_value k j v m)
        ∙ (append_assoc (values_of k m) (given_for k ((j, v) ∷ [])) (given_for k kvs)
            ∙ ap (λ vs. values_of k m ++ vs) (sym (given_for-append k ((j, v) ∷ []) kvs))))

-- what is added behind the header of the keys and values
collected :
    (kvs more : List (Text × Text)) (k : Text)
    → values_of k (collect more (collect kvs [])) ≡ given_for k (kvs ++ more)
collected kvs more k =
    values_of-collect k more (collect kvs [])
    ∙ (ap (λ vs. vs ++ given_for k more) (values_of-collect k kvs [])
        ∙ sym (given_for-append k kvs more))

-- Plain keys and values, written as a message of headers, decode to a header in which each key has its values
-- in order, if no status stands behind NATS/1.0. A status of three characters is added to them; a longer one
-- is added by its first three, with the rest as description if it is more than white space, and without if
-- it is not; and a shorter one, or white space alone, makes the decoder panic.
pub decode_headers_msg_lem :
    (st : Text) (kvs : List (Text × Text))
    → All IsPlain kvs
    → (st ≡ [] → DecodesTo (lines_of st kvs) kvs)
      × (1 ≤ length st
          → length (trim_space st) < 3
          → decode_headers_msg (lines_of st kvs) ≡ slice_panic)
      × (1 ≤ length st
          → length (trim_space st) ≡ 3
          → DecodesTo (lines_of st kvs) (kvs ++ (codes "Status", trim_space st) ∷ []))
      × (1 ≤ length st
          → 3 < length (trim_space st)
          → trim_space (drop 3 (trim_space st)) ≡ []
          → DecodesTo (lines_of st kvs) (kvs ++ (codes "Status", take 3 (trim_space st)) ∷ []))
      × (1 ≤ length st
          → 3 < length (trim_space st)
          → trim_space (drop 3 (trim_space st)) ≢ []
          → DecodesTo (lines_of st kvs) (
              kvs
              ++ (codes "Status", take 3 (trim_space st))
                ∷ (codes "Description", trim_space (drop 3 (trim_space st)))
                ∷ []))
unfolding finish add_status
decode_headers_msg_lem st kvs h =
    let through = decode_lines st kvs h in
    let status = trim_space st in
    let rest = trim_space (drop 3 status) in
    (
      λ e. (collect kvs [], through ∙ rw e refl, λ k. values_of-collect k kvs []),
      λ some_of less. through ∙ ground arith,
      λ some_of same. (
        collect ((codes "Status", status) ∷ []) (collect kvs []),
        through ∙ ground arith,
        collected kvs ((codes "Status", status) ∷ []),
      ),
      λ some_of more bare. (
        collect ((codes "Status", take 3 status) ∷ []) (collect kvs []),
        through ∙ ground (arith, ap length bare),
        collected kvs ((codes "Status", take 3 status) ∷ []),
      ),
      λ some_of more described.
          let long : 0 < length rest = not_empty rest described in
          (
            collect ((codes "Status", take 3 status) ∷ (codes "Description", rest) ∷ [])
                (collect kvs []),
            through ∙ ground arith,
            collected kvs ((codes "Status", take 3 status) ∷ (codes "Description", rest) ∷ []),
          ),
    )
