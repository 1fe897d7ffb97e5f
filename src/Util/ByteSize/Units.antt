-- ===== src/Util/ByteSize/Units.antt =====
-- What ParseStringAsBytes makes of digits with and without a unit.
use natscli.Prelude.{
  ℕ, ◌-◌, ◌*◌, ◌^◌, ◌<◌, Bool, true, false, not, List, [], ◌∷◌, ◌++◌, append-nil, map, ◌↔◌, inl,
  inr, none, some, ◌≡◌, refl, arith, Text, codes, str_eq→eq, str_eq, has_prefix, ◌==◌, Bool-cases,
  &&-both, all, cons-ne-nil,
}
use natscli.Prelude.Int.{pos}
use natscli.Util.Decimal.{
  is_digit, is_letter, is_word, value, span, span-append, span-all, parse_int-digits,
  parse_int-letters, &&-false,
}
use natscli.Util.ByteSize.{
  is_space, trim_left, trim_right, trim_space, to_upper, split_unit, lookup_suffix, suffix_map,
  valid_bit_size, wrap64, parse_number, parse_string_as_bytes,
}

abbrev letters : Text → Bool
letters = all is_letter

to_upper-is_letter : (c : ℕ) → is_letter (to_upper c) ≡ true → is_letter c ≡ true
unfolding is_letter to_upper
to_upper-is_letter c h = ground arith

map-to_upper-letters : (s : Text) → letters (map to_upper s) ≡ true → letters s ≡ true
map-to_upper-letters [] h = refl
map-to_upper-letters (c ∷ s) h =
    let (here, there) = &&-both (is_letter (to_upper c)) _ h in
    rw (to_upper-is_letter c here, map-to_upper-letters s there)

lookup_suffix-letters :
    (k : Text) (m : List (Text × ℕ)) {v : ℕ}
    → all (λ e. letters e.0) m ≡ true
    → lookup_suffix k m ≡ some v
    → letters k ≡ true
unfolding lookup_suffix
lookup_suffix-letters k [] h e = cc
lookup_suffix-letters k ((j, w) ∷ m) h e =
    let (here, there) = &&-both (letters j) _ h in
    elim (Bool-cases (str_eq k j)) [
      | inl same ↦ rw (str_eq→eq k j same) here
      | inr differs ↦ lookup_suffix-letters k m there (rw differs at e)
    ]

units_are_letters : all (λ (e : Text × ℕ). letters e.0) suffix_map ≡ true
unfolding is_letter
units_are_letters = refl

suffix-ne-nil : lookup_suffix [] suffix_map ≡ none
unfolding lookup_suffix str_eq
suffix-ne-nil = refl

letter_facts :
    (c : ℕ) → is_letter c ≡ true → (is_word c ≡ true) × (is_digit c ≡ false) × (is_space c ≡ false)
unfolding is_letter is_word is_space
letter_facts c h = ground arith

digit_not_space : (c : ℕ) → is_digit c ≡ true → (is_space c ≡ false) × ((c == b'-') ≡ false)
unfolding is_digit is_space
digit_not_space c h = ground arith

letters-words : (s : Text) → letters s ≡ true → all is_word s ≡ true
letters-words [] h = refl
letters-words (c ∷ s) h =
    let (here, there) = &&-both (is_letter c) _ h in
    rw ((letter_facts c here).0, letters-words s there)

visible : Text → Bool
visible = all (λ c. not (is_space c))

trim_right-visible : (s : Text) → visible s ≡ true → trim_right s ≡ s
unfolding trim_right visible
trim_right-visible [] h = refl
trim_right-visible (c ∷ []) h = ground arith
trim_right-visible (c ∷ d ∷ s) h =
    rw (trim_right-visible (d ∷ s) (&&-both (not (is_space c)) _ h).1)

trim_left-visible : (c : ℕ) (s : Text) → is_space c ≡ false → trim_left (c ∷ s) ≡ c ∷ s
unfolding trim_left
trim_left-visible c s h = rw h

trim_space-visible :
    (c : ℕ) (s : Text) → visible (c ∷ s) ≡ true → is_space c ≡ false → trim_space (c ∷ s) ≡ c ∷ s
unfolding trim_space
trim_space-visible c s h k = rw (trim_left-visible c s k) (trim_right-visible (c ∷ s) h)

-- A text without white space is not trimmed.
pub trim_space_none : (s : Text) → all (λ c. not (is_space c)) s ≡ true → trim_space s ≡ s
unfolding visible
trim_space_none [] h = unfold trim_space in refl
trim_space_none (c ∷ s) h =
    let (here, rest) = &&-both (not (is_space c)) _ h in trim_space-visible c s h (ground arith)

digits-visible :
    (ds : Text) (u : Text) → all is_digit ds ≡ true → letters u ≡ true → visible (ds ++ u) ≡ true
unfolding visible
digits-visible [] [] h k = refl
digits-visible [] (c ∷ u) h k =
    let (here, there) = &&-both (is_letter c) _ k in
    rw ((letter_facts c here).2, digits-visible [] u refl there)
digits-visible (d ∷ ds) u h k =
    let (here, there) = &&-both (is_digit d) _ h in
    rw ((digit_not_space d here).0, digits-visible ds u there k)

not_all_digits :
    (ds : Text) (c : ℕ) (u : Text) → is_digit c ≡ false → all is_digit (ds ++ c ∷ u) ≡ false
not_all_digits [] c u h = rw h
not_all_digits (d ∷ ds) c u h = rw (not_all_digits ds c u h) (&&-false (is_digit d))

span_stops : (c : ℕ) (u : Text) → is_digit c ≡ false → span is_digit (c ∷ u) ≡ ([], c ∷ u)
unfolding span
span_stops c u h = rw h

split_unit_lem :
    (d : ℕ) (ds : Text) (c : ℕ) (u : Text)
    → all is_digit (d ∷ ds) ≡ true
    → letters (c ∷ u) ≡ true
    → split_unit (d ∷ (ds ++ c ∷ u)) ≡ some (d ∷ ds, c ∷ u)
unfolding split_unit
split_unit_lem d ds c u h k =
    let (letter, _) = &&-both (is_letter c) (letters u) k in
    let (_, not_digit, _) = letter_facts c letter in
    rw (
      span-append is_digit (d ∷ ds) (c ∷ u) h (span_stops c u not_digit),
      span-all is_word (c ∷ u) (letters-words (c ∷ u) k),
    )

no_sign : (d : ℕ) (s : Text) → (d == b'-') ≡ false → has_prefix (d ∷ s) (codes "-") ≡ false
unfolding has_prefix
no_sign d s h = rw h

-- The number that `parse_string_as_bytes` makes of digits and a unit.
parse_string_as_bytes-wrap64 :
    (d : ℕ) (ds : Text) (c : ℕ) (u : Text) (m : ℕ)
    → all is_digit (d ∷ ds) ≡ true
    → value (d ∷ ds) < 2 ^ 63
    → lookup_suffix (map to_upper (c ∷ u)) suffix_map ≡ some m
    → parse_string_as_bytes (d ∷ (ds ++ c ∷ u)) 64 ≡ (wrap64 (value (d ∷ ds) * 2 ^ m), none)
unfolding parse_string_as_bytes
parse_string_as_bytes-wrap64 d ds c u m h fits unit =
    let up =
      map-to_upper-letters (c ∷ u) (lookup_suffix-letters _ suffix_map units_are_letters unit) in
    let (digit, more) = &&-both (is_digit d) _ h in
    rw
      (trim_space-visible d (ds ++ c ∷ u) (digits-visible (d ∷ ds) (c ∷ u) h up)
        (digit_not_space d digit).0)
      (rw (
        no_sign d (ds ++ c ∷ u) (digit_not_space d digit).1,
        parse_int-letters d (ds ++ c ∷ u) 64 digit
            (not_all_digits ds c u (letter_facts c (&&-both (is_letter c) _ up).0).1),
        split_unit_lem d ds c u h up,
        parse_int-digits (d ∷ ds) 64 (cons-ne-nil d ds) h fits,
        unit,
      ))

wrap64-exact_iff : (n : ℕ) → (wrap64 n ≡ pos n) ↔ (n < 2 ^ 63)
unfolding wrap64
wrap64-exact_iff n = (λ e. ground arith, λ h. ground arith)

-- Digits that fit an int64, with a unit of the table in either case: there is never an error, and
-- the result is the number of bytes that is meant exactly if that number fits an int64.
parse_string_as_bytes-unit :
    (d : ℕ) (ds : Text) (c : ℕ) (u : Text) (m : ℕ)
    → all is_digit (d ∷ ds) ≡ true
    → value (d ∷ ds) < 2 ^ 63
    → lookup_suffix (map to_upper (c ∷ u)) suffix_map ≡ some m
    → ((parse_string_as_bytes (d ∷ (ds ++ c ∷ u)) 64).1 ≡ none)
      × (((parse_string_as_bytes (d ∷ (ds ++ c ∷ u)) 64).0 ≡ pos (value (d ∷ ds) * 2 ^ m))
          ↔ (value (d ∷ ds) * 2 ^ m < 2 ^ 63))
parse_string_as_bytes-unit d ds c u m h fits unit =
    rw (parse_string_as_bytes-wrap64 d ds c u m h fits unit)
      (refl, wrap64-exact_iff (value (d ∷ ds) * 2 ^ m))

number_kept : (n : ℕ) (s : Text) (bits : ℕ) → parse_number (some (pos n)) s bits ≡ (pos n, none)
unfolding parse_number
number_kept n s bits = ground arith

-- Digits alone are the number that they spell, if it fits the bit size that was asked for.
parse_string_as_bytes-digits :
    (d : ℕ) (ds : Text) (bits : ℕ)
    → valid_bit_size bits ≡ true
    → all is_digit (d ∷ ds) ≡ true
    → value (d ∷ ds) < 2 ^ (bits - 1)
    → parse_string_as_bytes (d ∷ ds) bits ≡ (pos (value (d ∷ ds)), none)
unfolding parse_string_as_bytes
parse_string_as_bytes-digits d ds bits size h fits =
    let (digit, _) = &&-both (is_digit d) _ h in
    let seen = rw (append-nil (d ∷ ds)) at (digits-visible (d ∷ ds) [] h refl) in
    rw
      (
        size,
        trim_space-visible d ds seen (digit_not_space d digit).0,
        no_sign d ds (digit_not_space d digit).1,
        parse_int-digits (d ∷ ds) bits (cons-ne-nil d ds) h fits,
      )
      (number_kept (value (d ∷ ds)) (d ∷ ds) bits)

-- Digits that fit the bit size asked for and an int64 are, alone, the number that they spell. With a unit of
-- the table, in either case, there is never an error at 64 bits, and the result is the number of bytes
-- that is meant exactly if that number fits an int64.
pub parse_string_as_bytes_lem :
    (d : ℕ) (ds : Text) (bits c : ℕ) (u : Text) (m : ℕ)
    → valid_bit_size bits ≡ true
    → all is_digit (d ∷ ds) ≡ true
    → value (d ∷ ds) < 2 ^ (bits - 1)
    → value (d ∷ ds) < 2 ^ 63
    → lookup_suffix (map to_upper (c ∷ u)) suffix_map ≡ some m
    → (parse_string_as_bytes (d ∷ ds) bits ≡ (pos (value (d ∷ ds)), none))
      × ((parse_string_as_bytes (d ∷ (ds ++ c ∷ u)) 64).1 ≡ none)
      × (((parse_string_as_bytes (d ∷ (ds ++ c ∷ u)) 64).0 ≡ pos (value (d ∷ ds) * 2 ^ m))
          ↔ (value (d ∷ ds) * 2 ^ m < 2 ^ 63))
parse_string_as_bytes_lem d ds bits c u m size h fits fits64 unit =
    let (no_error, exact) = parse_string_as_bytes-unit d ds c u m h fits64 unit in
    (parse_string_as_bytes-digits d ds bits size h fits, no_error, exact)
