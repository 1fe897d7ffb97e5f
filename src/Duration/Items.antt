-- ===== src/Duration/Items.antt =====
-- A text of numbers with units parses to the sum of its parts.
use natscli.Prelude.{
  ℕ, ◌+◌, ◌*◌, ◌%◌, ◌^◌, ◌<◌, true, false, not, List, [], ◌∷◌, ◌++◌, ◌≢◌, inl, inr, Option, none,
  some, ◌≡◌, refl, ap, ◌∙◌, arith, Text, codes, str_eq→eq, str_eq, ◌==◌, if◌then◌else◌, lt→ltb,
  Bool-cases, &&-both, length, all, length-append, List-cases, List-cases,
}
use natscli.Prelude.Int.{pos}
use natscli.Util.Decimal.{is_digit, is_letter}
use natscli.Util.ByteSize.{is_space}
use natscli.Util.ByteSize.Units.{trim_space_none}
use natscli.Duration.{
  Part, Numbers, between, find_all, part_value, add_parts, signed_result, of_parts, signed_word,
  parse_duration, decimal, second, word,
}
use natscli.Duration.Digits.{Spells, decimal-Spells, all-append}
use natscli.Duration.Matches.{part_of, starts_with_digit, find_all-part}

abbrev pub product : List ℕ → ℕ
product [] = 1
product (n ∷ ns) = n * product ns

abbrev pub seconds_of : ℕ → Option ℕ
seconds_of u =
    if u == b'h'
    then some 3600
    else if u == b'm'
    then some 60
    else if u == b's'
    then some 1
    else none

-- What is used of the library: a 32-bit float of a whole number below 2^24 is that number, and its products
-- below 2^53 are exact; a whole number of hours, minutes or seconds parses where it fits an int64.
pub record IsExact (num : Numbers) : Type 0 where
  pub float_exact :
      (ds : Text) (n : ℕ) (fs : List ℕ)
      → Spells ds n
      → n < 2 ^ 24
      → n * product fs < 2 ^ 53
      → num.float_times ds fs ≡ some (n * product fs)
  pub go_exact :
      (ds : Text) (n u k : ℕ)
      → Spells ds n
      → seconds_of u ≡ some k
      → n * (k * second) < 2 ^ 63
      → num.go_duration (ds ++ u ∷ []) ≡ some (n * (k * second))

-- a number, a unit, and how many nanoseconds they are
abbrev pub Item : Type 0
Item = ℕ × ℕ × ℕ

abbrev pub text_of : List Item → Text
text_of [] = []
text_of ((n, u, x) ∷ items) = decimal n ++ u ∷ text_of items

abbrev pub sum_of : List Item → ℕ
sum_of [] = 0
sum_of ((n, u, x) ∷ items) = x + sum_of items

abbrev parts_of : List Item → List Part
parts_of [] = []
parts_of ((n, u, x) ∷ items) = part_of (decimal n) u ∷ parts_of items

module _ (num : Numbers) where
  abbrev pub Fine : List Item → Type 0
  Fine [] = Unit
  Fine ((n, u, x) ∷ items) =
      (n < 2 ^ 63)
      × (is_letter u ≡ true)
      × (part_value num (part_of (decimal n) u) ≡ some x)
      × Fine items

  starts_text :
      (t rest : Text) → all is_digit t ≡ true → t ≢ [] → starts_with_digit (t ++ rest) ≡ true
  starts_text [] rest h some_of = absurd (some_of refl)
  starts_text (c ∷ t) rest h some_of = (&&-both (is_digit c) (all is_digit t) h).0

  starts_items : (items : List Item) → Fine items → starts_with_digit (text_of items) ≡ true
  starts_items [] f = refl
  starts_items ((n, u, x) ∷ items) (h, l, v, f) =
      let (digits, val, some_of) = decimal-Spells n h in
      starts_text (decimal n) (u ∷ text_of items) digits some_of

  find_all_items :
      (items : List Item) → Fine items → find_all between (text_of items) ≡ parts_of items
  find_all_items [] f = unfold find_all in refl
  find_all_items ((n, u, x) ∷ items) (h, l, v, f) =
      let (digits, val, some_of) = decimal-Spells n h in
      find_all-part (decimal n) u (text_of items) digits some_of l (starts_items items f)
      ∙ ap (λ ps. part_of (decimal n) u ∷ ps) (find_all_items items f)

  add_parts_step :
      (p : Part) (ps : List Part) (r x : ℕ)
      → part_value num p ≡ some x
      → add_parts num r (p ∷ ps) ≡ add_parts num ((r + x) % word) ps
  unfolding add_parts
  add_parts_step p ps r x v = ground arith

  add_parts_items :
      (items : List Item) (r : ℕ)
      → Fine items
      → r + sum_of items < word
      → add_parts num r (parts_of items) ≡ some (r + sum_of items)
  add_parts_items [] r f h = unfold add_parts in ap some (omega arith)
  add_parts_items ((n, u, x) ∷ items) r (m, l, v, f) h =
      let rest = add_parts_items items ((r + x) % word) f (omega arith) in
      add_parts_step (part_of (decimal n) u) (parts_of items) r x v ∙ (rest ∙ ap some (omega arith))

  letter_visible : (u : ℕ) → is_letter u ≡ true → is_space u ≡ false
  unfolding is_letter is_space
  letter_visible u h = ground arith

  digits_visible : (s : Text) → all is_digit s ≡ true → all (λ c. not (is_space c)) s ≡ true
  unfolding is_digit is_space
  digits_visible [] h = refl
  digits_visible (c ∷ s) h = let rest = digits_visible s in ground arith

  items_visible :
      (items : List Item) → Fine items → all (λ c. not (is_space c)) (text_of items) ≡ true
  items_visible [] f = refl
  items_visible ((n, u, x) ∷ items) (h, l, v, f) =
      let (digits, val, some_of) = decimal-Spells n h in
      let letter = letter_visible u l in
      let rest = items_visible items f in
      all-append (λ c. not (is_space c)) (decimal n) (u ∷ text_of items)
        (digits_visible (decimal n) digits) (ground arith)

  not_zero :
      (items : List Item) → Fine items → items ≢ [] → str_eq (text_of items) (codes "0") ≡ false
  not_zero [] f some_of = absurd (some_of refl)
  not_zero ((n, u, x) ∷ items) (h, l, v, f) some_of =
      let (digits, val, some_digit) = decimal-Spells n h in
      elim (Bool-cases (str_eq (text_of ((n, u, x) ∷ items)) (codes "0"))) [
        | inr e ↦ e
        | inl e ↦
            let long = length-append (decimal n) (u ∷ text_of items) in
            let same = ap length (str_eq→eq _ _ e) in
            elim (List-cases (decimal n)) [
              | inl k ↦ absurd (some_digit k)
              | inr (c, cs, k) ↦ let one = ap length k in absurd (omega (arith, long, same, one))
            ]
      ]

  some_text : (s : Text) (c : ℕ) (t : Text) → str_eq (s ++ c ∷ t) [] ≡ false
  unfolding str_eq
  some_text [] c t = refl
  some_text (d ∷ s) c t = refl

  not_empty : (items : List Item) → items ≢ [] → str_eq (text_of items) [] ≡ false
  not_empty [] some_of = absurd (some_of refl)
  not_empty ((n, u, x) ∷ items) some_of = some_text (decimal n) u (text_of items)

  small_word : (n : ℕ) → n < 2 ^ 63 → signed_word false n ≡ pos n
  unfolding signed_word
  small_word n h = rw (lt→ltb n (2 ^ 63) h) refl

  of_parts_items :
      (items : List Item)
      → Fine items
      → items ≢ []
      → sum_of items < 2 ^ 63
      → of_parts num (parts_of items) ≡ some (pos (sum_of items))
  unfolding of_parts signed_result str_eq
  of_parts_items [] f some_of h = absurd (some_of refl)
  of_parts_items ((n, u, x) ∷ items) f some_of h =
      ap (signed_result false) (add_parts_items ((n, u, x) ∷ items) 0 f (omega arith))
      ∙ ap some (small_word (0 + sum_of ((n, u, x) ∷ items)) (omega arith) ∙ ap pos (omega arith))

  -- The parts' sum, where it fits an int64.
  pub parse_items :
      (items : List Item)
      → Fine items
      → items ≢ []
      → sum_of items < 2 ^ 63
      → parse_duration num (text_of items) ≡ some (pos (sum_of items))
  unfolding parse_duration
  parse_items items f some_of h =
      let trimmed = trim_space_none (text_of items) (items_visible items f) in
      rw (not_zero items f some_of, trimmed, not_empty items some_of, find_all_items items f)
        (of_parts_items items f some_of h)
