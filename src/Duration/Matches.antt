-- ===== src/Duration/Matches.antt =====
-- The matches of numbers with units, one behind the other.
use natscli.Prelude.{
  ℕ, Bool, true, false, [], ◌∷◌, ◌++◌, append-nil, append_assoc, ◌≢◌, ◌≡◌, refl, ◌∙◌, arith, Text,
  &&-both, all,
}
use natscli.Util.Decimal.{is_digit, is_letter}
use natscli.Duration.{Part, between, in_number, in_unit, is_number, is_sign, begin, scan, find_all}

abbrev pub part_of : Text → ℕ → Part
part_of ds u = record { sign = []; number = ds; unit_of = u ∷ [] }

-- What may follow a unit: nothing, or a digit.
abbrev pub starts_with_digit : Text → Bool
starts_with_digit [] = true
starts_with_digit (c ∷ s) = is_digit c

digit_is :
    (c : ℕ) → is_digit c ≡ true → (is_number c ≡ true) × (is_sign c ≡ false) × (is_letter c ≡ false)
unfolding is_number is_sign is_letter is_digit
digit_is c h = (ground arith, ground arith, ground arith)

letter_is : (c : ℕ) → is_letter c ≡ true → is_number c ≡ false
unfolding is_number is_letter is_digit
letter_is c h = ground arith

in_number_digits :
    (ds acc rest : Text)
    → all is_digit ds ≡ true
    → find_all (in_number (record { sign = []; number = acc; unit_of = [] })) (ds ++ rest)
      ≡ find_all (in_number (record { sign = []; number = acc ++ ds; unit_of = [] })) rest
unfolding find_all scan
in_number_digits [] acc rest h = rw (append-nil acc) refl
in_number_digits (d ∷ ds) acc rest h =
    let (one, more) = &&-both (is_digit d) (all is_digit ds) h in
    let (num, sign, letter) = digit_is d one in
    rw num
      (rw (in_number_digits ds (acc ++ d ∷ []) rest more) (rw (append_assoc acc (d ∷ []) ds) refl))

unit_end :
    (p : Part) (rest : Text)
    → starts_with_digit rest ≡ true
    → find_all (in_unit p) rest ≡ p ∷ find_all between rest
unfolding find_all scan
unit_end p [] h = refl
unit_end p (c ∷ s) h = let (num, sign, letter) = digit_is c h in rw letter refl

-- Digits and the letter of a unit are a match.
pub find_all-part :
    (ds : Text) (u : ℕ) (rest : Text)
    → all is_digit ds ≡ true
    → ds ≢ []
    → is_letter u ≡ true
    → starts_with_digit rest ≡ true
    → find_all between (ds ++ u ∷ rest) ≡ part_of ds u ∷ find_all between rest
unfolding find_all scan begin
find_all-part [] u rest h some_of l k = absurd (some_of refl)
find_all-part (d ∷ ds) u rest h some_of l k =
    let (one, more) = &&-both (is_digit d) (all is_digit ds) h in
    let (num, sign, letter) = digit_is d one in
    let no_number = letter_is u l in
    rw (sign, num)
      (in_number_digits ds (d ∷ []) (u ∷ rest) more
        ∙ rw (no_number, l) (unit_end (part_of (d ∷ ds) u) rest k))
