-- ===== src/Util/Decimal.antt =====
-- Go's strconv.ParseInt and strconv.Atoi in base ten, and the characters that the regular
-- expressions of internal/util/util.go tell apart. An error is `none`: no caller looks at its kind.
use natscli.Prelude.{
  ℕ, ◌+◌, ◌-◌, ◌*◌, ◌^◌, ◌≤◌, ◌<◌, Bool, true, false, ◌&&◌, ◌||◌, [], ◌∷◌, ◌++◌, ◌≢◌, Option, none,
  some, ◌≡◌, refl, arith, Text, ltb, leb, ◌==◌, if◌then◌else◌, &&-both, all,
}
use mathlib.Core.List.{foldl}
use natscli.Prelude.Int.{ℤ, pos, sub_ℕ}

unfoldable pub is_digit : ℕ → Bool
is_digit c = leb b'0' c && leb c b'9'

unfoldable pub is_letter : ℕ → Bool
is_letter c = (leb b'a' c && leb c b'z') || (leb b'A' c && leb c b'Z')

-- `\w`
unfoldable pub is_word : ℕ → Bool
unfolding is_digit is_letter
is_word c = is_digit c || is_letter c || c == b'_'

-- the number that digits spell behind `n`
abbrev pub value_from : ℕ → Text → ℕ
value_from = foldl (λ n c. n * 10 + (c - b'0'))

abbrev pub value : Text → ℕ
value = value_from 0

-- the magnitude behind a sign: one or more digits
unfoldable pub magnitude : Text → Option ℕ
unfolding is_digit
magnitude [] = none
magnitude (c ∷ s) = if all is_digit (c ∷ s) then some (value (c ∷ s)) else none

-- at most `limit` in magnitude, with its sign
in_range : Bool → ℕ → Option ℕ → Option ℤ
in_range negative limit none = none
in_range negative limit (some n) =
    if ltb limit n then none else some (if negative then sub_ℕ 0 n else pos n)

-- strconv.ParseInt(s, 10, bits)
unfoldable pub parse_int : Text → ℕ → Option ℤ
unfolding in_range magnitude
parse_int [] bits = none
parse_int (c ∷ s) bits =
    if c == b'-'
    then in_range true (2 ^ (bits - 1)) (magnitude s)
    else in_range false (2 ^ (bits - 1) - 1) (magnitude (if c == b'+' then s else c ∷ s))

-- The longest prefix of characters that pass the test, and the rest.
unfoldable pub span : (ℕ → Bool) → Text → Text × Text
span p [] = ([], [])
span p (c ∷ s) = let (here, rest) = span p s in if p c then (c ∷ here, rest) else ([], c ∷ s)

pub span-append :
    (p : ℕ → Bool) (ds rest : Text)
    → all p ds ≡ true
    → span p rest ≡ ([], rest)
    → span p (ds ++ rest) ≡ (ds, rest)
unfolding span
span-append p [] rest h stop = stop
span-append p (c ∷ ds) rest h stop = ground (arith, span-append p ds rest)

pub span-all : (p : ℕ → Bool) (s : Text) → all p s ≡ true → span p s ≡ (s, [])
unfolding span
span-all p [] h = refl
span-all p (c ∷ s) h = ground (arith, span-all p s)

-- digits carry no sign
pub digit_bounds : (c : ℕ) → is_digit c ≡ true → (b'0' ≤ c) × (c ≤ b'9')
unfolding is_digit
digit_bounds c h = ground arith

not_sign : (c k : ℕ) → b'0' ≤ c → k < b'0' → (c == k) ≡ false
not_sign c k h lt = ground arith

not_above : (n m : ℕ) → n < m → ltb (m - 1) n ≡ false
not_above n m h = ground arith

pub &&-false : (b : Bool) → (b && false) ≡ false
&&-false true = refl
&&-false false = refl

parse_plain :
    (c : ℕ) (ds : Text) (bits : ℕ)
    → (c == b'-') ≡ false
    → (c == b'+') ≡ false
    → all is_digit (c ∷ ds) ≡ true
    → (n : ℕ) → value (c ∷ ds) ≡ n
    → n < 2 ^ (bits - 1)
    → parse_int (c ∷ ds) bits ≡ some (pos n)
unfolding parse_int
parse_plain c ds bits p q h n e fits = rw (p, q, h, e, not_above n (2 ^ (bits - 1)) fits)

parse_letters :
    (c : ℕ) (s : Text) (bits : ℕ)
    → (c == b'-') ≡ false
    → (c == b'+') ≡ false
    → all is_digit (c ∷ s) ≡ false
    → parse_int (c ∷ s) bits ≡ none
unfolding parse_int
parse_letters c s bits p q h = rw (p, q, h)

pub parse_int-digits :
    (ds : Text) (bits : ℕ)
    → ds ≢ []
    → all is_digit ds ≡ true
    → value ds < 2 ^ (bits - 1)
    → parse_int ds bits ≡ some (pos (value ds))
parse_int-digits [] bits ne h fits = absurd (ne refl)
parse_int-digits (c ∷ ds) bits ne h fits =
    let (digit, _) = &&-both (is_digit c) (all is_digit ds) h in
    let low = (digit_bounds c digit).0 in
    parse_plain c ds bits (not_sign c b'-' low (omega arith)) (not_sign c b'+' low (omega arith)) h
      (value (c ∷ ds)) refl fits

-- A text of a digit and, somewhere behind it, a character that is none is refused.
pub parse_int-letters :
    (c : ℕ) (s : Text) (bits : ℕ)
    → is_digit c ≡ true
    → all is_digit s ≡ false
    → parse_int (c ∷ s) bits ≡ none
parse_int-letters c s bits digit k =
    let low = (digit_bounds c digit).0 in
    parse_letters c s bits (not_sign c b'-' low (omega arith)) (not_sign c b'+' low (omega arith))
      (rw k (&&-false (is_digit c)))
