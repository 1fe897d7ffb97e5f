-- ===== src/Duration.antt =====
-- cli/cobra_helpers.go, parseDuration, and columns/columns.go, HumanizeDuration. The regular expression's
-- matches are written out; what strconv.ParseFloat and package time answer is a parameter.
pub mod Digits
pub mod Matches
pub mod Items
pub mod RoundTrip
mod Examples
use natscli.Prelude.{
  ℕ, zero, suc, ◌+◌, ◌-◌, ◌*◌, ◌/◌, ◌%◌, ◌^◌, Bool, ◌||◌, List, [], ◌∷◌, ◌++◌, Option, none, some,
  Text, codes, str_eq, ltb, ◌==◌, if◌then◌else◌, any,
}
use natscli.Prelude.Int.{ℤ, pos, negsuc}
use natscli.Util.Decimal.{is_digit, is_letter}
use natscli.Util.ByteSize.{trim_space}

-- A match of `([-+]?)(([\d\.]+)([a-zA-Z]+))`: the sign, the number and the unit.
pub record Part : Type 0 where
  pub sign : Text
  pub number : Text
  pub unit_of : Text

-- where FindAllStringSubmatch stands: between matches, behind a sign, in a number, in a unit
pub data Scan : Type 0 where
  between : Scan
  in_number in_unit : Part → Scan
  signed : Text → Scan

unfoldable pub is_number : ℕ → Bool
unfolding is_digit
is_number c = is_digit c || c == b'.'

unfoldable pub is_sign : ℕ → Bool
is_sign c = c == b'-' || c == b'+'

-- a character that starts a match, or is passed over
unfoldable pub begin : Text → ℕ → Scan
begin sign c =
    if is_sign c
    then signed (c ∷ [])
    else if is_number c
    then in_number (record { sign = sign; number = c ∷ []; unit_of = [] })
    else between

-- the next character, with the match that it ends
unfoldable pub scan : Scan → ℕ → Scan × List Part
scan between c = (begin [] c, [])
scan (signed t) c = (begin t c, [])
scan (in_number p) c =
    if is_number c
    then (in_number (record p { number = p.number ++ c ∷ [] }), [])
    else if is_letter c
    then (in_unit (record p { unit_of = c ∷ [] }), [])
    else (begin [] c, [])
scan (in_unit p) c =
    if is_letter c
    then (in_unit (record p { unit_of = p.unit_of ++ c ∷ [] }), [])
    else (begin [] c, p ∷ [])

unfoldable pub find_all : Scan → Text → List Part
find_all (in_unit p) [] = p ∷ []
find_all st [] = []
find_all st (c ∷ s) = let (next, found) = scan st c in found ++ find_all next s

-- strconv.ParseFloat(t, 32) times the factors, as time.Duration converts it, and time.ParseDuration of a
-- text without a sign: 64-bit words
pub record Numbers : Type 0 where
  pub float_times : Text → List ℕ → Option ℕ
  pub go_duration : Text → Option ℕ
  pub rounded : ℕ → ℤ → Text
  pub seconds : ℤ → Text

abbrev pub word : ℕ
word = 2 ^ 64

abbrev pub second : ℕ
second = 1000000000

in_hours : Option ℕ → Option ℕ
in_hours none = none
in_hours (some n) = some (n * (3600 * second) % word)

abbrev pub go_units : List Text
go_units =
    codes "ns"
    ∷ codes "us"
    ∷ (194 ∷ 181 ∷ b's' ∷ [])
    ∷ codes "ms"
    ∷ codes "s"
    ∷ codes "m"
    ∷ codes "h"
    ∷ []

-- the switch on the unit: none is an error
unfoldable pub part_value : Numbers → Part → Option ℕ
unfolding in_hours
part_value num p =
    if str_eq p.unit_of (codes "w") || str_eq p.unit_of (codes "W")
    then in_hours (num.float_times p.number (7 ∷ 24 ∷ []))
    else if str_eq p.unit_of (codes "d") || str_eq p.unit_of (codes "D")
    then in_hours (num.float_times p.number (24 ∷ []))
    else if str_eq p.unit_of (codes "M")
    then in_hours (num.float_times p.number (24 ∷ 30 ∷ []))
    else if str_eq p.unit_of (codes "Y") || str_eq p.unit_of (codes "y")
    then in_hours (num.float_times p.number (24 ∷ 365 ∷ []))
    else if any (str_eq p.unit_of) go_units
    then num.go_duration (p.number ++ p.unit_of)
    else none

unfoldable pub add_parts : Numbers → ℕ → List Part → Option ℕ
add_parts num r [] = some r
add_parts num r (p ∷ ps) = elim (part_value num p) [
  | none ↦ none
  | some n ↦ add_parts num ((r + n) % word) ps
]

-- time.Duration(neg) * r
unfoldable pub signed_word : Bool → ℕ → ℤ
signed_word neg r =
    let n = if neg then (word - r) % word else r in
    if ltb n (2 ^ 63) then pos n else negsuc (word - n - 1)

unfoldable pub signed_result : Bool → Option ℕ → Option ℤ
signed_result neg none = none
signed_result neg (some r) = some (signed_word neg r)

unfoldable pub of_parts : Numbers → List Part → Option ℤ
unfolding signed_result
of_parts num [] = none
of_parts num (p ∷ ps) = signed_result (str_eq p.sign (codes "-")) (add_parts num 0 (p ∷ ps))

-- parseDuration: none is errInvalidDuration
unfoldable pub parse_duration : Numbers → Text → Option ℤ
parse_duration num d =
    if str_eq d (codes "0")
    then some (pos 0)
    else if str_eq (trim_space d) []
    then none
    else of_parts num (find_all between (trim_space d))

-- `%d` of a number of at most that many digits
unfoldable pub digits_of : ℕ → ℕ → Text
digits_of zero n = []
digits_of (suc k) n =
    let rest = digits_of k (n / 10) in
    if ltb n 10 then (b'0' + n) ∷ [] else rest ++ (b'0' + n % 10) ∷ []

abbrev pub decimal : ℕ → Text
decimal = digits_of 19

-- the parts from the greatest unit on
unfoldable pub human : Numbers → ℕ → Text
human num d =
    let tsecs = d / second in
    let tmins = tsecs / 60 in
    let thrs = tmins / 60 in
    let tdays = thrs / 24 in
    let tyrs = tdays / 365 in
    let secs = decimal (tsecs % 60) ++ codes "s" in
    let mins = λ (n : ℕ). decimal n ++ b'm' ∷ secs in
    let hrs = λ (n : ℕ). decimal n ++ b'h' ∷ mins (tmins % 60) in
    let days = λ (n : ℕ). decimal n ++ b'd' ∷ hrs (thrs % 24) in
    if ltb 0 tyrs
    then decimal tyrs ++ b'y' ∷ days (tdays % 365)
    else if ltb 0 tdays
    then days tdays
    else if ltb 0 thrs
    then hrs thrs
    else if ltb 0 tmins
    then mins tmins
    else num.seconds (pos d)

-- HumanizeDuration
unfoldable pub humanize_duration : Numbers → ℤ → Text
humanize_duration num (negsuc n) = num.rounded 1000 (negsuc n)
humanize_duration num (pos d) =
    if d == 2 ^ 63 - 1
    then codes "never"
    else if ltb d 1000000
    then num.rounded 1000 (pos d)
    else if ltb d second
    then num.rounded 1000000 (pos d)
    else human num d
