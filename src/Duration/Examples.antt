-- ===== src/Duration/Examples.antt =====
-- Runs with numbers that are exact.
use natscli.Prelude.{
  ℕ, ◌+◌, ◌*◌, ◌/◌, [], ◌∷◌, Option, none, some, ◌≡◌, refl, arith, Text, codes, str_eq,
}
use natscli.Prelude.Int.{pos}
use natscli.Util.Decimal.{is_digit, is_letter, value, span, span-append}
use natscli.Util.ByteSize.{trim_space}
use natscli.Duration.{
  Numbers, parse_duration, humanize_duration, second, find_all, scan, begin, is_number, is_sign,
  part_value, add_parts, of_parts, signed_result, signed_word,
}
use natscli.Duration.Items.{IsExact, seconds_of, product}
use natscli.Duration.RoundTrip.{parse_duration-humanize_duration}

abbrev with_seconds : ℕ → Option ℕ → Option ℕ
with_seconds n none = none
with_seconds n (some k) = some (n * (k * second))

abbrev of_span : Text × Text → Option ℕ
of_span (ds, []) = none
of_span (ds, u ∷ []) = with_seconds (value ds) (seconds_of u)
of_span (ds, u ∷ v ∷ rest) = none

abbrev numbers : Numbers
numbers = record {
  float_times = λ t fs. some (value t * product fs);
  go_duration = λ t. of_span (span is_digit t);
  rounded = λ n d. [];
  seconds = λ d. [];
}

unit_stops : (u k : ℕ) → seconds_of u ≡ some k → span is_digit (u ∷ []) ≡ ([], u ∷ [])
unfolding span is_digit
unit_stops u k h = ground arith

numbers-IsExact : IsExact numbers
numbers-IsExact = record {
  float_exact = λ ds n fs (digits, val, some_of) h k. rw val refl;
  go_exact = λ ds n u k (digits, val, some_of) e h.
      rw (span-append is_digit ds (u ∷ []) digits (unit_stops u k e)) (rw (e, val) refl);
}

-- what stands between the matches is passed over, and a micro sign is no letter
passed_over :
    (parse_duration numbers (codes "in 1d, or so") ≡ some (pos (24 * 3600 * second)))
    × (parse_duration numbers (b'5' ∷ 194 ∷ 181 ∷ b's' ∷ []) ≡ none)
unfolding parse_duration find_all scan begin is_number is_sign part_value add_parts of_parts
    signed_result signed_word trim_space str_eq is_letter is_digit
passed_over = (refl, refl)

parse_duration-humanize_duration_example :
    parse_duration numbers (humanize_duration numbers (pos (90061 * second + 5)))
    ≡ some (pos ((90061 * second + 5) / second * second))
parse_duration-humanize_duration_example =
    parse_duration-humanize_duration numbers numbers-IsExact (90061 * second + 5) (omega arith)
      (omega arith)
