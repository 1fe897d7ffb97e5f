-- ===== src/Util/ByteSize/Examples.antt =====
-- Runs of ParseStringAsBytes.
use natscli.Prelude.{
  ◌*◌, ◌^◌, ◌<◌, true, map, ◌↔◌, none, some, ◌≡◌, refl, arith, codes, str_eq, has_prefix, all,
}
use natscli.Prelude.Int.{pos}
use natscli.Util.Decimal.{is_digit, is_word, value, parse_int, span}
use natscli.Util.ByteSize.{
  parse_string_as_bytes, trim_space, split_unit, to_upper, lookup_suffix, suffix_map,
}
use natscli.Util.ByteSize.Units.{parse_string_as_bytes_lem}

one_kb : parse_string_as_bytes (codes " 1kb ") 64 ≡ (pos 1024, none)
unfolding parse_string_as_bytes parse_int span is_word trim_space split_unit to_upper lookup_suffix
    has_prefix str_eq
one_kb = refl

-- What stands behind the unit is ignored.
rest_ignored : parse_string_as_bytes (codes "1K!") 64 ≡ (pos 1024, none)
unfolding parse_string_as_bytes parse_int span is_word trim_space split_unit to_upper lookup_suffix
    has_prefix str_eq
rest_ignored = refl

-- 2^24 T is 2^64 bytes, which wraps to none.
wraps_to_zero : parse_string_as_bytes (codes "16777216T") 64 ≡ (pos 0, none)
unfolding parse_string_as_bytes parse_int span is_word trim_space split_unit to_upper lookup_suffix
    has_prefix str_eq
wraps_to_zero = refl

kilobytes : lookup_suffix (map to_upper (codes "kb")) suffix_map ≡ some 10
unfolding lookup_suffix to_upper str_eq
kilobytes = refl

fifteen_digits : all is_digit (codes "15") ≡ true
unfolding is_digit
fifteen_digits = refl

parse_string_as_bytes_example :
    (parse_string_as_bytes (codes "15") 32 ≡ (pos (value (codes "15")), none))
    × ((parse_string_as_bytes (codes "15kb") 64).1 ≡ none)
    × (((parse_string_as_bytes (codes "15kb") 64).0 ≡ pos (value (codes "15") * 2 ^ 10))
        ↔ (value (codes "15") * 2 ^ 10 < 2 ^ 63))
parse_string_as_bytes_example =
    parse_string_as_bytes_lem b'1' (codes "5") 32 b'k' (codes "b") 10 refl fifteen_digits
      (omega arith) (omega arith) kilobytes
