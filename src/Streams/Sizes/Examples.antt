-- ===== src/Streams/Sizes/Examples.antt =====
-- Sizes as the flags give them.
use natscli.Prelude.{some, ◌≡◌, refl, codes, str_eq, has_prefix}
use natscli.Prelude.Int.{pos}
use natscli.Util.Decimal.{parse_int, span, is_digit, is_word}
use natscli.Util.ByteSize.{
  invalid_byte_string, parse_string_as_bytes, trim_space, split_unit, lookup_suffix, to_upper,
}
use natscli.Streams.Samples.{no_limit_flags}
use natscli.Streams.Sizes.{parse_limit_strings}
use natscli.Streams.Edit.{int32}

-- a number of bytes without a unit is read into 32 bits, also where it limits the whole stream
no_large_streams :
    (parse_limit_strings (record no_limit_flags { max_bytes_limit_string = codes "3000000000" })).1
    ≡ some invalid_byte_string
unfolding parse_limit_strings parse_string_as_bytes parse_int trim_space span is_digit is_word
    str_eq has_prefix split_unit lookup_suffix to_upper
no_large_streams = refl

-- 4GB is no int32: an edit leaves messages of size 0
size_wraps : int32 (pos 4294967296) ≡ pos 0
unfolding int32
size_wraps = refl
