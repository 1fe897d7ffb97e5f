-- ===== src/Util/ByteSize.antt =====
-- internal/util/util.go, ParseStringAsBytes: byte counts with an optional unit. Texts are ASCII: the
-- white space that TrimSpace knows beyond it is not modelled. A result is the pair that the code
-- returns, the number and the error.
pub mod Units
mod Examples
use natscli.Prelude.{
  ℕ, ◌+◌, ◌-◌, ◌*◌, ◌%◌, ◌^◌, Bool, ◌&&◌, ◌||◌, List, [], ◌∷◌, map, Option, none, some, Text, codes,
  str_eq, has_prefix, ltb, leb, ◌==◌, if◌then◌else◌, length, take, drop,
}
use natscli.Prelude.Int.{ℤ, pos, negsuc, ltb_ℤ}
use natscli.Util.Decimal.{is_digit, is_word, parse_int, span}

pub data ByteError : Type 0 where
  invalid_bit_size invalid_byte_string bytes_out_of_range : ByteError

abbrev pub valid_bit_size : ℕ → Bool
valid_bit_size b = b == 8 || b == 16 || b == 32 || b == 64

unfoldable pub is_space : ℕ → Bool
is_space c = (leb 9 c && leb c 13) || c == b' '

trim_left : Text → Text
unfolding is_space
trim_left [] = []
trim_left (c ∷ s) = let rest = trim_left s in if is_space c then rest else c ∷ s

trim_right_step : ℕ → Text → Text
unfolding is_space
trim_right_step c [] = if is_space c then [] else c ∷ []
trim_right_step c (d ∷ s) = c ∷ d ∷ s

trim_right : Text → Text
unfolding trim_right_step
trim_right [] = []
trim_right (c ∷ s) = trim_right_step c (trim_right s)

-- strings.TrimSpace
unfoldable pub trim_space : Text → Text
unfolding trim_left trim_right
trim_space s = trim_right (trim_left s)

unfoldable pub to_upper : ℕ → ℕ
to_upper c = if leb b'a' c && leb c b'z' then c - 32 else c

-- `^(\d+)(\w+)`: the digits give their last one back where no other word character follows.
give_back : Text → Option (Text × Text)
give_back [] = none
give_back (d ∷ []) = none
give_back (d ∷ e ∷ ds) = some (take (length ds + 1) (d ∷ e ∷ ds), drop (length ds + 1) (d ∷ e ∷ ds))

number_and_unit : Text → Text → Option (Text × Text)
number_and_unit [] unit = none
number_and_unit (d ∷ ds) [] = give_back (d ∷ ds)
number_and_unit (d ∷ ds) (u ∷ unit) = some (d ∷ ds, u ∷ unit)

-- bytesUnitSplitter.FindStringSubmatch
unfoldable pub split_unit : Text → Option (Text × Text)
unfolding number_and_unit give_back
split_unit s =
    let (digits, rest) = span is_digit s in
    let (unit, _) = span is_word rest in number_and_unit digits unit

abbrev pub suffix_map : List (Text × ℕ)
suffix_map =
    (codes "B", 0)
    ∷ (codes "K", 10)
    ∷ (codes "KB", 10)
    ∷ (codes "KIB", 10)
    ∷ (codes "M", 20)
    ∷ (codes "MB", 20)
    ∷ (codes "MIB", 20)
    ∷ (codes "G", 30)
    ∷ (codes "GB", 30)
    ∷ (codes "GIB", 30)
    ∷ (codes "T", 40)
    ∷ (codes "TB", 40)
    ∷ (codes "TIB", 40)
    ∷ []

unfoldable pub lookup_suffix : Text → List (Text × ℕ) → Option ℕ
lookup_suffix k [] = none
lookup_suffix k ((j, v) ∷ m) = if str_eq k j then some v else lookup_suffix k m

-- an int64 of these bits
pub wrap64 : ℕ → ℤ
wrap64 n = let r = n % 2 ^ 64 in if ltb r (2 ^ 63) then pos r else negsuc (2 ^ 64 - r - 1)

-- `num *= 1 << mult` in int64; `num` was read from digits alone, so it is not negative
scaled : ℤ → ℕ → ℤ
unfolding wrap64
scaled (pos n) mult = wrap64 (n * 2 ^ mult)
scaled (negsuc n) mult = negsuc n

with_unit : Option ℤ → Option ℕ → ℤ × Option ByteError
unfolding scaled
with_unit none mult = (pos 0, some bytes_out_of_range)
with_unit (some num) none = (pos 0, some invalid_byte_string)
with_unit (some num) (some mult) = (scaled num mult, none)

parse_with_unit : Option (Text × Text) → ℕ → ℤ × Option ByteError
unfolding with_unit
parse_with_unit none bits = (pos 0, some invalid_byte_string)
parse_with_unit (some (number, suffix)) bits =
    with_unit (parse_int number bits) (lookup_suffix (map to_upper suffix) suffix_map)

parse_number : Option ℤ → Text → ℕ → ℤ × Option ByteError
unfolding parse_with_unit
parse_number none s bits = parse_with_unit (split_unit s) bits
parse_number (some num) s bits = (if ltb_ℤ num (pos 0) then negsuc 0 else num, none)

parse_trimmed : Text → ℕ → ℤ × Option ByteError
unfolding parse_number
parse_trimmed s bits =
    if has_prefix s (codes "-") then (negsuc 0, none) else parse_number (parse_int s bits) s bits

unfoldable pub parse_string_as_bytes : Text → ℕ → ℤ × Option ByteError
unfolding parse_trimmed
parse_string_as_bytes [] bits = (negsuc 0, none)
parse_string_as_bytes (c ∷ s) bits =
    if valid_bit_size bits
    then parse_trimmed (trim_space (c ∷ s)) bits
    else (negsuc 0, some invalid_bit_size)
