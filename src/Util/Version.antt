-- ===== src/Util/Version.antt =====
-- internal/util/util.go, versionComponents and VersionIsAtLeast.
pub mod Order
mod Examples
use natscli.Prelude.{
  ℕ, Bool, true, false, not, ◌&&◌, ◌||◌, [], ◌∷◌, Option, some, Text, ◌==◌, if◌then◌else◌,
}
use natscli.Prelude.Int.{ℤ, pos, negsuc, ltb_ℤ}
use natscli.Util.Decimal.{is_digit, parse_int, span}

-- an optional character of the pattern
strip : ℕ → Text → Text
strip k [] = []
strip k (c ∷ s) = if c == k then s else c ∷ s

-- the submatches of `\Av?([0-9]+)\.?([0-9]+)?\.?([0-9]+)?`; the first is empty if nothing matches
pub submatches : Text → Text × Text × Text
unfolding strip
submatches version =
    let (major, rest) = span is_digit (strip b'v' version) in
    let (minor, rest') = span is_digit (strip b'.' rest) in
    let (patch, _) = span is_digit (strip b'.' rest') in (major, minor, patch)

-- strconv.Atoi of a submatch, zero where it did not take part
optional_number : Text → Option ℤ
optional_number [] = some (pos 0)
optional_number (c ∷ s) = parse_int (c ∷ s) 64

abbrev failed : (ℤ × ℤ × ℤ) × Bool
failed = ((negsuc 0, negsuc 0, negsuc 0), false)

numbers : Option ℤ → Option ℤ → Option ℤ → (ℤ × ℤ × ℤ) × Bool
numbers (some major) (some minor) (some patch) = ((major, minor, patch), true)
numbers _ _ _ = failed

components : Text → Text → Text → (ℤ × ℤ × ℤ) × Bool
unfolding numbers optional_number
components [] minor patch = ((pos 0, pos 0, pos 0), false)
components (c ∷ s) minor patch =
    numbers (parse_int (c ∷ s) 64) (optional_number minor) (optional_number patch)

-- the numbers, and whether there was no error
pub version_components : Text → (ℤ × ℤ × ℤ) × Bool
unfolding components submatches
version_components version =
    let (major, minor, patch) = submatches version in components major minor patch

eq_ℤ : ℤ → ℤ → Bool
eq_ℤ a b = not (ltb_ℤ a b) && not (ltb_ℤ b a)

-- the test of VersionIsAtLeast on the components
pub reaches : ℤ × ℤ × ℤ → ℤ → ℤ → ℤ → Bool
unfolding eq_ℤ
reaches (smajor, sminor, spatch) major minor patch = not (
    ltb_ℤ smajor major
    || (eq_ℤ smajor major && ltb_ℤ sminor minor)
    || (eq_ℤ smajor major && eq_ℤ sminor minor && ltb_ℤ spatch patch))

pub version_is_at_least : Text → ℤ → ℤ → ℤ → Bool
version_is_at_least version major minor patch =
    reaches (version_components version).0 major minor patch
