-- ===== src/Cobra/Values.antt =====
-- cli/cobra_values.go: the flag values. `Set` returns the value after the call and the error, if
-- there was one. The file system, the URL parser and the regular expression compiler are arguments:
-- `stat` tells whether a path exists and is a directory, `parse` and `compile` return nothing on
-- an error.
pub mod Cumulative
pub mod Single
mod Examples
use natscli.Prelude.{
  ℕ, ◌+◌, Bool, true, false, ◌||◌, List, [], ◌∷◌, ◌++◌, Option, none, some, Text, str_eq, ◌==◌,
  if◌then◌else◌, any,
}
use natscli.Prelude.Int.{ℤ, ltb_ℤ}
use natscli.Util.Decimal.{parse_int}

pub data ValueError : Type 0 where
  must_be_one_of : List Text → Text → ValueError
  does_not_exist is_a_directory not_a_directory : Text → ValueError
  expected_key_value invalid_value : Text → ValueError
  invalid_int too_small too_large : ValueError

-- the loop over the options
is_option : List Text → Text → Bool
is_option options s = any (str_eq s) options

-- enumValue.Set
unfoldable pub enum_set : List Text → Text → Text → Text × Option ValueError
unfolding is_option
enum_set options s target =
    if is_option options s then (s, none) else (target, some (must_be_one_of options s))

-- A value that repeats: the first one that the user gives replaces the default.
pub record Repeated {ℓ} (A : Type ℓ) : Type ℓ where
  pub target : List A
  pub is_set : Bool

unfoldable pub append_value {ℓ} : {A : Type ℓ} → A → Repeated A → Repeated A
append_value a v = record { target = (if v.is_set then v.target else []) ++ a ∷ []; is_set = true }

-- enumsValue.Set
unfoldable pub enums_set : List Text → Text → Repeated Text → Repeated Text × Option ValueError
unfolding is_option
enums_set options s v =
    if is_option options s then (append_value s v, none) else (v, some (must_be_one_of options s))

-- what os.Stat says of a path: nothing, or whether it is a directory
file_check : Text → Option Bool → Option ValueError
file_check s none = some (does_not_exist s)
file_check s (some true) = some (is_a_directory s)
file_check s (some false) = none

dir_check : Text → Option Bool → Option ValueError
dir_check s none = some (does_not_exist s)
dir_check s (some true) = none
dir_check s (some false) = some (not_a_directory s)

module _ (stat : Text → Option Bool) where
  -- `if s != ""` around the checks
  unfoldable pub check_file : Text → Option ValueError
  unfolding file_check
  check_file s = if str_eq s [] then none else file_check s (stat s)

  unfoldable pub check_dir : Text → Option ValueError
  unfolding dir_check
  check_dir s = if str_eq s [] then none else dir_check s (stat s)

  -- existingFileValue.Set
  unfoldable pub existing_file_set : Text → Text → Text × Option ValueError
  existing_file_set s target = elim (check_file s) [ none ↦ (s, none) | some e ↦ (target, some e) ]

  -- existingDirValue.Set
  unfoldable pub existing_dir_set : Text → Text → Text × Option ValueError
  existing_dir_set s target = elim (check_dir s) [ none ↦ (s, none) | some e ↦ (target, some e) ]

  -- existingFilesValue.Set
  unfoldable pub existing_files_set : Text → Repeated Text → Repeated Text × Option ValueError
  existing_files_set s v = elim (check_file s) [
    | none ↦ (append_value s v, none)
    | some e ↦ (v, some e)
  ]

module _ {ℓ} {A : Type ℓ} (parse : Text → Option A) where
  -- urlValue.Set and regexpValue.Set
  unfoldable pub parsed_set : Text → Option A → Option A × Option ValueError
  parsed_set s target = elim (parse s) [
    | none ↦ (target, some (invalid_value s))
    | some a ↦ (some a, none)
  ]

  -- urlListValue.Set
  unfoldable pub url_list_set : Text → Repeated A → Repeated A × Option ValueError
  url_list_set s v = elim (parse s) [
    | none ↦ (v, some (invalid_value s))
    | some a ↦ (append_value a v, none)
  ]

-- A map by its entries, in no order that matters.
abbrev pub StringMap : Type 0
StringMap = List (Text × Text)

pub insert : Text → Text → StringMap → StringMap
insert k v [] = (k, v) ∷ []
insert k v ((j, w) ∷ m) = if str_eq j k then (k, v) ∷ m else (j, w) ∷ insert k v m

pub lookup : Text → StringMap → Option Text
lookup k [] = none
lookup k ((j, w) ∷ m) = if str_eq j k then some w else lookup k m

pub record MapValue : Type 0 where
  pub entries : StringMap
  pub was_set : Bool

-- stringMapSplit.Split(s, 2): at the first `:` or `=`, if there is one
cut_step : ℕ → Option (Text × Text) → Option (Text × Text)
cut_step c none = none
cut_step c (some (k, v)) = some (c ∷ k, v)

pub key_value : Text → Option (Text × Text)
unfolding cut_step
key_value [] = none
key_value (c ∷ s) =
    let rest = cut_step c (key_value s) in if c == b':' || c == b'=' then some ([], s) else rest

put_pair : Text → MapValue → Option (Text × Text) → MapValue × Option ValueError
put_pair s m none = (m, some (expected_key_value s))
put_pair s m (some (k, v)) =
    (record { entries = insert k v (if m.was_set then m.entries else []); was_set = true }, none)

-- stringMapValue.Set
unfoldable pub string_map_set : Text → MapValue → MapValue × Option ValueError
unfolding put_pair
string_map_set s m = put_pair s m (key_value s)

-- internal/util/validators.go, Int64RangeValidator
range_check : ℤ → ℤ → Option ℤ → Option ValueError
range_check low high none = some invalid_int
range_check low high (some iv) =
    if ltb_ℤ iv low then some too_small else if ltb_ℤ high iv then some too_large else none

unfoldable pub int64_range_validator : ℤ → ℤ → Text → Option ValueError
unfolding range_check
int64_range_validator low high v = range_check low high (parse_int v 64)

store : ℤ → Option ValueError → Option ℤ → ℤ × Option ValueError
store target (some e) iv = (target, some e)
store target none none = (target, some invalid_int)
store target none (some iv) = (iv, none)

-- validatedInt64Value.Set; without a validator nothing is checked first
validate : Option (Text → Option ValueError) → Text → Option ValueError
validate none s = none
validate (some check) s = check s

unfoldable pub validated_int64_set :
    Option (Text → Option ValueError) → Text → ℤ → ℤ × Option ValueError
unfolding store validate
validated_int64_set validator s target = store target (validate validator s) (parse_int s 64)
