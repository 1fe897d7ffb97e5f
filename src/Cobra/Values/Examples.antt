-- ===== src/Cobra/Values/Examples.antt =====
-- Runs of the flag values.
use natscli.Prelude.{
  Bool, true, false, List, [], ◌∷◌, ◌++◌, ◌≢◌, ◌↔◌, Option, none, some, ◌≡◌, refl, Text, codes,
  str_eq, if◌then◌else◌, any,
}
use natscli.Prelude.Int.{pos, ◌≤ℤ◌}
use natscli.Util.Decimal.{parse_int}
use natscli.Cobra.Values.{
  Repeated, append_value, enum_set, enums_set, existing_files_set, url_list_set, MapValue, lookup,
  string_map_set, int64_range_validator, validated_int64_set,
}
use natscli.Cobra.Values.Cumulative.{
  set_all, accepted_of, result, option_of, file_of, repeated_set_all,
}
use natscli.Cobra.Values.Single.{run_all, single_set_lem, string_map_set_lem}

abbrev options : List Text
options = codes "all" ∷ codes "none" ∷ []

abbrev fresh : Repeated Text
fresh = record { target = codes "dflt" ∷ []; is_set = false }

abbrev given : List Text
given = codes "none" ∷ codes "some" ∷ codes "all" ∷ []

replaced : (set_all (enums_set options) given fresh).target ≡ codes "none" ∷ codes "all" ∷ []
unfolding enums_set append_value str_eq
replaced = refl

abbrev no_files : Text → Option Bool
no_files s = if str_eq s (codes "f") then some false else none

abbrev parsed : Text → Option Text
parsed s = if str_eq s [] then none else some s

repeated_set_all_run :
    ((set_all (enums_set options) given fresh).target
      ≡ result fresh (accepted_of (option_of options) given))
    × ((set_all (existing_files_set no_files) given fresh).target
        ≡ result fresh (accepted_of (file_of no_files) given))
    × ((set_all (url_list_set parsed) given fresh).target ≡ result fresh (accepted_of parsed given))
repeated_set_all_run = repeated_set_all options no_files parsed given fresh fresh

all_is_option : any (str_eq (codes "all")) options ≡ true
unfolding str_eq
all_is_option = refl

single_set_example :
    (any (str_eq (run_all (enum_set options) given (codes "all"))) options ≡ true)
    × ((validated_int64_set (some (int64_range_validator (pos 1) (pos 9))) (codes "7") (pos 3)
          ≡ (pos 7, none))
        ↔ ((parse_int (codes "7") 64 ≡ some (pos 7)) × (pos 1 ≤ℤ pos 7) × (pos 7 ≤ℤ pos 9)))
    × ((validated_int64_set (some (int64_range_validator (pos 1) (pos 9))) (codes "7") (pos 3)).1
          ≢ none
        → (validated_int64_set (some (int64_range_validator (pos 1) (pos 9))) (codes "7") (pos 3)).0
          ≡ pos 3)
single_set_example =
    single_set_lem options given (codes "all") (pos 1) (pos 9) (codes "7") (pos 3) (pos 7)
      all_is_option

abbrev no_entries : MapValue
no_entries = record { entries = (codes "z", codes "0") ∷ []; was_set = false }

string_map_set_run :
    ((string_map_set (codes "k" ++ b'=' ∷ codes "v") no_entries).1 ≡ none)
    × (lookup (codes "z") (string_map_set (codes "k" ++ b'=' ∷ codes "v") no_entries).0.entries
        ≡ (if str_eq (codes "k") (codes "z") then some (codes "v") else lookup (codes "z") []))
string_map_set_run = string_map_set_lem (codes "k") (codes "v") (codes "z") no_entries refl
