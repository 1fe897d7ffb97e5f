-- ===== src/Cobra/Values/Single.antt =====
-- Flags that hold one value: an option, a number in a range, a map of keys.
use natscli.Prelude.{
  true, not, ◌||◌, List, [], ◌∷◌, ◌++◌, ◌≢◌, ◌↔◌, Option, none, some, ◌≡◌, refl, arith, Text,
  str_eq_iff, str_eq, ◌==◌, if◌then◌else◌, any, all,
}
use natscli.Prelude.Int.{ℤ, ◌≤ℤ◌}
use natscli.Util.Decimal.{parse_int}
use natscli.Cobra.Values.{
  ValueError, enum_set, int64_range_validator, range_check, store, validated_int64_set, StringMap,
  MapValue, insert, lookup, key_value, string_map_set,
}

-- `Set` called for one text after the other, on whatever the call before left.
abbrev pub run_all {ℓ} : {A : Type ℓ} → (Text → A → A × Option ValueError) → List Text → A → A
run_all set_one [] a = a
run_all set_one (s ∷ ss) a = run_all set_one ss (set_one s a).0

enum_set_option :
    (options : List Text) (s target : Text)
    → any (str_eq target) options ≡ true
    → any (str_eq (enum_set options s target).0) options ≡ true
unfolding enum_set
enum_set_option options s target h = ground arith

-- A flag whose default is one of its options holds one of its options, whatever a user gives it.
enum_set_all :
    (options ss : List Text) (dflt : Text)
    → any (str_eq dflt) options ≡ true
    → any (str_eq (run_all (enum_set options) ss dflt)) options ≡ true
enum_set_all options [] dflt h = h
enum_set_all options (s ∷ ss) dflt h =
    enum_set_all options ss (enum_set options s dflt).0 (enum_set_option options s dflt h)

store_iff :
    (low high : ℤ) (o : Option ℤ) (target iv : ℤ)
    → ((store target (range_check low high o) o ≡ (iv, none))
        ↔ ((o ≡ some iv) × (low ≤ℤ iv) × (iv ≤ℤ high)))
      × ((store target (range_check low high o) o).1 ≢ none
          → (store target (range_check low high o) o).0 ≡ target)
unfolding store range_check
store_iff low high none target iv = ((λ h. ground arith, λ h. ground arith), λ h. refl)
store_iff low high (some n) target iv = ((λ h. ground arith, λ h. ground arith), λ h. ground arith)

-- A flag with a range: a text is taken exactly if it is a number in the range, and then the flag
-- holds that number; else there is an error and the flag holds what it held.
validated_int64_set_range :
    (low high : ℤ) (s : Text) (target iv : ℤ)
    → ((validated_int64_set (some (int64_range_validator low high)) s target ≡ (iv, none))
        ↔ ((parse_int s 64 ≡ some iv) × (low ≤ℤ iv) × (iv ≤ℤ high)))
      × ((validated_int64_set (some (int64_range_validator low high)) s target).1 ≢ none
          → (validated_int64_set (some (int64_range_validator low high)) s target).0 ≡ target)
unfolding validated_int64_set int64_range_validator
validated_int64_set_range low high s target iv = store_iff low high (parse_int s 64) target iv

lookup-insert :
    (k j v : Text) (m : StringMap)
    → lookup j (insert k v m) ≡ (if str_eq k j then some v else lookup j m)
unfolding lookup insert
lookup-insert k j v [] = refl
lookup-insert k j v ((i, w) ∷ m) =
    ground (arith, str_eq_iff k j, str_eq_iff i k, str_eq_iff i j, lookup-insert k j v m)

key_value_lem :
    (k v : Text)
    → all (λ c. not (c == b':' || c == b'=')) k ≡ true
    → key_value (k ++ b'=' ∷ v) ≡ some (k, v)
unfolding key_value
key_value_lem [] v h = refl
key_value_lem (c ∷ k) v h = ground (arith, key_value_lem k v)

-- A text KEY=VALUE, whose key holds neither `:` nor `=`, sets that key and no other; the first one drops the default map.
pub string_map_set_lem :
    (k v j : Text) (m : MapValue)
    → all (λ c. not (c == b':' || c == b'=')) k ≡ true
    → ((string_map_set (k ++ b'=' ∷ v) m).1 ≡ none)
      × (lookup j (string_map_set (k ++ b'=' ∷ v) m).0.entries
          ≡ (if str_eq k j then some v else lookup j (if m.was_set then m.entries else [])))
unfolding string_map_set
string_map_set_lem k v j m h =
    rw (key_value_lem k v h) (refl, lookup-insert k j v (if m.was_set then m.entries else []))

-- A flag whose default is one of its options holds one of its options, whatever a user gives it. A flag
-- with a range takes a text exactly if it is a number in the range, and then holds that number; else
-- there is an error and the flag holds what it held.
pub single_set_lem :
    (options ss : List Text) (dflt : Text) (low high : ℤ) (s : Text) (target iv : ℤ)
    → any (str_eq dflt) options ≡ true
    → (any (str_eq (run_all (enum_set options) ss dflt)) options ≡ true)
      × ((validated_int64_set (some (int64_range_validator low high)) s target ≡ (iv, none))
          ↔ ((parse_int s 64 ≡ some iv) × (low ≤ℤ iv) × (iv ≤ℤ high)))
      × ((validated_int64_set (some (int64_range_validator low high)) s target).1 ≢ none
          → (validated_int64_set (some (int64_range_validator low high)) s target).0 ≡ target)
single_set_lem options ss dflt low high s target iv h =
    let (range, kept) = validated_int64_set_range low high s target iv in
    (enum_set_all options ss dflt h, range, kept)
