-- ===== src/Cobra/Values/Cumulative.antt =====
-- Flags that repeat: the values that were accepted, in order, replace the default.
use natscli.Prelude.{
  Bool, List, [], ◌∷◌, ◌++◌, append_assoc, ◌≢◌, inl, inr, Option, none, some, ◌≡◌, refl, ap, ◌∙◌,
  arith, Text, str_eq, if◌then◌else◌, Option-cases, any,
}
use natscli.Cobra.Values.{
  ValueError, Repeated, append_value, enums_set, check_file, existing_files_set, url_list_set,
}

-- `Set` called for one text after the other, on whatever the call before left.
abbrev pub set_all {ℓ} :
    {A : Type ℓ}
    → (Text → Repeated A → Repeated A × Option ValueError)
    → List Text
    → Repeated A
    → Repeated A
set_all set_one [] v = v
set_all set_one (s ∷ ss) v = set_all set_one ss (set_one s v).0

abbrev accepted_step {ℓ} : {A : Type ℓ} → Option A → List A → List A
accepted_step none rest = rest
accepted_step (some a) rest = a ∷ rest

-- The values of the texts that are accepted, in order.
abbrev pub accepted_of {ℓ} : {A : Type ℓ} → (Text → Option A) → List Text → List A
accepted_of accept [] = []
accepted_of accept (s ∷ ss) = accepted_step (accept s) (accepted_of accept ss)

-- The contract of a repeated flag: a text that is accepted is appended, with no error, and any other
-- leaves the value as it is, with an error.
pub record Repeats {ℓ} {A : Type ℓ} (set_one : Text → Repeated A → Repeated A × Option ValueError)
    (accept : Text → Option A) : Type ℓ where
  pub takes :
      (s : Text) (a : A) (v : Repeated A)
      → accept s ≡ some a
      → set_one s v ≡ (append_value a v, none)
  pub refuses :
      (s : Text) (v : Repeated A)
      → accept s ≡ none
      → ((set_one s v).0 ≡ v) × ((set_one s v).1 ≢ none)

-- What the flag holds, by what it held before and what is accepted.
abbrev pub result {ℓ} : {A : Type ℓ} → Repeated A → List A → List A
result v [] = v.target
result v (a ∷ rest) = (if v.is_set then v.target else []) ++ a ∷ rest

result-append_value {ℓ} :
    {A : Type ℓ} (a : A) (v : Repeated A) (rest : List A)
    → result (append_value a v) rest ≡ result v (a ∷ rest)
unfolding append_value
result-append_value a v [] = refl
result-append_value a v (b ∷ rest) = append_assoc _ (a ∷ []) (b ∷ rest)

module _ {ℓ} {A : Type ℓ} {set_one : Text → Repeated A → Repeated A × Option ValueError}
    {accept : Text → Option A} (r : Repeats set_one accept) where
  Repeats-set_all :
      (ss : List Text) (v : Repeated A)
      → (set_all set_one ss v).target ≡ result v (accepted_of accept ss)
  Repeats-set_all [] v = refl
  Repeats-set_all (s ∷ ss) v = elim (Option-cases (accept s)) [
    | inl e ↦
        rw e (ap (λ w. (set_all set_one ss w).target) (r.refuses s v e).0 ∙ Repeats-set_all ss v)
    | inr (a, e) ↦ rw e (
        ap (λ w. (set_all set_one ss w.0).target) (r.takes s a v e)
        ∙ Repeats-set_all ss (append_value a v)
        ∙ result-append_value a v (accepted_of accept ss))
  ]

abbrev pub option_of : List Text → Text → Option Text
option_of options s = if any (str_eq s) options then some s else none

enums_set-Repeats : (options : List Text) → Repeats (enums_set options) (option_of options)
enums_set-Repeats options = record {
  takes = λ s a v e. unfold enums_set in ground arith;
  refuses = λ s v e. unfold enums_set in (ground arith, ground arith);
}

abbrev pub file_of : (Text → Option Bool) → Text → Option Text
file_of stat s = elim (check_file stat s) [ none ↦ some s | some e ↦ none ]

existing_files_set-Repeats :
    (stat : Text → Option Bool) → Repeats (existing_files_set stat) (file_of stat)
existing_files_set-Repeats stat = record {
  takes = λ s a v e. unfold existing_files_set in ground arith;
  refuses = λ s v e. unfold existing_files_set in (ground arith, ground arith);
}

url_list_set-Repeats {ℓ} :
    {A : Type ℓ} (parse : Text → Option A) → Repeats (url_list_set parse) parse
url_list_set-Repeats parse = record {
  takes = λ s a v e. unfold url_list_set in ground arith;
  refuses = λ s v e. unfold url_list_set in (ground arith, ground arith);
}

-- Whatever texts a user gives a flag that takes several of a set of options, it ends up with those
-- that are options, in order: they replace the default if no flag was given before, stand behind
-- the values of earlier flags if one was, and the value stays if none is an option.
enums_set_all :
    (options ss : List Text) (v : Repeated Text)
    → (set_all (enums_set options) ss v).target ≡ result v (accepted_of (option_of options) ss)
enums_set_all options = Repeats-set_all (enums_set-Repeats options)

-- The same of a flag that takes files: it ends up with the texts that are empty or name a file
-- that exists and is no directory.
existing_files_set_all :
    (stat : Text → Option Bool) (ss : List Text) (v : Repeated Text)
    → (set_all (existing_files_set stat) ss v).target ≡ result v (accepted_of (file_of stat) ss)
existing_files_set_all stat = Repeats-set_all (existing_files_set-Repeats stat)

-- The same of a flag that takes URLs: it ends up with those that parse.
url_list_set_all {ℓ} :
    {A : Type ℓ} (parse : Text → Option A) (ss : List Text) (v : Repeated A)
    → (set_all (url_list_set parse) ss v).target ≡ result v (accepted_of parse ss)
url_list_set_all parse = Repeats-set_all (url_list_set-Repeats parse)

-- Whatever texts a user gives a flag that repeats, it ends up with those that are accepted, in order: they
-- replace the default if no flag was given before, stand behind the values of earlier flags if one was,
-- and the value stays if none is accepted. What is accepted is an option, a text that is empty or names a
-- file that exists and is no directory, or a URL that parses.
pub repeated_set_all {ℓ} :
    {A : Type ℓ} (options : List Text) (stat : Text → Option Bool) (parse : Text → Option A)
    (ss : List Text) (v : Repeated Text) (w : Repeated A)
    → ((set_all (enums_set options) ss v).target ≡ result v (accepted_of (option_of options) ss))
      × ((set_all (existing_files_set stat) ss v).target ≡ result v (accepted_of (file_of stat) ss))
      × ((set_all (url_list_set parse) ss w).target ≡ result w (accepted_of parse ss))
repeated_set_all options stat parse ss v w =
    (enums_set_all options ss v, existing_files_set_all stat ss v, url_list_set_all parse ss w)
