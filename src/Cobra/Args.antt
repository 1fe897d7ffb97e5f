-- ===== src/Cobra/Args.antt =====
-- cli/cobra_args.go: what a command declares of its positional arguments, the validator that is
-- built from it and the choice of a shell completion. `complete` holds which of the two completion
-- functions is attached; what they print is not modelled.
pub mod Accepts
pub mod Completing
mod Examples
use natscli.Prelude.{
  ℕ, suc, ◌+◌, ◌-◌, Bool, true, false, not, ◌&&◌, List, [], ◌∷◌, ◌++◌, Option, none, some, Text,
  codes, str_eq, ltb, leb, ◌==◌, if◌then◌else◌, length, get_elem?, get_or, any,
}

pub data Completer : Type 0 where
  stream_names consumer_names : Completer

pub record ArgMeta : Type 0 where
  pub name : Text
  pub help : Text
  pub type_hint : Text
  pub dflt : Text
  pub required : Bool
  pub cumulative : Bool
  pub enum : List Text
  pub complete : Option Completer

abbrev blank : ArgMeta
blank = record {
  name = [];
  help = [];
  type_hint = [];
  dflt = [];
  required = false;
  cumulative = false;
  enum = [];
  complete = none;
}

-- the well-known names get a completion
attach : ArgMeta → ArgMeta
attach m =
    if str_eq m.name (codes "stream")
    then record m { complete = some stream_names }
    else if str_eq m.name (codes "consumer")
    then record m { complete = some consumer_names }
    else m

default_hint : ArgMeta → ArgMeta
default_hint m = if str_eq m.type_hint [] then record m { type_hint = codes "string" } else m

-- The arguments that a command has after one more is registered.
unfoldable pub register_arg : List ArgMeta → ArgMeta → List ArgMeta
unfolding attach default_hint
register_arg metas m = metas ++ attach (default_hint m) ∷ []

unfoldable pub add_arg : List ArgMeta → Text → Text → Bool → Text → List ArgMeta
unfolding register_arg
add_arg metas name help required type_hint =
    let m = record blank { name = name; help = help; required = required; type_hint = type_hint } in
    register_arg metas m

unfoldable pub add_arg_with_default : List ArgMeta → Text → Text → Text → Text → List ArgMeta
unfolding register_arg
add_arg_with_default metas name help dflt type_hint =
    let m = record blank { name = name; help = help; dflt = dflt; type_hint = type_hint } in
    register_arg metas m

unfoldable pub add_arg_cumulative : List ArgMeta → Text → Text → Bool → Text → List ArgMeta
unfolding register_arg
add_arg_cumulative metas name help required type_hint =
    let m = record blank {
      name = name;
      help = help;
      required = required;
      cumulative = true;
      type_hint = type_hint;
    } in
    register_arg metas m

unfoldable pub add_arg_enum : List ArgMeta → Text → Text → Bool → List Text → List ArgMeta
unfolding register_arg
add_arg_enum metas name help required options =
    let m = record blank {
      name = name;
      help = help;
      required = required;
      type_hint = codes "string";
      enum = options;
    } in
    register_arg metas m

-- What the validator answers; `out_of_range` is a panic of an index.
pub data Verdict : Type 0 where
  accepted : Verdict
  missing : Text → Verdict
  unexpected : Text → Verdict
  not_allowed : Text → List Text → Text → Verdict
  out_of_range : Verdict

-- the loop that counts the required arguments
pub minimum : List ArgMeta → ℕ
minimum [] = 0
minimum (m ∷ ms) = let rest = minimum ms in if m.required then suc rest else rest

pub is_cumulative : List ArgMeta → Bool
is_cumulative = any (λ m. m.cumulative)

-- The last loop, with the arguments from the one at hand on: an argument that is not given, or that
-- has no options, passes.
check_enums : List ArgMeta → List Text → Verdict
check_enums [] args = accepted
check_enums (m ∷ ms) [] = accepted
check_enums (m ∷ ms) (a ∷ args) =
    let rest = check_enums ms args in
    if length m.enum == 0
    then rest
    else if any (str_eq a) m.enum
    then rest
    else not_allowed m.name m.enum a

name_missing : Option ArgMeta → Verdict
name_missing none = out_of_range
name_missing (some m) = missing m.name

name_unexpected : Option Text → Verdict
name_unexpected none = out_of_range
name_unexpected (some a) = unexpected a

-- the function that makeArgsValidator returns
unfoldable pub validate_args : List ArgMeta → List Text → Verdict
unfolding name_missing name_unexpected check_enums
validate_args metas args =
    if ltb (length args) (minimum metas)
    then name_missing (get_elem? metas (length args))
    else if not (is_cumulative metas) && ltb (length metas) (length args)
    then name_unexpected (get_elem? args (length metas))
    else check_enums metas args

unfoldable pub arg_value : List Text → ℕ → Text
arg_value args i = get_or args i []

-- the function that installArgCompletion installs
pub data Completion : Type 0 where
  shell_default : Completion
  names_of : Completer → Completion

is_completable : ArgMeta → Bool
is_completable m = elim m.complete [ none ↦ false | some c ↦ true ]

last_cumulative : List ArgMeta → Bool
last_cumulative [] = false
last_cumulative (m ∷ []) = m.cumulative
last_cumulative (m ∷ n ∷ ms) = last_cumulative (n ∷ ms)

-- a trailing cumulative argument keeps completing every extra value
index_of : List ArgMeta → ℕ → ℕ
unfolding last_cumulative
index_of current idx =
    if ltb 0 (length current) && leb (length current) idx && last_cumulative current
    then length current - 1
    else idx

pub completer_at : Option ArgMeta → Completion
completer_at none = shell_default
completer_at (some m) = elim m.complete [ none ↦ shell_default | some c ↦ names_of c ]

-- without a completable argument nothing is installed, and the shell's default stays
unfoldable pub complete_arg : List ArgMeta → List Text → Completion
unfolding is_completable index_of completer_at
complete_arg metas args =
    if any is_completable metas
    then completer_at (get_elem? metas (index_of metas (length args)))
    else shell_default
