-- ===== src/Select.antt =====
-- cli/util.go, selectStream and selectConsumer: which stream and which consumer a command is about. What jsm
-- loads and lists is a parameter. A stream that is known but was not loaded has no handle.
pub mod Forced
mod Examples
use natscli.Prelude.{
  Bool, true, false, not, ◌||◌, List, [], ◌∷◌, inl, Option, none, some, Text, str_eq, if◌then◌else◌,
  any,
}
use natscli.Dialog.{Refusal, Dialog, pure, refuse, or_refuse, ◌>>=◌, ask_one}

-- LoadStream and LoadConsumer give the name of what they load.
pub record Manager : Type 0 where
  pub load_stream : Text → Option Text
  pub stream_names : Option (List Text)
  pub is_internal_stream : Text → Bool
  pub load_consumer : Text → Text → Option Text
  pub consumer_names : Text → Option (List Text)

pub record Selected : Type 0 where
  pub name : Text
  pub is_loaded : Bool

abbrev pub is_empty_text : Text → Bool
is_empty_text s = str_eq s []

-- a name that is given, as it is loaded
unfoldable pub load_given : (Text → Option Text) → Text → Option Text
load_given load s = if is_empty_text s then none else load s

-- the names that are offered
unfoldable pub matched_names : Manager → Bool → List Text → List Text
matched_names mgr every [] = []
matched_names mgr every (s ∷ names) =
    let rest = matched_names mgr every names in
    if every || not (mgr.is_internal_stream s) then s ∷ rest else rest

abbrev pub is_known : Text → List Text → Bool
is_known s names = any (λ n. str_eq n s) names

abbrev pub when_terminal {ℓ} : {A : Type ℓ} → Dialog A → Dialog A
when_terminal m t = if t.is_terminal then m t else (inl Refusal.no_terminal, t)

unfoldable pub pick : Bool → List Text → Dialog Text
pick forced names = when_terminal (
    if forced
    then refuse Refusal.name_required
    else elim names [ [] ↦ refuse Refusal.name_required | n ∷ ns ↦ ask_one ])

unfoldable pub choose_stream : Manager → Text → Bool → Bool → List Text → Dialog Selected
unfolding pick matched_names
choose_stream mgr stream forced every names =
    if is_known stream names
    then pure (record { name = stream; is_loaded = false })
    else (pick forced (matched_names mgr every names) >>= λ s.
        pure (record { name = s; is_loaded = false }))

abbrev pub loaded_or : Option Text → Dialog Selected → Dialog Selected
loaded_or (some name) m = pure (record { name = name; is_loaded = true })
loaded_or none m = m

unfoldable pub select_stream : Manager → Text → Bool → Bool → Dialog Selected
select_stream mgr stream forced every = loaded_or (load_given mgr.load_stream stream) (
    or_refuse mgr.stream_names Refusal.invalid_input >>= λ names.
    choose_stream mgr stream forced every names)

-- the consumer that is picked is loaded
choose_consumer : Manager → Text → List Text → Dialog Selected
choose_consumer mgr stream [] = refuse Refusal.name_required
choose_consumer mgr stream (n ∷ ns) = ask_one >>= λ s.
    or_refuse (mgr.load_consumer stream s) Refusal.invalid_input >>= λ name.
    pure (record { name = name; is_loaded = true })

unfoldable pub select_consumer : Manager → Text → Text → Bool → Dialog Selected
unfolding choose_consumer
select_consumer mgr stream consumer forced =
    loaded_or (load_given (mgr.load_consumer stream) consumer) (
      if forced
      then refuse Refusal.name_required
      else when_terminal (
          or_refuse (mgr.consumer_names stream) Refusal.invalid_input >>= λ names.
          choose_consumer mgr stream names))
