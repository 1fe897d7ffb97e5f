-- ===== src/Select/Forced.antt =====
-- Selections without a question.
use natscli.Prelude.{
  Bool, true, false, List, ◌⊎◌, inl, inr, Option, none, some, ◌≡◌, refl, arith, Text, if◌then◌else◌,
  if_both,
}
use natscli.Dialog.{Terminal, Refusal, Dialog, refuse, or_refuse}
use natscli.Dialog.Quiet.{
  IsQuiet, Gives, >>=-IsQuiet, or_refuse-IsQuiet, if-IsQuiet, >>=-Gives, pure-Gives, refuse-Gives,
  if-Gives,
}
use natscli.Select.{
  Manager, Selected, load_given, matched_names, is_known, pick, choose_stream, loaded_or,
  select_stream,
}

-- A selection is what is loaded by the name that was given, or that name if it is listed.
abbrev pub IsGiven : Manager → Text → Selected → Type 0
IsGiven mgr stream s =
    ((s.is_loaded ≡ true) × (mgr.load_stream stream ≡ some s.name))
    ⊎ ((s.is_loaded ≡ false)
        × (s.name ≡ stream)
        × ((names : List Text) × (mgr.stream_names ≡ some names) × (is_known stream names ≡ true)))

pick-IsQuiet : (names : List Text) → IsQuiet (pick true names)
unfolding pick
pick-IsQuiet names t =
    if_both (λ (r : (Refusal ⊎ Text) × Terminal). r.1 ≡ t) t.is_terminal _ _ (λ e. refl) (λ e. refl)

never :
    (b : Bool) (t : Terminal) (s : Text)
    → ¬ ((if b then refuse Refusal.name_required t else (inl Refusal.no_terminal, t)).0 ≡ inr s)
never true t s h = ground arith
never false t s h = ground arith

forced_pick : (names : List Text) (P : Text → Type 0) → Gives P (pick true names)
unfolding pick
forced_pick names P t s h = absurd (never t.is_terminal t s h)

choose_stream-IsQuiet :
    (mgr : Manager) (stream : Text) (every : Bool) (names : List Text)
    → IsQuiet (choose_stream mgr stream true every names)
unfolding choose_stream
choose_stream-IsQuiet mgr stream every names =
    if-IsQuiet (is_known stream names) _ _ (λ e t. refl)
      (λ e.
        >>=-IsQuiet (pick true (matched_names mgr every names)) _
          (pick-IsQuiet (matched_names mgr every names)) (λ s t. refl))

choose_stream-Gives :
    (mgr : Manager) (stream : Text) (every : Bool) (names : List Text)
    → mgr.stream_names ≡ some names
    → Gives (IsGiven mgr stream) (choose_stream mgr stream true every names)
unfolding choose_stream
choose_stream-Gives mgr stream every names h =
    let P = IsGiven mgr stream in
    if-Gives P (is_known stream names) _ _ (λ e. pure-Gives P _ (inr (refl, refl, (names, h, e))))
      (λ e.
        >>=-Gives (pick true (matched_names mgr every names)) _ (λ s. ⊥) P
          (forced_pick (matched_names mgr every names) (λ s. ⊥))
          (λ s impossible. absurd impossible))

loaded_or-IsQuiet : (o : Option Text) (m : Dialog Selected) → IsQuiet m → IsQuiet (loaded_or o m)
loaded_or-IsQuiet none m h = h
loaded_or-IsQuiet (some name) m h = λ t. refl

loaded_or-Gives :
    (P : Selected → Type 0) (o : Option Text) (m : Dialog Selected)
    → ((name : Text) → o ≡ some name → P (record { name = name; is_loaded = true }))
    → Gives P m
    → Gives P (loaded_or o m)
loaded_or-Gives P none m h k = k
loaded_or-Gives P (some name) m h k = pure-Gives P _ (h name refl)

or_refuse-Gives :
    {A : Type 0} (o : Option A) (e : Refusal) → Gives (λ a. o ≡ some a) (or_refuse o e)
or_refuse-Gives none e = refuse-Gives (λ a. none ≡ some a) e
or_refuse-Gives (some a) e = pure-Gives (λ b. some a ≡ some b) a refl

given_loads :
    (load : Text → Option Text) (s name : Text) → load_given load s ≡ some name → load s ≡ some name
unfolding load_given
given_loads load s name h = ground arith

-- A forced selection of a stream asks nothing, and what it selects is the stream that was named: as it was loaded,
-- or, if it could not be loaded, as it is listed.
pub select_stream_forced :
    (mgr : Manager) (stream : Text) (every : Bool) (t : Terminal)
    → ((select_stream mgr stream true every t).1 ≡ t)
      × ((s : Selected) → (select_stream mgr stream true every t).0 ≡ inr s → IsGiven mgr stream s)
unfolding select_stream
select_stream_forced mgr stream every t = (
  loaded_or-IsQuiet (load_given mgr.load_stream stream) _
      (>>=-IsQuiet (or_refuse mgr.stream_names Refusal.invalid_input) _ (or_refuse-IsQuiet _ _)
        (choose_stream-IsQuiet mgr stream every))
      t,
  loaded_or-Gives (IsGiven mgr stream) (load_given mgr.load_stream stream) _
      (λ name h. inl (refl, given_loads mgr.load_stream stream name h))
      (>>=-Gives (or_refuse mgr.stream_names Refusal.invalid_input) _
        (λ names. mgr.stream_names ≡ some names) (IsGiven mgr stream)
        (or_refuse-Gives mgr.stream_names Refusal.invalid_input)
        (choose_stream-Gives mgr stream every))
      t,
)
