-- ===== src/Streams/Sources/Examples.antt =====
-- A source may start at a sequence and at a time, a mirror may not.
use natscli.Prelude.{true, false, List, [], ◌∷◌, ◌++◌, inr, some, ◌≡◌, refl, codes, str_eq}
use natscli.Prelude.Int.{pos}
use natscli.Util.Decimal.{parse_int}
use natscli.Dialog.{Terminal, typed, confirmed, Answer, ask_one, ask_one_int, ask_confirmation}
use natscli.Streams.{StreamSource, Externals}
use natscli.Streams.Samples.{externals}
use natscli.Streams.Sources.{
  named_source, ask_mirror, ask_source, ask_details, ask_mirror_start, ask_source_start,
  ask_start_time, ask_external, ask_transforms, uint64,
}
use natscli.Streams.Sources.Starts.{answering, IsAnswered, ask_mirror_lem}

-- a start at sequence 5, with a time for whoever asks, then a transform and no other account
abbrev said : List Answer → Terminal
said time = record {
  is_terminal = true;
  answers =
      confirmed false ∷ confirmed true ∷ typed (codes "5") ∷ time
      ++ confirmed true
        ∷ typed (codes "a.>")
        ∷ typed (codes "b.>")
        ∷ typed []
        ∷ confirmed false
        ∷ confirmed false
        ∷ [];
}

abbrev clock : Externals
clock = record externals { time_of = λ s. some (pos 1000) }

abbrev at_five : StreamSource
at_five = record (named_source (codes "S")) {
  opt_start_seq = 5;
  subject_transforms = record { source = codes "a.>"; destination = codes "b.>" } ∷ [];
}

mirrors : (ask_mirror clock false (codes "S") (said [])).0 ≡ inr at_five
unfolding ask_mirror ask_details ask_mirror_start ask_external ask_transforms uint64 ask_one
    ask_one_int ask_confirmation parse_int
mirrors = refl

two_starts :
    (ask_source clock false (codes "S") (said (typed (codes "2024:01:01 00:00:00") ∷ []))).0
    ≡ inr (record at_five { opt_start_time = some (pos 1000) })
unfolding ask_source ask_details ask_source_start ask_start_time ask_external ask_transforms uint64
    ask_one ask_one_int ask_confirmation parse_int str_eq
two_starts = refl

-- what follows the answers that a start is to be described
abbrev described : List Answer
described =
    typed (codes "5")
    ∷ confirmed true
    ∷ typed (codes "a.>")
    ∷ typed (codes "b.>")
    ∷ typed []
    ∷ confirmed false
    ∷ confirmed false
    ∷ []

abbrev later : List Answer
later =
    confirmed true
    ∷ typed (codes "a.>")
    ∷ typed (codes "b.>")
    ∷ typed []
    ∷ confirmed false
    ∷ confirmed false
    ∷ []

ask_mirror_lem_example : IsAnswered clock (answering later) (pos 5) at_five
unfolding ask_one_int ask_one parse_int
ask_mirror_lem_example =
    (ask_mirror_lem clock false (codes "S") (said []) at_five mirrors).2 described (pos 5)
      (answering later) refl refl refl
