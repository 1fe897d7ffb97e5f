-- ===== src/Select/Examples.antt =====
-- A stream that is listed and cannot be loaded.
use natscli.Prelude.{true, false, [], ◌∷◌, inr, none, some, ◌≡◌, refl, codes, str_eq}
use natscli.Dialog.{Terminal}
use natscli.Select.{Manager, Selected, load_given, choose_stream, select_stream}
use natscli.Select.Forced.{IsGiven, select_stream_forced}

abbrev offline : Manager
offline = record {
  load_stream = λ s. none;
  stream_names = some (codes "A" ∷ codes "B" ∷ []);
  is_internal_stream = λ s. false;
  load_consumer = λ s c. none;
  consumer_names = λ s. none;
}

abbrev closed : Terminal
closed = record { is_terminal = false; answers = [] }

abbrev selected : Selected
selected = record { name = codes "B"; is_loaded = false }

selects : (select_stream offline (codes "B") true false closed).0 ≡ inr selected
unfolding select_stream load_given choose_stream str_eq
selects = refl

select_stream_forced_example : IsGiven offline (codes "B") selected
select_stream_forced_example =
    (select_stream_forced offline (codes "B") false closed).1 selected selects
