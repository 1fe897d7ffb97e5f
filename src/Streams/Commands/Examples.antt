-- ===== src/Streams/Commands/Examples.antt =====
-- An edit that is forced.
use natscli.Prelude.{true, false, not, ◌||◌, [], inr, none, some, ◌≡◌, refl, str_eq}
use natscli.Dialog.{Terminal}
use natscli.Streams.{StreamConfig}
use natscli.Streams.Samples.{externals, plain, stored}
use natscli.Streams.Edit.Unset.{copy_and_edit_stream_unset}
use natscli.Streams.Edit.Samples.{plain-NoFlags}
use natscli.Streams.Commands.{
  Server, Modes, updated, confirmed_update, apply_edit, edit_input, edit_of, edit_action,
}
use natscli.Streams.Commands.Updates.{IsUpdate, edit_action-Changes}

abbrev server : Server
server = record {
  meta_api_level = some 1;
  max_bytes_required = false;
  differs = λ a b. not a.no_ack || b.no_ack || true;
  is_kv_bucket_stream = λ s. false;
  interactive_edit = λ cfg. none;
  is_valid = λ cfg. true;
}

abbrev forced : Modes
forced = record {
  interactive = false;
  dry_run = false;
  force = true;
  validate_only = false;
  out_file = [];
  no_validate = false;
}

abbrev closed : Terminal
closed = record { is_terminal = false; answers = [] }

abbrev acknowledging : StreamConfig
acknowledging = record stored { no_ack = false }

updates : (edit_action externals server forced plain stored closed).0 ≡ inr (updated acknowledging)
unfolding edit_action edit_of apply_edit confirmed_update edit_input str_eq
updates = rw (copy_and_edit_stream_unset plain stored plain-NoFlags refl externals) refl

edit_action-Changes_example : IsUpdate externals server forced plain stored acknowledging
unfolding edit_input
edit_action-Changes_example =
    edit_action-Changes externals server forced plain stored closed (updated acknowledging) updates
