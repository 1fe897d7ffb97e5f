-- ===== src/Streams/Commands.antt =====
-- cli/stream_command.go: what addAction, editAction and cpAction do with a configuration. The stream that is
-- edited, the API level of the meta leader, the difference that package cmp finds, the schema's verdict, the
-- editor and the jsm package's test of a bucket's name are parameters.
pub mod Updates
mod Examples
use natscli.Prelude.{
  ℕ, Bool, true, false, not, ◌&&◌, ◌||◌, Option, none, some, Text, codes, str_eq, leb,
  if◌then◌else◌, any,
}
use natscli.Dialog.{Refusal, Dialog, pure, refuse, or_refuse, ◌>>=◌, ask_confirmation}
use natscli.Streams.{StreamConfig, StreamCmd, Externals}
use natscli.Streams.Names.{is_empty}
use natscli.Streams.Edit.{copy_and_edit_stream}
use natscli.Streams.Create.{lift}
use natscli.Streams.Create.Config.{prepare_config}

pub record Server : Type 0 where
  pub meta_api_level : Option ℕ
  pub max_bytes_required : Bool
  pub differs : StreamConfig → StreamConfig → Bool
  pub is_kv_bucket_stream : Text → Bool
  pub interactive_edit : StreamConfig → Option StreamConfig
  pub is_valid : StreamConfig → Bool

pub record Modes : Type 0 where
  pub interactive : Bool
  pub dry_run : Bool
  pub force : Bool
  pub validate_only : Bool
  pub out_file : Text
  pub no_validate : Bool

-- How a command ends that is not refused: nothing is done, as the configurations do not differ, the
-- difference is only shown, or the user declines; a configuration is checked; a file is written, which is
-- empty if it is not validated; or the server gets it.
pub data Outcome : Type 0 where
  unchanged differs_only declined checked : Outcome
  written : Option StreamConfig → Outcome
  updated created : StreamConfig → Outcome

-- iu.RequireAPILevel
unfoldable pub require_api_level : Server → ℕ → Bool
require_api_level srv n = elim srv.meta_api_level [ none ↦ false | some level ↦ leb n level ]

unfoldable pub check_compatibility : Server → StreamConfig → Bool
check_compatibility srv cfg =
    (not cfg.switches.allow_atomic_publish || require_api_level srv 2)
    && (not cfg.switches.allow_msg_counter || require_api_level srv 2)

-- the guard of the commands, then the check
abbrev pub compatible : Server → StreamConfig → Bool
compatible srv cfg =
    not (cfg.switches.allow_atomic_publish || cfg.switches.allow_msg_counter)
    || check_compatibility srv cfg

unfoldable pub kv_abstraction_warn : Dialog (Unit {0})
kv_abstraction_warn = ask_confirmation >>= λ ans. if ans then pure tt else refuse Refusal.no_answer

unfoldable pub validate_cfg : Server → Modes → StreamConfig → Bool
validate_cfg srv m cfg =
    m.no_validate
    || (not (not cfg.no_ack && any (λ s. str_eq s (codes ">")) cfg.subjects) && srv.is_valid cfg)

-- The text that validateCfg gives, none where it does not validate
unfoldable pub file_of {ℓ} : {A : Type ℓ} → Modes → A → Option A
file_of m cfg = if m.no_validate then none else some cfg

-- with a confirmation, unless it is forced
unfoldable pub confirmed_update : Server → Modes → StreamConfig → Dialog Outcome
confirmed_update srv m cfg = (if m.force then pure true else ask_confirmation) >>= λ ok.
    if not ok
    then pure declined
    else if compatible srv cfg
    then pure (updated cfg)
    else refuse Refusal.invalid_input

unfoldable pub apply_edit : Server → Modes → Text → StreamConfig → StreamConfig → Dialog Outcome
apply_edit srv m stream input cfg =
    if not (srv.differs input cfg)
    then pure unchanged
    else if m.dry_run
    then pure differs_only
    else ((if srv.is_kv_bucket_stream stream then kv_abstraction_warn else pure tt) >>= λ u.
        confirmed_update srv m cfg)

-- the source's configuration without the server's metadata
unfoldable pub edit_input : Externals → StreamConfig → StreamConfig
edit_input ext source = record source { metadata = ext.filter_server_metadata source.metadata }

unfoldable pub edit_of : Externals → Server → Modes → StreamCmd → StreamConfig → Dialog StreamConfig
edit_of ext srv m c input =
    if m.interactive
    then or_refuse (srv.interactive_edit input) Refusal.invalid_input
    else lift (copy_and_edit_stream ext c input)

unfoldable pub edit_action : Externals → Server → Modes → StreamCmd → StreamConfig → Dialog Outcome
edit_action ext srv m c source = edit_of ext srv m c (edit_input ext source) >>= λ cfg.
    apply_edit srv m c.stream (edit_input ext source) cfg

unfoldable pub cp_action : Externals → StreamCmd → Text → StreamConfig → Dialog Outcome
cp_action ext c destination source =
    if str_eq c.stream destination
    then refuse Refusal.invalid_input
    else (lift (copy_and_edit_stream ext c source) >>= λ cfg.
        pure (created (record cfg { name = destination })))

unfoldable pub add_action : Externals → Server → Modes → StreamCmd → Dialog Outcome
add_action ext srv m c = prepare_config ext srv.max_bytes_required c >>= λ cfg.
    if m.validate_only
    then (if validate_cfg srv m cfg then pure checked else refuse Refusal.invalid_input)
    else if not (is_empty m.out_file)
    then (if validate_cfg srv m cfg
        then pure (written (file_of m cfg))
        else refuse Refusal.invalid_input)
    else if compatible srv cfg
    then pure (created cfg)
    else refuse Refusal.invalid_input
