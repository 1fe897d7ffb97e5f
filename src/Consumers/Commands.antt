-- ===== src/Consumers/Commands.antt =====
-- cli/consumer_command.go: what createAction and editAction do with a configuration. The consumer that is
-- edited, the API level of the meta leader, the difference that package cmp finds, the schema's verdict, the
-- editor and the jsm package's test for a durable consumer are parameters.
pub mod Updates
mod Examples
use natscli.Prelude.{ℕ, Bool, true, not, ◌&&◌, ◌||◌, Option, if◌then◌else◌}
use natscli.Prelude.Int.{ℤ, ltb_ℤ}
use natscli.Dialog.{Refusal, Dialog, pure, refuse, or_refuse, ◌>>=◌, ask_confirmation}
use natscli.Streams.Names.{is_empty}
use natscli.Streams.Edit.{is_nil}
use natscli.Streams.Create.{lift}
use natscli.Streams.Commands.{Modes, file_of}
use natscli.Consumers.{ConsumerConfig, ConsumerCmd, Externals}
use natscli.Consumers.Edit.{copy_and_edit_consumer}
use natscli.Consumers.Level.{check_config_level}
use natscli.Consumers.Create.Config.{prepare_consumer_config}

pub record ConsumerServer : Type 0 where
  pub meta_api_level : Option ℕ
  pub is_durable : ConsumerConfig → Bool
  pub differs : ConsumerConfig → ConsumerConfig → Bool
  pub interactive_edit : ConsumerConfig → Option ConsumerConfig
  pub is_valid : ConsumerConfig → Bool

-- How a command ends that is not refused. The file that is written is empty if nothing is validated.
pub data ConsumerOutcome : Type 0 where
  unchanged differs_only declined checked : ConsumerOutcome
  written : Option ConsumerConfig → ConsumerOutcome
  stored : ConsumerConfig → ConsumerOutcome

abbrev pub without_reserved : Externals → ConsumerConfig → ConsumerConfig
without_reserved ext cfg = record cfg { metadata = ext.filter_server_metadata cfg.metadata }

abbrev pub different : ℤ → ℤ → Bool
different a b = ltb_ℤ a b || ltb_ℤ b a

unfoldable pub edit_of_consumer :
    Externals → ConsumerServer → Modes → ConsumerCmd → ConsumerConfig → Dialog ConsumerConfig
edit_of_consumer ext srv m c t =
    if m.interactive
    then or_refuse (srv.interactive_edit t) Refusal.invalid_input
    else lift (copy_and_edit_consumer ext c t)

-- The server refuses another wait where a backoff says how long to wait.
unfoldable pub check_ack_wait : ConsumerConfig → ConsumerConfig → Dialog (Unit {0})
check_ack_wait t new =
    if not (is_nil new.acks.back_off) && different new.acks.ack_wait t.acks.ack_wait
    then refuse Refusal.invalid_backoff
    else pure tt

unfoldable pub store_consumer : ConsumerServer → ConsumerConfig → Dialog ConsumerOutcome
store_consumer srv cfg =
    if check_config_level srv.meta_api_level cfg
    then pure (stored cfg)
    else refuse Refusal.invalid_input

unfoldable pub confirmed_store : ConsumerServer → Modes → ConsumerConfig → Dialog ConsumerOutcome
confirmed_store srv m cfg = (if m.force then pure true else ask_confirmation) >>= λ ok.
    if not ok then pure declined else store_consumer srv cfg

unfoldable pub apply_consumer_edit :
    ConsumerServer → Modes → ConsumerConfig → ConsumerConfig → Dialog ConsumerOutcome
apply_consumer_edit srv m t new =
    if not (srv.differs t new)
    then pure unchanged
    else if m.dry_run
    then pure differs_only
    else confirmed_store srv m new

unfoldable pub edit_consumer_action :
    Externals → ConsumerServer → Modes → ConsumerCmd → ConsumerConfig → Dialog ConsumerOutcome
edit_consumer_action ext srv m c source =
    if not (srv.is_durable source)
    then refuse Refusal.invalid_durable
    else (edit_of_consumer ext srv m c (without_reserved ext source) >>= λ new.
        check_ack_wait (without_reserved ext source) new >>= λ u.
        apply_consumer_edit srv m (without_reserved ext (without_reserved ext source))
          (without_reserved ext new))

unfoldable pub create_consumer_action :
    Externals → ConsumerServer → Modes → ConsumerCmd → Dialog ConsumerOutcome
create_consumer_action ext srv m c = prepare_consumer_config ext c >>= λ cfg.
    if m.validate_only
    then (if m.no_validate || srv.is_valid cfg then pure checked else refuse Refusal.invalid_input)
    else if not (is_empty m.out_file)
    then (if m.no_validate || srv.is_valid cfg
        then pure (written (file_of m cfg))
        else refuse Refusal.invalid_input)
    else store_consumer srv cfg
