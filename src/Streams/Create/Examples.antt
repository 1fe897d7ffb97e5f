-- ===== src/Streams/Create/Examples.antt =====
-- Streams that are made without a question, and with some.
use natscli.Prelude.{true, false, [], ◌∷◌, inl, inr, none, ◌≡◌, refl, ap, codes, str_eq}
use natscli.Checks.Streams.Agreement.{true-ne-false}
use natscli.Prelude.Int.{pos, negsuc}
use natscli.Util.Decimal.{is_digit, is_letter}
use natscli.Util.ByteSize.{trim_space}
use natscli.Util.Subjects.{split_cli_subjects, is_cli_separator}
use natscli.Duration.{
  parse_duration, find_all, scan, begin, is_number, is_sign, part_value, add_parts, of_parts,
  signed_result, signed_word,
}
use natscli.Dialog.{Terminal, Refusal, ask_one_bytes}
use natscli.Streams.{StreamConfig, StreamCmd}
use natscli.Streams.Names.{
  to_lower, check_repub_transform, discard_policy_from_string, store_type_from_string,
  retention_policy_from_string, re_publish_flags, transform_flags,
}
use natscli.Streams.Samples.{externals, plain, stored, no_limit_flags}
use natscli.Streams.Edit.{int32}
use natscli.Streams.Create.{
  apply_defaults, ask_name, ask_subjects, check_mirror, ask_text, ask_storage, ask_replicas,
  ask_msgs, ask_msgs_per, ask_max_bytes, ask_max_age, ask_max_msg_size, ask_window, ask_limits,
  ask_switches, default_window,
}
use natscli.Streams.Create.Config.{
  prepare_from_flags, prepare_config, ask_for_mirror, ask_for_sources, complete, name_policies,
  settle, created, placement_flags,
}
use natscli.Streams.Create.Defaults.{IsNamed, TakesDefaults, prepare_config-IsQuiet}
use natscli.Streams.Create.Sound.{size_of, IsSound, prepare_from_flags-IsSound}

abbrev defaults : StreamCmd
defaults = record plain { accept_defaults = true; subjects = codes "orders" ∷ [] }

abbrev no_terminal : Terminal
no_terminal = record { is_terminal = false; answers = [] }

defaults-IsNamed : IsNamed defaults
unfolding str_eq
defaults-IsNamed = record { named = refl; fed = refl }

abbrev sized : StreamCmd
sized = record defaults {
  limits = record no_limit_flags {
    max_bytes_limit_string = codes "1K";
    max_bytes_limit = pos 1024;
  };
}

sized-TakesDefaults : TakesDefaults sized
unfolding str_eq
sized-TakesDefaults = record {
  accepts = refl;
  bytes_given = λ e. refl;
  size_given = λ e. absurd (true-ne-false e);
}

prepare_config-IsQuiet_example : (prepare_config externals true sized no_terminal).1 ≡ no_terminal
unfolding str_eq
prepare_config-IsQuiet_example =
    prepare_config-IsQuiet externals true sized (record { named = refl; fed = refl })
      sized-TakesDefaults no_terminal

abbrev made : StreamConfig
made = record stored {
  subjects = codes "orders" ∷ [];
  no_ack = false;
  limits = record {
    max_msgs = negsuc 0;
    max_msgs_per = negsuc 0;
    max_bytes = pos 1024;
    max_age = pos 0;
    max_msg_size = negsuc 0;
    max_consumers = negsuc 0;
    duplicates = pos 120000000000;
    replicas = pos 1;
  };
  switches = record stored.switches { deny_delete = false; allow_msg_ttl = false };
  placement = none;
}

makes : prepare_from_flags externals true sized no_terminal ≡ (inr made, no_terminal)
unfolding prepare_from_flags ask_name ask_subjects check_mirror settle apply_defaults ask_storage
    ask_replicas ask_limits ask_switches name_policies complete ask_for_mirror ask_for_sources
    created ask_text ask_msgs ask_msgs_per ask_max_bytes ask_max_age ask_max_msg_size ask_window
    default_window placement_flags int32 str_eq to_lower store_type_from_string
    retention_policy_from_string discard_policy_from_string check_repub_transform re_publish_flags
    transform_flags parse_duration find_all scan begin is_number is_sign part_value add_parts
    of_parts signed_result signed_word trim_space is_letter is_digit split_cli_subjects
    is_cli_separator
makes = refl

prepare_from_flags-IsSound_example : IsSound (size_of sized) made
prepare_from_flags-IsSound_example =
    prepare_from_flags-IsSound externals true sized no_terminal made (ap (λ r. r.0) makes)

-- a size of 0 is asked for in spite of the defaults
asks :
    (prepare_config externals false
      (record defaults { limits = record no_limit_flags { max_bytes_limit_string = codes "0" } })
      no_terminal).0
    ≡ inl Refusal.no_terminal
unfolding prepare_config prepare_from_flags ask_name ask_subjects check_mirror settle apply_defaults
    ask_storage ask_replicas ask_limits ask_text ask_msgs ask_msgs_per ask_max_bytes ask_one_bytes
    str_eq store_type_from_string split_cli_subjects is_cli_separator
asks = refl
