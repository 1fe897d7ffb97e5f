-- ===== src/Streams/Edit/Examples.antt =====
-- Edits of a stream that does not acknowledge.
use natscli.Prelude.{true, false, [], ◌∷◌, inr, none, ◌≡◌, refl, codes, str_eq}
use natscli.Prelude.Int.{pos}
use natscli.Streams.{StreamConfig, StreamCmd}
use natscli.Streams.Samples.{externals, plain, stored, no_limit_flags}
use natscli.Streams.Names.{
  to_lower, check_repub_transform, discard_policy_from_string, re_publish_flags, transform_flags,
}
use natscli.Util.Decimal.{is_digit, is_letter}
use natscli.Util.ByteSize.{trim_space}
use natscli.Util.Subjects.{split_cli_subjects}
use natscli.Duration.{
  parse_duration, find_all, scan, begin, is_number, is_sign, part_value, add_parts, of_parts,
  signed_result, signed_word,
}
use natscli.Streams.Edit.{
  copy_and_edit_stream, checked_edit, edit_flags, edit_policies, edit_limits, edit_switches,
  edit_placement, edit_compression, edited, int32,
}
use natscli.Streams.Edit.Samples.{plain-NoFlags}
use natscli.Streams.Edit.Unset.{copy_and_edit_stream_unset}
use natscli.Streams.Edit.Repeated.{copy_and_edit_stream_again}
use natscli.Streams.Edit.Accepted.{Acceptable, copy_and_edit_stream_iff}

-- the stream did not acknowledge, and does now
copy_and_edit_stream_unset_example :
    copy_and_edit_stream externals plain stored ≡ inr (record stored { no_ack = false })
unfolding str_eq
copy_and_edit_stream_unset_example =
    copy_and_edit_stream_unset plain stored plain-NoFlags refl externals

abbrev flags : StreamCmd
flags = record plain {
  ack = false;
  subjects = codes "a,b" ∷ [];
  limits = record no_limit_flags { max_msg_size = pos 1024; max_age_limit = codes "1h" };
  policies = record { discard_policy = codes "NEW"; storage = []; retention_policy_s = [] };
  placement_cluster = record { value = []; is_set = true };
}

abbrev result : StreamConfig
result = record stored {
  subjects = split_cli_subjects (codes "a,b" ∷ []);
  limits = record stored.limits { max_msg_size = pos 1024; max_age = pos 3600000000000 };
  policies = record stored.policies { discard = natscli.Streams.Discard.discard_new };
  placement = none;
}

edits : copy_and_edit_stream externals flags stored ≡ inr result
unfolding copy_and_edit_stream checked_edit check_repub_transform edit_policies edit_limits
    edit_compression edited edit_placement edit_switches str_eq to_lower discard_policy_from_string
    re_publish_flags transform_flags edit_flags int32 parse_duration find_all scan begin is_number
    is_sign part_value add_parts of_parts signed_result signed_word trim_space is_letter is_digit
edits = refl

copy_and_edit_stream_again_example : copy_and_edit_stream externals flags result ≡ inr result
copy_and_edit_stream_again_example = copy_and_edit_stream_again externals flags stored result edits

copy_and_edit_stream_iff_example : Acceptable externals flags
copy_and_edit_stream_iff_example =
    (copy_and_edit_stream_iff externals flags stored).0 (result, edits)
