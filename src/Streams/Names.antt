-- ===== src/Streams/Names.antt =====
-- cli/stream_command.go: the policies and the storage by their names, and checkRepubTransform. The case
-- of a letter is looked at in ASCII.
use natscli.Prelude.{
  ◌+◌, Bool, not, ◌&&◌, ◌||◌, [], map, ◌⊎◌, inl, inr, Option, none, some, Text, codes, str_eq, leb,
  if◌then◌else◌,
}
use natscli.Dialog.{Refusal}
use natscli.Streams.{Retention, Discard, Storage, StreamCmd, Transform, RePublish}

unfoldable pub to_lower : Text → Text
to_lower s = map (λ c. if leb b'A' c && leb c b'Z' then c + 32 else c) s

unfoldable pub discard_policy_from_string : Text → Refusal ⊎ Discard
unfolding to_lower
discard_policy_from_string s =
    if str_eq (to_lower s) (codes "new")
    then inr Discard.discard_new
    else if str_eq (to_lower s) (codes "old")
    then inr Discard.discard_old
    else inl Refusal.invalid_discard

unfoldable pub store_type_from_string : Text → Refusal ⊎ Storage
store_type_from_string s =
    if str_eq s (codes "file") || str_eq s (codes "f")
    then inr Storage.file_storage
    else if str_eq s (codes "memory") || str_eq s (codes "m")
    then inr Storage.memory_storage
    else inl Refusal.invalid_storage

unfoldable pub retention_policy_from_string : Text → Refusal ⊎ Retention
unfolding to_lower
retention_policy_from_string s =
    let p = to_lower s in
    if str_eq p (codes "limits")
    then inr Retention.limits_policy
    else if str_eq p (codes "interest")
    then inr Retention.interest_policy
    else if str_eq p (codes "work queue") || str_eq p (codes "workq") || str_eq p (codes "work")
    then inr Retention.work_queue_policy
    else inl Refusal.invalid_retention

abbrev pub is_empty : Text → Bool
is_empty s = str_eq s []

-- one of two texts is given without the other
abbrev pub one_of : Text → Text → Bool
one_of a b = (not (is_empty a) && is_empty b) || (is_empty a && not (is_empty b))

-- checkRepubTransform
unfoldable pub check_repub_transform : StreamCmd → Option Refusal
check_repub_transform c =
    if one_of c.repub_source c.repub_dest
      || (c.repub_headers_only && (is_empty c.repub_source || is_empty c.repub_dest))
    then some Refusal.republish_incomplete
    else if one_of c.subject_transform_source c.subject_transform_dest
    then some Refusal.transform_incomplete
    else none

-- The republishing and the subject transform that the flags ask for.
unfoldable pub re_publish_flags : StreamCmd → Option RePublish
re_publish_flags c =
    if not (is_empty c.repub_source) && not (is_empty c.repub_dest)
    then some (record {
      source = c.repub_source;
      destination = c.repub_dest;
      headers_only = c.repub_headers_only;
    })
    else none

unfoldable pub transform_flags : StreamCmd → Option Transform
transform_flags c =
    if not (is_empty c.subject_transform_source) && not (is_empty c.subject_transform_dest)
    then some
        (record { source = c.subject_transform_source; destination = c.subject_transform_dest })
    else none
