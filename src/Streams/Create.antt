-- ===== src/Streams/Create.antt =====
-- cli/stream_command.go, prepareConfig: what the flags leave open is set to its default or asked for.
pub mod Config
pub mod Quietly
pub mod Settled
pub mod Defaults
pub mod Bounds
pub mod Sound
mod Examples
use natscli.Prelude.{
  ℕ, ◌-◌, Bool, false, not, ◌&&◌, List, ◌⊎◌, inl, inr, Text, codes, str_eq, if◌then◌else◌,
}
use natscli.Prelude.Int.{ℤ, pos, negsuc, ltb_ℤ}
use natscli.Duration.{Numbers, parse_duration}
use natscli.Util.Subjects.{split_string, split_cli_subjects}
use natscli.Dialog.{
  Refusal, Dialog, pure, refuse, or_refuse, ◌>>=◌, ask_one, ask_confirmation, ask_one_int,
  ask_one_bytes,
}
use natscli.Streams.{Limits, Storage, Flag, LimitFlags, SwitchFlags, StreamCmd, Externals}
use natscli.Streams.Names.{is_empty, store_type_from_string}
use natscli.Streams.Edit.{is_nil, is_zero, int32}

abbrev pub minus_one : ℤ
minus_one = negsuc 0

-- 256 * 1024 * 1024
abbrev pub required_size : ℤ
required_size = pos 268435456

-- 2 * time.Minute
abbrev pub two_minutes : ℕ
two_minutes = 120000000000

abbrev pub not_above : ℤ → ℕ → Bool
not_above z n = not (ltb_ℤ (pos n) z)

abbrev pub lift {ℓ} : {A : Type ℓ} → Refusal ⊎ A → Dialog A
lift (inl e) = refuse e
lift (inr a) = pure a

abbrev pub given_or {ℓ} : {A : Type ℓ} → Bool → A → Dialog A → Dialog A
given_or b a m = if b then pure a else m

abbrev default_text : Text → Text → Text
default_text s d = if is_empty s then d else s

abbrev default_number : ℤ → ℤ → ℤ
default_number z d = if is_zero z then d else z

default_limits : Bool → LimitFlags → LimitFlags
default_limits require_size l = record l {
  replicas = default_number l.replicas (pos 1);
  max_msg_limit = default_number l.max_msg_limit minus_one;
  max_msg_per_subject_limit = default_number l.max_msg_per_subject_limit minus_one;
  max_bytes_limit =
      if is_empty l.max_bytes_limit_string
      then (if require_size then required_size else minus_one)
      else l.max_bytes_limit;
  max_age_limit = default_text l.max_age_limit (codes "-1");
  max_msg_size = if is_empty l.max_msg_size_string then minus_one else l.max_msg_size;
}

-- the block of acceptDefaults
unfoldable pub apply_defaults : Bool → StreamCmd → StreamCmd
unfolding default_limits
apply_defaults require_size c =
    if c.accept_defaults
    then record c {
      policies = record {
        storage = default_text c.policies.storage (codes "file");
        retention_policy_s = default_text c.policies.retention_policy_s (codes "Limits");
        discard_policy = default_text c.policies.discard_policy (codes "Old");
      };
      compression = record c.compression {
        value = default_text c.compression.value (codes "none");
      };
      limits = default_limits require_size c.limits;
    }
    else c

unfoldable pub ask_name : StreamCmd → Dialog StreamCmd
ask_name c =
    given_or (not (is_empty c.stream)) c (ask_one >>= λ name. pure (record c { stream = name }))

unfoldable pub ask_subjects : StreamCmd → Dialog StreamCmd
ask_subjects c =
    if is_empty c.mirror && is_nil c.sources
    then (given_or (not (is_nil c.subjects)) c.subjects (ask_one >>= λ s. pure (split_string s))
        >>= λ subjects. pure (record c { subjects = split_cli_subjects subjects }))
    else pure c

unfoldable pub check_mirror : StreamCmd → Dialog StreamCmd
check_mirror c =
    if not (is_empty c.mirror) && not (is_nil c.subjects)
    then refuse Refusal.mirror_with_subjects
    else pure c

unfoldable pub ask_text : Text → Dialog Text
ask_text s = given_or (not (is_empty s)) s ask_one

unfoldable pub ask_storage : Text → Dialog Storage
unfolding ask_text
ask_storage s = ask_text s >>= λ name. lift (store_type_from_string name)

unfoldable pub ask_replicas : ℤ → Dialog ℤ
ask_replicas z = given_or (not (is_zero z)) z ask_one_int >>= λ n.
    if not_above n 0 then refuse Refusal.invalid_replicas else pure n

abbrev pub or_unlimited : ℤ → ℤ
or_unlimited z = if not_above z 0 then minus_one else z

-- a limit on messages: what is asked for is -1 when it is 0 or less, what is given stays
unfoldable pub ask_msgs : ℤ → Dialog ℤ
ask_msgs z = given_or (not (is_zero z)) z (ask_one_int >>= λ n. pure (or_unlimited n))

-- The test on the first subject never matters: it stands beside one that is the guard before it.
unfoldable pub ask_msgs_per : List Text → ℤ → Dialog ℤ
unfolding ask_msgs
ask_msgs_per subjects z = if is_nil subjects then pure z else ask_msgs z

unfoldable pub ask_max_bytes : Bool → ℤ → Dialog ℤ
ask_max_bytes require_size z =
    given_or (not (is_zero z)) z (ask_one_bytes require_size) >>= λ n. pure (or_unlimited n)

unfoldable pub ask_max_age : Numbers → Text → Dialog ℤ
unfolding ask_text
ask_max_age num s = ask_text s >>= λ age.
    if str_eq age (codes "-1")
    then pure (pos 0)
    else or_refuse (parse_duration num age) Refusal.invalid_max_age

unfoldable pub ask_max_msg_size : ℤ → Dialog ℤ
ask_max_msg_size z = given_or (not (is_zero z)) z (ask_one_bytes false) >>= λ n.
    let size = if is_zero n then minus_one else n in
    if not_above size 2147483647 then pure size else refuse Refusal.max_msg_size_too_big

-- two minutes, or the maximum age where that is less, as a text
unfoldable pub default_window : Externals → ℤ → Text
default_window ext max_age =
    if ltb_ℤ (pos 0) max_age && ltb_ℤ max_age (pos two_minutes)
    then ext.duration_string max_age
    else ext.duration_string (pos two_minutes)

unfoldable pub ask_window : Externals → Bool → Text → Text → ℤ → Dialog ℤ
unfolding default_window
ask_window ext accept_defaults mirror window max_age =
    (if is_empty window && is_empty mirror
      then given_or accept_defaults (default_window ext max_age) ask_one
      else pure window)
    >>= λ w.
        if is_empty w
        then pure (pos 0)
        else or_refuse (parse_duration ext.numbers w) Refusal.invalid_window

abbrev ask_flag : Flag Bool → (Bool → Bool) → Dialog Bool
ask_flag fl f = given_or fl.is_set fl.value (ask_confirmation >>= λ b. pure (f b))

-- the confirmations, of which two ask for the opposite of their flag
unfoldable pub ask_switches : Bool → SwitchFlags → Dialog SwitchFlags
ask_switches accept_defaults s =
    if accept_defaults
    then pure s
    else (ask_flag s.allow_rollup (λ b. b) >>= λ rollup. ask_flag s.deny_delete not >>= λ delete.
        ask_flag s.deny_purge not >>= λ purge. pure (record s {
          allow_rollup = record s.allow_rollup { value = rollup };
          deny_delete = record s.deny_delete { value = delete };
          deny_purge = record s.deny_purge { value = purge };
        }))

-- The limits, with the replicas that were settled before them.
unfoldable pub ask_limits : Externals → Bool → StreamCmd → ℤ → Dialog Limits
unfolding ask_msgs ask_msgs_per ask_max_bytes ask_max_age ask_max_msg_size ask_window
ask_limits ext require_size c replicas = ask_msgs c.limits.max_msg_limit >>= λ msgs.
    ask_msgs_per c.subjects c.limits.max_msg_per_subject_limit >>= λ per.
    ask_max_bytes require_size c.limits.max_bytes_limit >>= λ bytes.
    ask_max_age ext.numbers c.limits.max_age_limit >>= λ age.
    ask_max_msg_size c.limits.max_msg_size >>= λ size.
    ask_window ext c.accept_defaults c.mirror c.limits.dupe_window age >>= λ window. pure (record {
      max_msgs = msgs;
      max_msgs_per = per;
      max_bytes = bytes;
      max_age = age;
      max_msg_size = int32 size;
      max_consumers = c.limits.max_consumers;
      duplicates = window;
      replicas = replicas;
    })
