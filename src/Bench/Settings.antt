-- ===== src/Bench/Settings.antt =====
-- cli/bench_command.go, processActionArgs: the settings that a benchmark starts from. `derived` is
-- `int64(math.Round(float64(throughput) * duration.Seconds()))`, and `has_context` whether a
-- configuration was loaded. An error ends the command, so what was assigned before it is not kept.
pub mod Valid
mod Examples
use natscli.Prelude.{
  ℕ, ◌+◌, ◌-◌, ◌*◌, ◌%◌, ◌^◌, Bool, false, not, ◌||◌, [], ◌∷◌, ◌++◌, Option, none, some, Text,
  codes, str_eq, ◌==◌, if◌then◌else◌,
}
use natscli.Prelude.Int.{ℤ, pos, negsuc, ltb_ℤ}
use natscli.Util.ByteSize.{ByteError, parse_string_as_bytes}

pub record Settings : Type 0 where
  pub duration : ℤ
  pub throughput : ℤ
  pub num_msg : ℤ
  pub msg_size_string : Text
  pub msg_size : ℤ
  pub stream_max_bytes_string : Text
  pub stream_max_bytes : ℤ

pub data SettingsError : Type 0 where
  negative_duration no_throughput no_messages_derived no_messages too_many_messages : SettingsError
  bad_message_size unknown_context bad_stream_size : SettingsError

pub data Processed : Type 0 where
  ok : Settings → Processed
  error : SettingsError → Processed

abbrev pub is_zero : ℤ → Bool
is_zero (pos n) = n == 0
is_zero (negsuc n) = false

abbrev pub positive : ℤ → Bool
positive n = ltb_ℤ (pos 0) n

abbrev pub max_int : ℤ
max_int = pos (2 ^ 63 - 1)

and_then : Processed → (Settings → Processed) → Processed
and_then (ok c) f = f c
and_then (error e) f = error e

-- --duration with --throughput takes the place of --msgs
with_duration : (ℤ → ℤ → ℤ) → Settings → Processed
with_duration derived c =
    let msgs = derived c.throughput c.duration in
    if is_zero c.duration
    then ok c
    else (if ltb_ℤ c.duration (pos 0)
        then error negative_duration
        else (if not (positive c.throughput)
            then error no_throughput
            else (if not (positive msgs)
                then error no_messages_derived
                else ok (record c { num_msg = msgs }))))

check_messages : Settings → Processed
check_messages c =
    if not (positive c.num_msg)
    then error no_messages
    else (if ltb_ℤ max_int c.num_msg then error too_many_messages else ok c)

sized : Settings → ℤ × Option ByteError → Processed
sized c (size, some e) = error bad_message_size
sized c (size, none) =
    if not (positive size) || ltb_ℤ max_int size
    then error bad_message_size
    else ok (record c { msg_size = size })

with_message_size : Settings → Processed
unfolding sized
with_message_size c =
    if str_eq c.msg_size_string []
    then ok c
    else sized c (parse_string_as_bytes c.msg_size_string 32)

check_context : Bool → Settings → Processed
check_context has_context c = if has_context then ok c else error unknown_context

stream_sized : Settings → ℤ × Option ByteError → Processed
stream_sized c (size, some e) = error bad_stream_size
stream_sized c (size, none) =
    if not (positive size) then error bad_stream_size else ok (record c { stream_max_bytes = size })

with_stream_size : Settings → Processed
unfolding stream_sized
with_stream_size c =
    if str_eq c.stream_max_bytes_string []
    then ok c
    else stream_sized c (parse_string_as_bytes c.stream_max_bytes_string 64)

unfoldable pub process_action_args : (ℤ → ℤ → ℤ) → Bool → Settings → Processed
unfolding and_then with_duration check_messages with_message_size check_context with_stream_size
process_action_args derived has_context c =
    and_then
      (and_then (and_then (and_then (with_duration derived c) check_messages) with_message_size)
        (check_context has_context))
      with_stream_size

-- getSubscribeSubject
unfoldable pub get_subscribe_subject : Bool → Text → Text
get_subscribe_subject multi_subject subject =
    if multi_subject then subject ++ codes ".*" else subject

-- getPublishSubject: `decimal` is strconv.FormatInt, `padded` the format of the largest number's
-- width, and `random` what rand.IntN gave
unfoldable pub get_publish_subject : (ℕ → Text) → (ℕ → Text) → Bool → ℕ → Option ℕ → Text → ℕ → Text
get_publish_subject decimal padded multi_subject multi_subject_max random subject number =
    if multi_subject
    then (if multi_subject_max == 0
        then subject ++ b'.' ∷ decimal number
        else subject ++ b'.' ∷ padded (chosen random))
    else subject
  where
    chosen : Option ℕ → ℕ
    chosen none = number % multi_subject_max
    chosen (some r) = r
