-- ===== src/Streams/Sources.antt =====
-- cli/stream_command.go: askMirror, askSource and parseStreamSource, which describe the stream that is
-- mirrored or sourced. Of parseStreamSource the branch for JSON is what prepareConfig reaches.
pub mod Starts
mod Examples
use natscli.Prelude.{
  ℕ, suc, ◌+◌, ◌-◌, ◌^◌, Bool, ◌&&◌, List, [], ◌∷◌, ◌++◌, ◌⊎◌, inl, inr, Option, none, some, Text,
  codes, has_prefix, has_suffix, ◌==◌, if◌then◌else◌,
}
use natscli.Prelude.Int.{ℤ, pos, negsuc}
use natscli.Util.ByteSize.{trim_space}
use natscli.Dialog.{
  Answer, typed, confirmed, interrupted, Refusal, Dialog, pure, refuse, or_refuse, ◌>>=◌, ask_one,
  ask_confirmation, ask_one_int,
}
use natscli.Streams.{Transform, External, ConsumerSource, StreamSource, Externals}
use natscli.Streams.Names.{is_empty}

-- iu.IsJsonObjectString
unfoldable pub is_json_object_string : Text → Bool
is_json_object_string s =
    has_prefix (trim_space s) (codes "{") && has_suffix (trim_space s) (codes "}")

abbrev pub named_source : Text → StreamSource
named_source name = record {
  name = name;
  opt_start_seq = 0;
  opt_start_time = none;
  subject_transforms = [];
  external = none;
  consumer = none;
}

unfoldable pub parse_stream_source : Externals → Text → Dialog StreamSource
unfolding is_json_object_string
parse_stream_source ext source =
    if is_json_object_string source
    then (or_refuse (ext.read_source source) Refusal.invalid_input >>= λ ss.
        if is_empty ss.name then refuse Refusal.name_required else pure ss)
    else pure (named_source source)

-- uint64 of an int64
unfoldable pub uint64 : ℤ → ℕ
uint64 (pos n) = n
uint64 (negsuc n) = 2 ^ 64 - suc n

unfoldable pub ask_consumer : Dialog ConsumerSource
ask_consumer = ask_one >>= λ name.
    ask_one >>= λ subject. pure (record { name = name; deliver_subject = subject })

unfoldable pub ask_start_time : Externals → Dialog (Option ℤ)
ask_start_time ext = ask_one >>= λ ts.
    if is_empty ts
    then pure none
    else or_refuse (ext.time_of ts) Refusal.invalid_input >>= λ t. pure (some t)

-- where a mirror starts: at a sequence, or else at a time
unfoldable pub ask_mirror_start : Externals → StreamSource → Dialog StreamSource
unfolding uint64 ask_start_time
ask_mirror_start ext m = ask_one_int >>= λ a.
    if uint64 a == 0
    then (ask_start_time ext >>= λ ts. pure (record m { opt_start_time = ts }))
    else pure (record m { opt_start_seq = uint64 a })

-- where a source starts: at a sequence, and at a time
unfoldable pub ask_source_start : Externals → StreamSource → Dialog StreamSource
unfolding uint64 ask_start_time
ask_source_start ext s = ask_one_int >>= λ a.
    ask_start_time ext >>= λ ts. pure (record s { opt_start_seq = uint64 a; opt_start_time = ts })

-- The loop that asks for subjects and where they go, until no subject is given.
transforms_loop : List Answer → (Refusal ⊎ List Transform) × List Answer
transforms_loop (typed [] ∷ rest) = (inr [], rest)
transforms_loop (typed (c ∷ s) ∷ typed d ∷ rest) =
    let (r, after) = transforms_loop rest in
    elim r [
      | inl e ↦ (inl e, after)
      | inr ts ↦ (inr (record { source = c ∷ s; destination = d } ∷ ts), after)
    ]
transforms_loop (typed (c ∷ s) ∷ confirmed b ∷ rest) = (inl Refusal.no_answer, rest)
transforms_loop (typed (c ∷ s) ∷ interrupted ∷ rest) = (inl Refusal.no_answer, rest)
transforms_loop (typed (c ∷ s) ∷ []) = (inl Refusal.no_answer, [])
transforms_loop (confirmed b ∷ rest) = (inl Refusal.no_answer, rest)
transforms_loop (interrupted ∷ rest) = (inl Refusal.no_answer, rest)
transforms_loop [] = (inl Refusal.no_answer, [])

unfoldable pub ask_transforms : Dialog (List Transform)
unfolding transforms_loop
ask_transforms t =
    if t.is_terminal
    then (let (r, rest) = transforms_loop t.answers in (r, record t { answers = rest }))
    else (inl Refusal.no_terminal, t)

ask_deliver_prefix : Bool → Text → Dialog (Option External)
ask_deliver_prefix durable api =
    if durable
    then pure (some (record { api_prefix = api; deliver_prefix = [] }))
    else (ask_one >>= λ prefix. pure (some (record { api_prefix = api; deliver_prefix = prefix })))

-- a domain, or else another account; the delivery is asked for where no durable consumer delivers
unfoldable pub ask_external : Bool → Dialog (Option External)
unfolding ask_deliver_prefix
ask_external durable = ask_confirmation >>= λ domain.
    if domain
    then (ask_one >>= λ name. ask_deliver_prefix durable (codes "$JS." ++ name ++ codes ".API"))
    else ask_confirmation >>= λ account.
        if account then (ask_one >>= λ api. ask_deliver_prefix durable api) else pure none

-- what is asked of a mirror and a source alike, with the question of where each starts between
unfoldable pub ask_details :
    (StreamSource → Dialog StreamSource) → StreamSource → Dialog StreamSource
unfolding ask_consumer ask_transforms ask_external
ask_details start named = ask_confirmation >>= λ durable.
    (if durable
      then (ask_consumer >>= λ con. pure (record named { consumer = some con }))
      else (ask_confirmation >>= λ ok. if ok then start named else pure named))
    >>= λ s. ask_confirmation >>= λ ok.
        (if ok
          then (ask_transforms >>= λ ts. pure (record s { subject_transforms = ts }))
          else pure s)
        >>= λ s'. ask_external durable >>= λ e. pure (record s' { external = e })

unfoldable pub ask_mirror : Externals → Bool → Text → Dialog StreamSource
unfolding ask_details ask_mirror_start
ask_mirror ext accept_defaults name =
    if accept_defaults
    then pure (named_source name)
    else ask_details (ask_mirror_start ext) (named_source name)

unfoldable pub ask_source : Externals → Bool → Text → Dialog StreamSource
unfolding ask_details ask_source_start
ask_source ext accept_defaults name =
    if accept_defaults
    then pure (named_source name)
    else ask_details (ask_source_start ext) (named_source name)
