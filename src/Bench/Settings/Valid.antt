-- ===== src/Bench/Settings/Valid.antt =====
-- What holds of the settings that a benchmark starts from.
use natscli.Prelude.{
  Bool, true, false, not, [], ◌⊎◌, inl, inr, Option, none, some, ◌≡◌, refl, sym, arith, str_eq→eq,
  str_eq, if◌then◌else◌, Bool-cases, ||-neither,
}
use natscli.Prelude.Int.{ℤ}
use natscli.Util.ByteSize.{ByteError, parse_string_as_bytes}
use natscli.Bench.Settings.{
  Settings, SettingsError, Processed, ok, error, is_zero, positive, and_then, with_duration,
  check_messages, sized, with_message_size, check_context, stream_sized, with_stream_size,
  process_action_args,
}

ok-injective : (c d : Settings) → ok c ≡ ok d → c ≡ d
ok-injective c d e = cc

and_then_ok :
    (p : Processed) (f : Settings → Processed) (d : Settings)
    → and_then p f ≡ ok d
    → (c : Settings) × (p ≡ ok c) × (f c ≡ ok d)
unfolding and_then
and_then_ok (ok c) f d e = (c, refl, e)
and_then_ok (error k) f d e = cc

-- What each step leaves as it is, or changes.
abbrev pub Counted : (ℤ → ℤ → ℤ) → Settings → Settings → Type 0
Counted derived c d =
    ((is_zero c.duration ≡ true) × (d ≡ c))
    ⊎ ((is_zero c.duration ≡ false)
        × (positive c.throughput ≡ true)
        × (d ≡ record c { num_msg = derived c.throughput c.duration }))

abbrev pub Sized : Settings → Settings → Type 0
Sized c d =
    ((c.msg_size_string ≡ []) × (d ≡ c))
    ⊎ ((size : ℤ) × (parse_string_as_bytes c.msg_size_string 32 ≡ (size, none))
        × (positive size ≡ true)
        × (d ≡ record c { msg_size = size }))

abbrev pub StreamSized : Settings → Settings → Type 0
StreamSized c d =
    ((c.stream_max_bytes_string ≡ []) × (d ≡ c))
    ⊎ ((size : ℤ) × (parse_string_as_bytes c.stream_max_bytes_string 64 ≡ (size, none))
        × (positive size ≡ true)
        × (d ≡ record c { stream_max_bytes = size }))

-- a test that is passed
unless_ok :
    (b : Bool) (e : SettingsError) (p : Processed) (d : Settings)
    → (if b then error e else p) ≡ ok d
    → (b ≡ false) × (p ≡ ok d)
unless_ok true e p d h = cc
unless_ok false e p d h = (refl, h)

not-false : (b : Bool) → not b ≡ false → b ≡ true
not-false b h = ground arith

with_duration_ok :
    (derived : ℤ → ℤ → ℤ) (c d : Settings) → with_duration derived c ≡ ok d → Counted derived c d
unfolding with_duration
with_duration_ok derived c d h = elim (Bool-cases (is_zero c.duration)) [
  | inl z ↦ inl (z, sym (ok-injective c d (rw z at h)))
  | inr nz ↦
      let (late, h1) = unless_ok _ _ _ d (rw nz at h) in
      let (rate, h2) = unless_ok _ _ _ d h1 in
      let (some_of, h3) = unless_ok _ _ _ d h2 in
      inr (nz, not-false _ rate, sym (ok-injective _ d h3))
]

check_messages_ok :
    (c d : Settings) → check_messages c ≡ ok d → (positive c.num_msg ≡ true) × (d ≡ c)
unfolding check_messages
check_messages_ok c d h =
    let (some_of, h1) = unless_ok _ _ _ d h in
    let (few, h2) = unless_ok _ _ _ d h1 in (not-false _ some_of, sym (ok-injective c d h2))

sized_ok :
    (c d : Settings) (r : ℤ × Option ByteError)
    → sized c r ≡ ok d
    → (size : ℤ) × (r ≡ (size, none)) × (positive size ≡ true) × (d ≡ record c { msg_size = size })
unfolding sized
sized_ok c d (size, some e) h = cc
sized_ok c d (size, none) h =
    let (fits, h1) = unless_ok _ _ _ d h in
    (size, refl, not-false _ (||-neither _ _ fits).0, sym (ok-injective _ d h1))

with_message_size_ok : (c d : Settings) → with_message_size c ≡ ok d → Sized c d
unfolding with_message_size
with_message_size_ok c d h = elim (Bool-cases (str_eq c.msg_size_string [])) [
  | inl e ↦ inl (str_eq→eq _ _ e, sym (ok-injective c d (rw e at h)))
  | inr e ↦ inr (sized_ok c d _ (rw e at h))
]

stream_sized_ok :
    (c d : Settings) (r : ℤ × Option ByteError)
    → stream_sized c r ≡ ok d
    → (size : ℤ) × (r ≡ (size, none))
      × (positive size ≡ true)
      × (d ≡ record c { stream_max_bytes = size })
unfolding stream_sized
stream_sized_ok c d (size, some e) h = cc
stream_sized_ok c d (size, none) h =
    let (fits, h1) = unless_ok _ _ _ d h in
    (size, refl, not-false _ fits, sym (ok-injective _ d h1))

with_stream_size_ok : (c d : Settings) → with_stream_size c ≡ ok d → StreamSized c d
unfolding with_stream_size
with_stream_size_ok c d h = elim (Bool-cases (str_eq c.stream_max_bytes_string [])) [
  | inl e ↦ inl (str_eq→eq _ _ e, sym (ok-injective c d (rw e at h)))
  | inr e ↦ inr (stream_sized_ok c d _ (rw e at h))
]

check_context_ok :
    (has_context : Bool) (c d : Settings)
    → check_context has_context c ≡ ok d
    → (has_context ≡ true) × (d ≡ c)
unfolding check_context
check_context_ok true c d h = (refl, sym (ok-injective c d h))
check_context_ok false c d h = cc

-- Settings that are accepted have a context and a positive number of messages: the one that was given
-- if there is no duration, and else the one that a positive throughput yields over the duration. Of a
-- message size and of a stream size that are given as texts, each is what its text parses to without
-- an error, and is positive; nothing else is changed.
pub process_action_args_ok :
    (derived : ℤ → ℤ → ℤ) (has_context : Bool) (c d : Settings)
    → process_action_args derived has_context c ≡ ok d
    → (has_context ≡ true)
      × ((counted : Settings) × (sized : Settings) × Counted derived c counted
          × (positive counted.num_msg ≡ true)
          × Sized counted sized
          × StreamSized sized d)
unfolding process_action_args
process_action_args_ok derived has_context c d h =
    let (c4, h4, last) = and_then_ok _ _ d h in
    let (c3, h3, context) = and_then_ok _ _ c4 h4 in
    let (c2, h2, message) = and_then_ok _ _ c3 h3 in
    let (c1, h1, check) = and_then_ok _ _ c2 h2 in
    let (some_of, same) = check_messages_ok c1 c2 check in
    let (has, same_context) = check_context_ok has_context c3 c4 context in
    (
      has,
      (
        c1,
        c3,
        with_duration_ok derived c c1 h1,
        some_of,
        rw same at (with_message_size_ok c2 c3 message),
        rw same_context at (with_stream_size_ok c4 d last),
      ),
    )
