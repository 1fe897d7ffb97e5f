-- ===== src/Streams/Sizes.antt =====
-- cli/stream_command.go, parseLimitStrings: the sizes that the flags give as texts.
mod Examples
use natscli.Prelude.{[], Option, none, some, Text, str_eq, if◌then◌else◌}
use natscli.Prelude.Int.{ℤ}
use natscli.Util.ByteSize.{ByteError, parse_string_as_bytes}
use natscli.Streams.{LimitFlags}

-- The number is assigned before its error is looked at.
abbrev sized : Text → ℤ → ℤ × Option ByteError
sized s old = if str_eq s [] then (old, none) else parse_string_as_bytes s 32

with_msg_size : LimitFlags → LimitFlags × Option ByteError
with_msg_size c =
    let (size, e) = sized c.max_msg_size_string c.max_msg_size in
    (record c { max_msg_size = size }, e)

unless_failed : LimitFlags → Option ByteError → LimitFlags × Option ByteError
unfolding with_msg_size
unless_failed c none = with_msg_size c
unless_failed c (some e) = (c, some e)

unfoldable pub parse_limit_strings : LimitFlags → LimitFlags × Option ByteError
unfolding unless_failed
parse_limit_strings c =
    let (bytes, e) = sized c.max_bytes_limit_string c.max_bytes_limit in
    unless_failed (record c { max_bytes_limit = bytes }) e
