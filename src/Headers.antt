-- ===== src/Headers.antt =====
-- internal/util/headers.go: DecodeHeadersMsg and readMIMEHeader. The message is the lines that the reader of
-- net/textproto gives, after which it fails with the end of the input.
pub mod Decoding
mod Examples
use natscli.Prelude.{
  ℕ, ◌+◌, ◌/◌, not, ◌||◌, List, [], ◌∷◌, ◌++◌, Option, none, some, Text, codes, str_eq, has_prefix,
  ltb, ◌==◌, if◌then◌else◌, length, take, drop,
}
use natscli.Util.ByteSize.{trim_space}

-- textproto.MIMEHeader: the values of each key, in order
abbrev pub MimeHeader : Type 0
MimeHeader = List (Text × List Text)

-- nats.ErrBadHeaderMsg, io.EOF, the panic of a slice out of range, or the header
pub data Decoded : Type 0 where
  bad_header_msg end_of_input slice_panic : Decoded
  decoded : MimeHeader → Decoded

-- m[key] = append(m[key], value)
unfoldable pub add_value : Text → Text → MimeHeader → MimeHeader
add_value k v [] = (k, v ∷ []) ∷ []
add_value k v ((j, vs) ∷ m) =
    let rest = add_value k v m in if str_eq j k then (j, vs ++ v ∷ []) ∷ m else (j, vs) ∷ rest

unfoldable pub skip_blanks : Text → Text
skip_blanks [] = []
skip_blanks (c ∷ s) = let rest = skip_blanks s in if c == b' ' || c == 9 then rest else c ∷ s

-- kv[:i] and kv[i+1:] of the first colon
key_prepend : ℕ → Option (Text × Text) → Option (Text × Text)
key_prepend c none = none
key_prepend c (some (k, v)) = some (c ∷ k, v)

unfoldable pub cut_colon : Text → Option (Text × Text)
unfolding key_prepend
cut_colon [] = none
cut_colon (c ∷ s) = let rest = cut_colon s in if c == b':' then some ([], s) else key_prepend c rest

-- a line's key and value put into the header: none is ErrBadHeaderMsg, and an empty key is skipped
unfoldable pub put_line : Option (Text × Text) → MimeHeader → Option MimeHeader
put_line none m = none
put_line (some ([], v)) m = some m
put_line (some (c ∷ k, v)) m = some (add_value (c ∷ k) (skip_blanks v) m)

-- readMIMEHeader
unfoldable pub read_mime_header : List Text → MimeHeader → Decoded
read_mime_header [] m = end_of_input
read_mime_header ([] ∷ lines) m = decoded m
read_mime_header ((c ∷ kv) ∷ lines) m = elim (put_line (cut_colon (c ∷ kv)) m) [
  | none ↦ bad_header_msg
  | some n ↦ read_mime_header lines n
]

-- the inlined status: what stands behind NATS/1.0
unfoldable pub add_status : Text → MimeHeader → Decoded
add_status st m =
    let status = trim_space st in
    if length status == 3
    then decoded (add_value (codes "Status") status m)
    else if ltb (length status) 3
    then slice_panic
    else let description = trim_space (drop 3 status) in
      let with_status = add_value (codes "Status") (take 3 status) m in
      decoded (
        if ltb 0 (length description)
        then add_value (codes "Description") description with_status
        else with_status)

unfoldable pub finish : Text → Decoded → Decoded
finish st (decoded m) = if ltb 0 (length st) then add_status st m else decoded m
finish st bad_header_msg = bad_header_msg
finish st end_of_input = end_of_input
finish st slice_panic = slice_panic

-- DecodeHeadersMsg; `len(l) < hdrPreEnd` is a line without the prefix
unfoldable pub decode_headers_msg : List Text → Decoded
decode_headers_msg [] = bad_header_msg
decode_headers_msg (l ∷ lines) =
    if not (has_prefix l (codes "NATS/1.0"))
    then bad_header_msg
    else finish (drop 8 l) (read_mime_header lines [])
