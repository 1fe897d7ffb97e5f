-- ===== src/Headers/Examples.antt =====
-- A message with two values of a key and a status, and one whose status is too short.
use natscli.Prelude.{
  List, [], ◌∷◌, ◌++◌, map, ◌≡◌, refl, arith, Text, codes, has_prefix, All, cons-ne-nil,
  cons-ne-nil,
}
use natscli.Util.ByteSize.{trim_space}
use natscli.Headers.{
  slice_panic, decode_headers_msg, finish, add_status, add_value, read_mime_header, put_line,
  cut_colon, skip_blanks,
}
use natscli.Headers.Decoding.{IsPlain, lines_of, DecodesTo, decode_headers_msg_lem}

abbrev values : List (Text × Text)
values = (codes "a", codes "1") ∷ (codes "a", codes "2") ∷ []

plain : All IsPlain values
plain = ((cons-ne-nil _ _, refl, refl), ((cons-ne-nil _ _, refl, refl), tt))

short_status : decode_headers_msg (lines_of (codes " 40") values) ≡ slice_panic
unfolding decode_headers_msg finish add_status add_value read_mime_header put_line cut_colon
    skip_blanks trim_space has_prefix map
short_status = refl

decode_headers_msg_example :
    DecodesTo (lines_of (codes " 503") values) (values ++ (codes "Status", codes "503") ∷ [])
unfolding trim_space
decode_headers_msg_example =
    (decode_headers_msg_lem (codes " 503") values plain).2 (omega arith) refl
