-- ===== src/Publish/Message/Examples.antt =====
-- Runs of the header parser.
use natscli.Prelude.{[], ◌∷◌, ◌↔◌, inr, ◌≡◌, refl, codes}
use natscli.Util.ByteSize.{trim_space}
use natscli.Publish.Samples.{packages}
use natscli.Publish.Message.{
  parse_strings_to_header, parse_header, parse_parts, pub_reply_body_template, split_colon,
}
use natscli.Publish.Message.Headers.{Parses, parse_strings_to_header_iff}

counted :
    parse_strings_to_header packages 0 (codes "a:b: # " ∷ []) 3 []
    ≡ inr ((codes "a", codes "b: 3") ∷ [])
unfolding parse_strings_to_header parse_header parse_parts pub_reply_body_template split_colon
    trim_space
counted = refl

parse_strings_to_header_iff_example :
    (parse_strings_to_header packages 0 (codes "a: #" ∷ codes "b" ∷ []) 3 [] ≡ inr [])
    ↔ Parses packages 0 3 [] (codes "a: #" ∷ codes "b" ∷ []) []
parse_strings_to_header_iff_example =
    parse_strings_to_header_iff packages 0 3 (codes "a: #" ∷ codes "b" ∷ []) [] []
