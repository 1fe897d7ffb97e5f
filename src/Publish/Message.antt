-- ===== src/Publish/Message.antt =====
-- internal/util/publisher.go and internal/util/headers.go: the message that pub and req build from their
-- arguments. What text/template and the headers of nats.go do is a parameter: `template now t i` is what
-- the text gives for counter i, which may differ from one line of input, `now`, to the next.
pub mod Headers
mod Examples
use natscli.Prelude.{
  ℕ, Bool, true, false, List, [], ◌∷◌, ◌⊎◌, inl, inr, Option, none, some, Text, ◌==◌, if◌then◌else◌,
}
use natscli.Util.ByteSize.{trim_space}

-- what the command calls of the libraries
pub record Packages {ℓ} (H : Type ℓ) : Type ℓ where
  pub template : ℕ → Text → ℕ → Option Text
  pub new_header : H
  pub add : Text → Text → H → H
  pub set_header : Text → Text → H → H

pub record Message {ℓ} (H : Type ℓ) : Type ℓ where
  pub subject : Text
  pub reply : Text
  pub data_of : Text
  pub header : H

pub data PubError : Type 0 where
  invalid_header bad_template : Text → PubError
  read_failed no_pending no_client no_stream not_allowed no_batch add_failed commit_failed :
      PubError
  publish_failed : PubError

-- pubCmd: the flags and arguments that the messages come from
pub record PubCmd : Type 0 where
  pub subject : Text
  pub body : Text
  pub body_is_set : Bool
  pub reply_to : Text
  pub hdrs : List Text
  pub cnt : ℕ

-- strings.SplitN(s, ":", 2), where it has two parts
prepend : ℕ → Option (Text × Text) → Option (Text × Text)
prepend c none = none
prepend c (some (k, v)) = some (c ∷ k, v)

unfoldable pub split_colon : Text → Option (Text × Text)
unfolding prepend
split_colon [] = none
split_colon (c ∷ s) = let rest = split_colon s in if c == b':' then some ([], s) else prepend c rest

or_text : Text → Option Text → Text × Bool
or_text body none = (body, true)
or_text body (some t) = (t, false)

module _ {ℓ} {H : Type ℓ} (p : Packages H) (now : ℕ) where
  -- PubReplyBodyTemplate: the text as it is when the template fails, and whether it failed
  unfoldable pub pub_reply_body_template : Text → ℕ → Text × Bool
  unfolding or_text
  pub_reply_body_template body ctr = elim (p.template now body ctr) [
    | none ↦ (body, true)
    | some t ↦ (t, false)
  ]

  -- one round of parseStringsToHeader
  add_expanded : Text → H → Text × Bool → PubError ⊎ H
  add_expanded k res (val, true) = inl (PubError.bad_template k)
  add_expanded k res (val, false) = inr (p.add (trim_space k) val res)

  unfoldable pub parse_parts : ℕ → Text → H → Option (Text × Text) → PubError ⊎ H
  unfolding add_expanded
  parse_parts seq hdr res none = inl (PubError.invalid_header hdr)
  parse_parts seq hdr res (some (k, v)) =
      add_expanded k res (pub_reply_body_template (trim_space v) seq)

  unfoldable pub parse_header : ℕ → Text → H → PubError ⊎ H
  parse_header seq hdr res = parse_parts seq hdr res (split_colon hdr)

  -- parseStringsToHeader
  unfoldable pub parse_strings_to_header : List Text → ℕ → H → PubError ⊎ H
  parse_strings_to_header [] seq res = inr res
  parse_strings_to_header (hdr ∷ hdrs) seq res = elim (parse_header seq hdr res) [
    | inl e ↦ inl e
    | inr r ↦ parse_strings_to_header hdrs seq r
  ]

  -- ParseTemplates: the body and the subject
  unfoldable pub parse_templates : Bool → Text → Text → ℕ → Text × Text
  parse_templates false body subject ctr = (body, subject)
  parse_templates true body subject ctr =
      ((pub_reply_body_template body ctr).0, (pub_reply_body_template subject ctr).0)

  -- PrepareMsg
  unfoldable pub prepare_msg : Text → Text → Text → List Text → ℕ → PubError ⊎ Message H
  prepare_msg subj reply_to body hdrs seq = elim (parse_strings_to_header hdrs seq p.new_header) [
    | inl e ↦ inl e
    | inr h ↦ inr (record { subject = subj; reply = reply_to; data_of = body; header = h })
  ]

  -- the message of `body` with counter i, as the loops of pub_command.go build it
  unfoldable pub message : Bool → PubCmd → Text → ℕ → PubError ⊎ Message H
  message templates c body i =
      let (text, subj) = parse_templates templates body c.subject i in
      prepare_msg subj c.reply_to text c.hdrs i
