-- ===== src/Publish/Message/Headers.antt =====
-- What the header arguments of a message mean.
use natscli.Prelude.{
  ℕ, Bool, true, not, List, [], ◌∷◌, ◌++◌, ◌↔◌, inl, inr, some, ◌≡◌, refl, ap, ◌∙◌, arith, Text,
  split, ◌==◌, Option-cases, all, Sum-cases,
}
use natscli.Util.ByteSize.{trim_space}
use natscli.Publish.Message.{
  parse_parts, Packages, split_colon, pub_reply_body_template, parse_header,
  parse_strings_to_header,
}

abbrev colon_free : Text → Bool
colon_free = all (λ c. not (c == b':'))

-- A text with a colon is what stands before the first one, and what stands behind it.
split_colon_append : (k v : Text) → colon_free k ≡ true → split_colon (k ++ b':' ∷ v) ≡ some (k, v)
unfolding split_colon
split_colon_append [] v h = refl
split_colon_append (c ∷ k) v h = ground (arith, split_colon_append k v)

split_colon-some :
    (s k v : Text) → split_colon s ≡ some (k, v) → (colon_free k ≡ true) × (s ≡ k ++ b':' ∷ v)
unfolding split_colon
split_colon-some [] k v h = ground arith
split_colon-some (c ∷ s) k v h = elim (Option-cases (split_colon s)) [
  | inl e ↦ ground arith
  | inr ((a, b), e) ↦ let (free, eq) = split_colon-some s a b e in ground arith
]

module _ {ℓ} {H : Type ℓ} (p : Packages H) (now seq : ℕ) where
  -- The header arguments turn `res` into `r`: each is a key without a colon, a colon and a value, the
  -- value's template expands, and key and expansion are added, without the white space around them.
  abbrev pub Parses : H → List Text → H → Type ℓ
  Parses res [] r = res ≡ r
  Parses res (hdr ∷ hdrs) r =
      (k : Text) × (v : Text) × (val : Text) × (colon_free k ≡ true)
      × (hdr ≡ k ++ b':' ∷ v)
      × (p.template now (trim_space v) seq ≡ some val)
      × Parses (p.add (trim_space k) val res) hdrs r

  parse_header_ok :
      (k v val : Text) (res : H)
      → colon_free k ≡ true
      → p.template now (trim_space v) seq ≡ some val
      → parse_header p now seq (k ++ b':' ∷ v) res ≡ inr (p.add (trim_space k) val res)
  unfolding parse_header parse_parts pub_reply_body_template
  parse_header_ok k v val res free e =
      ap (parse_parts p now seq (k ++ b':' ∷ v) res) (split_colon_append k v free) ∙ ground arith

  parse_header-some :
      (hdr : Text) (res r : H)
      → parse_header p now seq hdr res ≡ inr r
      → (k : Text) × (v : Text) × (val : Text) × (colon_free k ≡ true)
        × (hdr ≡ k ++ b':' ∷ v)
        × (p.template now (trim_space v) seq ≡ some val)
        × (p.add (trim_space k) val res ≡ r)
  unfolding parse_header parse_parts pub_reply_body_template
  parse_header-some hdr res r h = elim (Option-cases (split_colon hdr)) [
    | inl e ↦ ground arith
    | inr ((k, v), e) ↦ elim (Option-cases (p.template now (trim_space v) seq)) [
      | inl none_of ↦ ground arith
      | inr (val, t) ↦
          let (free, eq) = split_colon-some hdr k v e in (k, v, val, free, eq, t, ground arith)
    ]
  ]

  -- The header arguments of a message are accepted exactly if each of them is a key, a colon and a
  -- template that expands, and then the header has them all, added in order.
  pub parse_strings_to_header_iff :
      (hdrs : List Text) (res r : H)
      → (parse_strings_to_header p now hdrs seq res ≡ inr r) ↔ Parses res hdrs r
  unfolding parse_strings_to_header
  parse_strings_to_header_iff [] res r = (λ h. ground arith, λ h. ap inr h)
  parse_strings_to_header_iff (hdr ∷ hdrs) res r = (
    λ h. elim (Sum-cases (parse_header p now seq hdr res)) [
      | inl (e, eq) ↦ ground arith
      | inr (q, eq) ↦
          let (k, v, val, free, split, t, add) = parse_header-some hdr res q eq in
          let more = (parse_strings_to_header_iff hdrs q r).0 (ground arith) in
          (k, v, val, free, split, t, rw add more)
    ],
    λ (k, v, val, free, split, t, rest).
        let next = parse_header_ok k v val res free t in
        let more = (parse_strings_to_header_iff hdrs (p.add (trim_space k) val res) r).1 rest in
        rw split (ground arith),
  )
