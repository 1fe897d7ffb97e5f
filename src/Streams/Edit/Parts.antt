-- ===== src/Streams/Edit/Parts.antt =====
-- An edit by the flags is one of its parts.
use natscli.Prelude.{
  Bool, true, false, not, ◌||◌, ◌⊎◌, inl, inr, none, some, ◌≡◌, refl, sym, arith, Sum-cases,
}
use natscli.Dialog.{Refusal}
use natscli.Dialog.Quiet.{inr_injective, inl-ne-inr}
use natscli.Streams.{Limits, Policies, StreamConfig, StreamCmd, Externals, Compression}
use natscli.Streams.Names.{is_empty, check_repub_transform}
use natscli.Streams.Edit.{
  attempt, is_nil, edit_policies, edit_limits, edit_compression, edited, edit_flags,
  load_config_file, checked_edit, copy_and_edit_stream,
}

abbrev pub from_streams : StreamCmd → Bool
from_streams c = not (is_nil c.sources) || not (is_empty c.mirror)

-- The parts of an edit that was accepted.
pub edit_flags_parts :
    (ext : Externals) (c : StreamCmd) (cfg new : StreamConfig)
    → edit_flags ext c cfg ≡ inr new
    → (p : Policies) × (l : Limits) × (z : Compression) × (edit_policies c.policies cfg.policies
        ≡ inr p)
      × (edit_limits ext.numbers c.limits cfg.limits ≡ inr l)
      × (from_streams c ≡ false)
      × (edit_compression ext c.compression cfg.compression ≡ inr z)
      × (edited c cfg p l z ≡ new)
unfolding edit_flags
edit_flags_parts ext c cfg new h = elim (Sum-cases (edit_policies c.policies cfg.policies)) [
  | inl (e, q) ↦ ground arith
  | inr (p, q) ↦ elim (Sum-cases (edit_limits ext.numbers c.limits cfg.limits)) [
    | inl (e, k) ↦ ground arith
    | inr (l, k) ↦ elim (Sum-cases (edit_compression ext c.compression cfg.compression)) [
      | inl (e, m) ↦ ground arith
      | inr (z, m) ↦ (p, l, z, q, k, ground arith, m, ground arith)
    ]
  ]
]

pub edit_flags_of_parts :
    (ext : Externals) (c : StreamCmd) (cfg : StreamConfig) (p : Policies) (l : Limits)
    (z : Compression)
    → edit_policies c.policies cfg.policies ≡ inr p
    → edit_limits ext.numbers c.limits cfg.limits ≡ inr l
    → from_streams c ≡ false
    → edit_compression ext c.compression cfg.compression ≡ inr z
    → edit_flags ext c cfg ≡ inr (edited c cfg p l z)
unfolding edit_flags
edit_flags_of_parts ext c cfg p l z hp hl hs hz = rw (hp, hl, hs, hz) refl

-- The branches of an edit.
module _ (ext : Externals) (c : StreamCmd) (cfg : StreamConfig) where
  pub edit_by_file :
      is_empty c.input_file ≡ false → copy_and_edit_stream ext c cfg ≡ load_config_file ext c
  unfolding copy_and_edit_stream
  edit_by_file h = rw h refl

  pub edit_by_flags :
      is_empty c.input_file ≡ true
      → check_repub_transform c ≡ none
      → copy_and_edit_stream ext c cfg ≡ edit_flags ext c cfg
  unfolding copy_and_edit_stream checked_edit
  edit_by_flags h k = rw (h, k) refl

  pub edit_unchecked :
      (e : Refusal)
      → is_empty c.input_file ≡ true
      → check_repub_transform c ≡ some e
      → copy_and_edit_stream ext c cfg ≡ inl e
  unfolding copy_and_edit_stream checked_edit
  edit_unchecked e h k = rw (h, k) refl

-- What a part gives, if it succeeds, has the property.
abbrev pub Ends {ℓ κ} : {A : Type ℓ} → (A → Type κ) → Refusal ⊎ A → Type (ℓ ⊔ κ)
Ends {A = A} P m = (a : A) → m ≡ inr a → P a

pub attempt-Ends {ℓ κ μ} :
    {A : Type ℓ} {B : Type κ} (P : B → Type μ) (m : Refusal ⊎ A) (f : A → Refusal ⊎ B)
    → ((a : A) → m ≡ inr a → Ends P (f a))
    → Ends P (attempt m f)
attempt-Ends P (inl e) f h b q = absurd (inl-ne-inr e b q)
attempt-Ends P (inr a) f h b q = h a refl b q

pub inr-Ends {ℓ κ} : {A : Type ℓ} (P : A → Type κ) (a : A) → P a → Ends P (inr a)
inr-Ends P a h b q = rw (sym (inr_injective a b q)) h

pub inl-Ends {ℓ κ} : {A : Type ℓ} (P : A → Type κ) (e : Refusal) → Ends P (inl e)
inl-Ends P e b q = absurd (inl-ne-inr e b q)
