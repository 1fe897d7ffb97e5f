-- ===== src/Streams/Create/Quietly.antt =====
-- With defaults for all prompts, nothing is asked.
use natscli.Prelude.{
  Bool, true, false, not, ◌&&◌, List, ◌⊎◌, inl, inr, ◌≡◌, refl, ap, Text, codes, str_eq,
  if◌then◌else◌,
}
use natscli.Prelude.Int.{ℤ}
use natscli.Duration.{Numbers}
use natscli.Dialog.{Refusal, Dialog, pure, ask_one_int, ask_one_bytes}
use natscli.Dialog.Quiet.{
  Gives, refuse-Gives, pure-Gives, IsQuiet, >>=-IsQuiet, or_refuse-IsQuiet, if-IsQuiet,
}
use natscli.Streams.{Externals}
use natscli.Streams.Names.{is_empty}
use natscli.Streams.Edit.{is_nil, is_zero}
use natscli.Streams.Create.{
  not_above, lift, given_or, ask_text, ask_storage, ask_replicas, ask_msgs, ask_msgs_per,
  ask_max_bytes, ask_max_age, ask_max_msg_size, ask_window, default_window,
}

pub lift-IsQuiet {ℓ} : {A : Type ℓ} (m : Refusal ⊎ A) → IsQuiet (lift m)
lift-IsQuiet (inl e) t = refl
lift-IsQuiet (inr a) t = refl

pub given-IsQuiet {ℓ} :
    {A : Type ℓ} (b : Bool) (a : A) (m : Dialog A) → b ≡ true → IsQuiet (given_or b a m)
given-IsQuiet b a m h = rw h (λ t. refl)

pub ask_text-IsQuiet : (s : Text) → is_empty s ≡ false → IsQuiet (ask_text s)
unfolding ask_text
ask_text-IsQuiet s h = rw h (λ t. refl)

pub ask_storage-IsQuiet : (s : Text) → is_empty s ≡ false → IsQuiet (ask_storage s)
unfolding ask_storage
ask_storage-IsQuiet s h = >>=-IsQuiet (ask_text s) _ (ask_text-IsQuiet s h) (λ n. lift-IsQuiet _)

pub ask_replicas-IsQuiet : (z : ℤ) → is_zero z ≡ false → IsQuiet (ask_replicas z)
unfolding ask_replicas
ask_replicas-IsQuiet z h =
    >>=-IsQuiet (given_or (not (is_zero z)) z ask_one_int) _ (given-IsQuiet _ z _ (ap not h))
      (λ n. if-IsQuiet (not_above n 0) _ _ (λ e t. refl) (λ e t. refl))

pub ask_msgs-IsQuiet : (z : ℤ) → is_zero z ≡ false → IsQuiet (ask_msgs z)
unfolding ask_msgs
ask_msgs-IsQuiet z h = rw h (λ t. refl)

pub ask_msgs_per-IsQuiet :
    (subjects : List Text) (z : ℤ) → is_zero z ≡ false → IsQuiet (ask_msgs_per subjects z)
unfolding ask_msgs_per
ask_msgs_per-IsQuiet subjects z h =
    if-IsQuiet (is_nil subjects) _ _ (λ e t. refl) (λ e. ask_msgs-IsQuiet z h)

pub ask_max_bytes-IsQuiet :
    (required : Bool) (z : ℤ) → is_zero z ≡ false → IsQuiet (ask_max_bytes required z)
unfolding ask_max_bytes
ask_max_bytes-IsQuiet required z h = rw h (λ t. refl)

pub ask_max_age-IsQuiet :
    (num : Numbers) (s : Text) → is_empty s ≡ false → IsQuiet (ask_max_age num s)
unfolding ask_max_age
ask_max_age-IsQuiet num s h =
    >>=-IsQuiet (ask_text s) _ (ask_text-IsQuiet s h)
      (λ age. if-IsQuiet (str_eq age (codes "-1")) _ _ (λ e t. refl) (λ e. or_refuse-IsQuiet _ _))

pub ask_max_msg_size-IsQuiet : (z : ℤ) → is_zero z ≡ false → IsQuiet (ask_max_msg_size z)
unfolding ask_max_msg_size
ask_max_msg_size-IsQuiet z h =
    >>=-IsQuiet (given_or (not (is_zero z)) z (ask_one_bytes false)) _
      (given-IsQuiet _ z _ (ap not h))
      (λ n. if-IsQuiet (not_above _ 2147483647) _ _ (λ e t. refl) (λ e t. refl))

pub ask_window-IsQuiet :
    (ext : Externals) (mirror window : Text) (age : ℤ)
    → IsQuiet (ask_window ext true mirror window age)
unfolding ask_window
ask_window-IsQuiet ext mirror window age =
    >>=-IsQuiet
      (if is_empty window && is_empty mirror then pure (default_window ext age) else pure window) _
      (if-IsQuiet (is_empty window && is_empty mirror) _ _ (λ e t. refl) (λ e t. refl))
      (λ w. if-IsQuiet (is_empty w) _ _ (λ e t. refl) (λ e. or_refuse-IsQuiet _ _))

pub lift-Gives {ℓ κ} :
    {A : Type ℓ} (P : A → Type κ) (m : Refusal ⊎ A) → ((a : A) → m ≡ inr a → P a) → Gives P (lift m)
lift-Gives P (inl e) h = refuse-Gives P e
lift-Gives P (inr a) h = pure-Gives P a (h a refl)
