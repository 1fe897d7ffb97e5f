-- ===== src/Dialog.antt =====
-- cli/util.go and internal/util/util.go: the questions that a command asks on the terminal. A terminal
-- holds what the prompts of package survey give, in the order in which they are asked; when none is
-- left the terminal is closed, which is an error, like a prompt that is interrupted.
pub mod Quiet
mod Examples
use natscli.Prelude.{
  ◌-◌, Bool, not, ◌&&◌, List, [], ◌∷◌, ◌⊎◌, inl, inr, Option, none, some, Text, codes, str_eq,
  if◌then◌else◌,
}
use natscli.Prelude.Int.{ℤ, pos, ltb_ℤ}
use natscli.Util.Decimal.{parse_int}
use natscli.Util.ByteSize.{ByteError, parse_string_as_bytes}

pub data Answer : Type 0 where
  typed : Text → Answer
  confirmed : Bool → Answer
  interrupted : Answer

pub record Terminal : Type 0 where
  pub is_terminal : Bool
  pub answers : List Answer

-- Why a command ends: a prompt's error, or the error or the fatal exit that the code makes of its input.
pub data Refusal : Type 0 where
  no_terminal no_answer invalid_number invalid_bytes : Refusal
  invalid_input invalid_storage invalid_compression invalid_retention invalid_discard : Refusal
  invalid_max_age invalid_window invalid_replicas max_msg_size_too_big : Refusal
  mirror_with_subjects mirror_or_sources republish_incomplete transform_incomplete : Refusal
  name_required invalid_durable invalid_ack invalid_replay invalid_sample invalid_heartbeat :
      Refusal
  invalid_start invalid_backoff rate_limit_on_pull heartbeat_on_pull overflow_and_pinned : Refusal
  invalid_pause : Refusal

-- A part of a command: what it gives, and the terminal after it.
abbrev pub Dialog {ℓ} : Type ℓ → Type ℓ
Dialog A = Terminal → (Refusal ⊎ A) × Terminal

module _ {ℓ} {A : Type ℓ} where
  abbrev pub pure : A → Dialog A
  pure a t = (inr a, t)

  abbrev pub refuse : Refusal → Dialog A
  refuse e t = (inl e, t)

  abbrev pub or_refuse : Option A → Refusal → Dialog A
  or_refuse none e = refuse e
  or_refuse (some a) e = pure a

abbrev pub and_then {ℓ κ} :
    {A : Type ℓ} {B : Type κ} → (Refusal ⊎ A) × Terminal → (A → Dialog B) → (Refusal ⊎ B) × Terminal
and_then (inl e, t) f = (inl e, t)
and_then (inr a, t) f = f a t

infixl 5 ◌>>=◌
abbrev pub ◌>>=◌ {ℓ κ} : {A : Type ℓ} {B : Type κ} → Dialog A → (A → Dialog B) → Dialog B
◌>>=◌ m f t = and_then (m t) f

-- survey.AskOne for a text
take_text : List Answer → Dialog Text
take_text [] t = (inl no_answer, t)
take_text (typed s ∷ rest) t = (inr s, record t { answers = rest })
take_text (confirmed b ∷ rest) t = (inl no_answer, record t { answers = rest })
take_text (interrupted ∷ rest) t = (inl no_answer, record t { answers = rest })

-- iu.AskOne of an input or a selection
unfoldable pub ask_one : Dialog Text
unfolding take_text
ask_one t = if t.is_terminal then take_text t.answers t else (inl no_terminal, t)

take_choice : List Answer → Dialog Bool
take_choice [] t = (inl no_answer, t)
take_choice (confirmed b ∷ rest) t = (inr b, record t { answers = rest })
take_choice (typed s ∷ rest) t = (inl no_answer, record t { answers = rest })
take_choice (interrupted ∷ rest) t = (inl no_answer, record t { answers = rest })

unfoldable pub ask_confirmation : Dialog Bool
unfolding take_choice
ask_confirmation t = if t.is_terminal then take_choice t.answers t else (inl no_terminal, t)

-- strconv.Atoi
unfoldable pub ask_one_int : Dialog ℤ
ask_one_int = ask_one >>= λ val. or_refuse (parse_int val 64) Refusal.invalid_number

-- what is typed, as a number of bytes; -1 stands for 0
bytes_of : Text → ℤ × Option ByteError
bytes_of val = parse_string_as_bytes (if str_eq val (codes "-1") then codes "0" else val) 64

-- whether the size is refused, asked for again, or taken
pub data Verdict : Type 0 where
  bad again : Verdict
  good : ℤ → Verdict

judge : Bool → ℤ × Option ByteError → Verdict
judge required (i, none) = if required && not (ltb_ℤ (pos 0) i) then again else good i
judge required (i, some e) = bad

-- The loop of askOneBytes, which asks again where a size is required and 0 or less is given.
bytes_loop : Bool → List Answer → (Refusal ⊎ ℤ) × List Answer
unfolding judge bytes_of
bytes_loop required [] = (inl no_answer, [])
bytes_loop required (confirmed b ∷ rest) = (inl no_answer, rest)
bytes_loop required (interrupted ∷ rest) = (inl no_answer, rest)
bytes_loop required (typed val ∷ rest) =
    let later = bytes_loop required rest in
    elim (judge required (bytes_of val)) [
      | bad ↦ (inl invalid_bytes, rest)
      | again ↦ later
      | good i ↦ (inr i, rest)
    ]

unfoldable pub ask_one_bytes : Bool → Dialog ℤ
unfolding bytes_loop
ask_one_bytes required t =
    if t.is_terminal
    then (let (r, rest) = bytes_loop required t.answers in (r, record t { answers = rest }))
    else (inl no_terminal, t)
