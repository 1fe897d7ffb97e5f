-- ===== src/Dialog/Examples.antt =====
-- A size that is required is asked for until one is given.
use natscli.Prelude.{true, false, [], ◌∷◌, inl, inr, ◌≡◌, refl, codes, str_eq, has_prefix}
use natscli.Prelude.Int.{pos}
use natscli.Util.Decimal.{parse_int}
use natscli.Util.ByteSize.{parse_string_as_bytes, trim_space}
use natscli.Dialog.{typed, Refusal, ask_one_bytes}

asked_again :
    ask_one_bytes true (record {
      is_terminal = true;
      answers = typed (codes "-1") ∷ typed (codes "0") ∷ typed (codes "512") ∷ [];
    })
    ≡ (inr (pos 512), record { is_terminal = true; answers = [] })
unfolding ask_one_bytes parse_string_as_bytes parse_int trim_space str_eq has_prefix
asked_again = refl

closed :
    (ask_one_bytes false (record { is_terminal = false; answers = [] })).0 ≡ inl Refusal.no_terminal
unfolding ask_one_bytes
closed = refl
