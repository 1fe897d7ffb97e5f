-- ===== src/Consumers/Names/Examples.antt =====
-- Starts by a name and by a number.
use natscli.Prelude.{inr, ◌≡◌, refl, codes, str_eq}
use natscli.Util.Decimal.{is_digit, parse_int}
use natscli.Consumers.{Start, deliver_all, deliver_by_start_sequence}
use natscli.Consumers.Samples.{externals, stored_consumer}
use natscli.Consumers.Names.{set_start_policy, is_sequence}
use natscli.Consumers.Names.Starts.{default_start, IsConsistent, set_start_policy_lem}

abbrev at_twelve : Start
at_twelve = record default_start { deliver_policy = deliver_by_start_sequence; opt_start_seq = 12 }

numbered : set_start_policy externals (codes "12") default_start ≡ inr at_twelve
unfolding set_start_policy is_sequence str_eq is_digit parse_int
numbered = refl

-- a copy that starts with all messages keeps the sequence that the source started at
kept_sequence :
    set_start_policy externals (codes "all") stored_consumer.start
    ≡ inr (record stored_consumer.start { deliver_policy = deliver_all })
unfolding set_start_policy str_eq
kept_sequence = refl

set_start_policy_lem_example : IsConsistent at_twelve
set_start_policy_lem_example = (set_start_policy_lem externals (codes "12")).1 at_twelve numbered
