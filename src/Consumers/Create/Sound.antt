-- ===== src/Consumers/Create/Sound.antt =====
-- What holds of a consumer that is made of the flags and the answers.
use natscli.Prelude.{
  Bool, true, false, not, ◌&&◌, ◌||◌, List, [], ◌∷◌, ◌⊎◌, inl, inr, ◌≡◌, refl, sym, ◌∙◌, arith,
  Text, codes, str_eq, ◌==◌, any, if_both, ||-neither,
}
use natscli.Checks.Streams.Agreement.{true-ne-false}
use natscli.Prelude.Int.{ℤ, pos}
use natscli.Util.Subjects.{split_string}
use natscli.Dialog.{pure, ◌>>=◌, ask_one}
use natscli.Dialog.Quiet.{Gives, >>=-Gives, >>=-Gives_any, pure-Gives, refuse-Gives, if-Gives}
use natscli.Streams.Names.{is_empty}
use natscli.Streams.Edit.{is_nil}
use natscli.Streams.Create.{minus_one, lift, ask_text, given_or}
use natscli.Streams.Create.Quietly.{lift-Gives}
use natscli.Consumers.{
  AckPolicy, Delivery, Acks, ConsumerConfig, ConsumerCmd, Externals, DeliverPolicy,
}
use natscli.Consumers.Names.{ack_policy_from_string, set_start_policy}
use natscli.Consumers.Names.Starts.{IsConsistent, set_start_policy-IsConsistent, default_start}
use natscli.Consumers.Edit.Kept.{OneFilter}
use natscli.Consumers.Create.{
  is_ack_none, is_special, is_last_per_subject, ask_group, ask_start, sample_flag, all_or,
  ask_filters, ask_heartbeat, ask_flow_control, ask_replay_again,
}
use natscli.Consumers.Create.Config.{
  Named, settle_max_deliver, created_acks, check_pull, ask_policies,
}

-- A consumer is pulled from, and then has no heartbeat, flow control or rate limit, or is pushed to, and then
-- no pulls wait.
abbrev pub OneWay : Delivery → Type 0
OneWay d =
    (is_empty d.deliver_subject ≡ true
      → (d.heartbeat ≡ pos 0) × (d.flow_control ≡ false) × (d.rate_limit ≡ 0))
    × (is_empty d.deliver_subject ≡ false → d.max_waiting ≡ pos 0)

-- Without acknowledgement deliveries are not counted.
abbrev pub Counted : Acks → Type 0
Counted a = is_ack_none a.ack_policy ≡ true → a.max_deliver ≡ minus_one

-- A consumer has a name or a durable name, not both, and a durable name has no `.`, `*` or `>`.
abbrev pub OneName : ConsumerConfig → Type 0
OneName cfg = ((cfg.name ≡ []) ⊎ (cfg.durable ≡ [])) × (any is_special cfg.durable ≡ false)

pub record IsSound (cfg : ConsumerConfig) : Type 0 where
  pub one_name : OneName cfg
  pub one_way : OneWay cfg.delivery
  pub counted : Counted cfg.acks
  pub one_filter : OneFilter cfg.filters
  pub consistent : IsConsistent cfg.start

unfoldable pub Starts : Named → Type 0
Starts n = IsConsistent n.start

pub ask_policies-Gives : (ext : Externals) (c : ConsumerCmd) → Gives Starts (ask_policies ext c)
unfolding ask_policies ask_start Starts
ask_policies-Gives ext c = >>=-Gives_any (ask_group c) _ Starts (λ group.
    >>=-Gives (ask_start ext c) _ IsConsistent Starts
      (>>=-Gives_any (ask_text c.start_policy) _ IsConsistent (λ s.
        lift-Gives IsConsistent (set_start_policy ext s default_start)
          (set_start_policy-IsConsistent ext s)))
      (λ start h. >>=-Gives_any (ask_text c.ack_policy) _ Starts (λ ack_name.
        >>=-Gives_any (ask_text c.replay_policy) _ Starts (λ replay_name.
          >>=-Gives_any (lift (ack_policy_from_string ack_name)) _ Starts (λ ack.
            >>=-Gives_any (lift (sample_flag c.sample_pct)) _ Starts (λ sample.
              >>=-Gives_any (ask_replay_again c replay_name) _ Starts
                (λ again. >>=-Gives_any _ _ Starts (λ replay. pure-Gives Starts _ h))))))))

all_or-OneFilter : (policy : DeliverPolicy) (ss : List Text) → OneFilter (all_or policy ss)
unfolding all_or str_eq
all_or-OneFilter policy [] =
    if_both OneFilter (is_last_per_subject policy) _ _ (λ e. inr refl) (λ e. inr refl)
all_or-OneFilter policy (s ∷ []) = inr refl
all_or-OneFilter policy (s ∷ t ∷ ss) = inl refl

pub ask_filters-Gives :
    (c : ConsumerCmd) (policy : DeliverPolicy) → Gives OneFilter (ask_filters c policy)
unfolding ask_filters
ask_filters-Gives c policy =
    >>=-Gives_any
      (given_or (not (is_nil c.filter_subjects) || c.accept_defaults) c.filter_subjects
        (ask_one >>= λ s. pure (split_string s)))
      _ OneFilter (λ ss. pure-Gives OneFilter (all_or policy ss) (all_or-OneFilter policy ss))

pub ask_heartbeat-Gives :
    (ext : Externals) (c : ConsumerCmd)
    → Gives (λ hb. is_empty c.delivery ≡ true → hb ≡ pos 0) (ask_heartbeat ext c)
unfolding ask_heartbeat
ask_heartbeat-Gives ext c =
    let P : ℤ → Type 0 = λ hb. is_empty c.delivery ≡ true → hb ≡ pos 0 in
    if-Gives P (is_empty c.delivery || str_eq c.idle_heartbeat (codes "-1")) _ _
      (λ e. pure-Gives P (pos 0) (λ d. refl))
      (λ e t hb q d. absurd (true-ne-false (sym d ∙ (||-neither (is_empty c.delivery) _ e).0)))

pub ask_flow_control-Gives :
    (c : ConsumerCmd) → Gives (λ f. is_empty c.delivery ≡ true → f ≡ false) (ask_flow_control c)
unfolding ask_flow_control
ask_flow_control-Gives c =
    let P : Bool → Type 0 = λ f. is_empty c.delivery ≡ true → f ≡ false in
    if-Gives P (is_empty c.delivery) _ _ (λ e. pure-Gives P false (λ d. refl))
      (λ e t f q d. absurd (true-ne-false (sym d ∙ e)))

pub check_pull-Gives :
    (c : ConsumerCmd)
    → Gives (λ u. is_empty c.delivery ≡ true → c.bps_rate_limit ≡ 0) (check_pull c)
unfolding check_pull
check_pull-Gives c =
    let P : Unit {0} → Type 0 = λ u. is_empty c.delivery ≡ true → c.bps_rate_limit ≡ 0 in
    if-Gives P (is_empty c.delivery && not (c.bps_rate_limit == 0)) _ _ (λ e. refuse-Gives P _)
      (λ e t u q d. ground arith)

pub created_acks-Counted :
    (c : ConsumerCmd) (ack : AckPolicy) (back : List ℤ) (deliver pending : ℤ)
    → Counted (created_acks c ack back deliver pending)
unfolding created_acks settle_max_deliver
created_acks-Counted c ack back deliver pending h = rw h refl
