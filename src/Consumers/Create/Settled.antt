-- ===== src/Consumers/Create/Settled.antt =====
-- A consumer that is made of the flags and the answers is sound.
use natscli.Prelude.{
  false, ◌||◌, [], ◌⊎◌, inl, inr, ◌≡◌, refl, if◌then◌else◌, Bool-cases, any, if_both,
}
use natscli.Dialog.{Terminal, ask_one}
use natscli.Dialog.Quiet.{Gives, >>=-Gives, >>=-Gives_any, pure-Gives, refuse-Gives, if-Gives}
use natscli.Consumers.{ConsumerConfig, ConsumerCmd, Externals}
use natscli.Consumers.Edit.Kept.{OneFilter}
use natscli.Consumers.Create.{
  is_push, is_special, ask_consumer_name, check_durable, durable_of, ask_target,
  default_consumer_flags, ask_filters, ask_max_deliver, ask_max_ack_pending, ask_heartbeat,
  ask_flow_control, ask_headers_only, ask_backoff, settle_backoff,
}
use natscli.Consumers.Create.Config.{
  created_acks, created_delivery, check_pull, settle_pause, settle_priorities, ask_policies,
  created_consumer, settle_consumer, prepare_consumer_from_flags,
}
use natscli.Consumers.Create.Sound.{
  IsSound, Starts, ask_policies-Gives, ask_filters-Gives, ask_heartbeat-Gives,
  ask_flow_control-Gives, check_pull-Gives, created_acks-Counted,
}

abbrev NoSpecial : ConsumerCmd → Type 0
NoSpecial c = any is_special (durable_of c) ≡ false

check_durable-Gives : (c : ConsumerCmd) → Gives NoSpecial (check_durable c)
unfolding check_durable
check_durable-Gives c =
    if-Gives NoSpecial (any is_special (durable_of c)) _ _ (λ e. refuse-Gives NoSpecial _)
      (λ e. pure-Gives NoSpecial c e)

ask_target-Gives : (c : ConsumerCmd) → NoSpecial c → Gives NoSpecial (ask_target c)
unfolding ask_target
ask_target-Gives c h =
    if-Gives NoSpecial (c.pull || is_push c) _ _ (λ e. pure-Gives NoSpecial c h)
      (λ e.
        >>=-Gives_any ask_one _ NoSpecial
          (λ target. pure-Gives NoSpecial (record c { delivery = target }) h))

defaults-NoSpecial : (c : ConsumerCmd) → NoSpecial c → NoSpecial (default_consumer_flags c)
unfolding default_consumer_flags
defaults-NoSpecial c h = if_both NoSpecial c.accept_defaults _ _ (λ e. h) (λ e. h)

one_name : (c : ConsumerCmd) → ((if c.ephemeral then c.consumer else []) ≡ []) ⊎ (durable_of c ≡ [])
one_name c = elim (Bool-cases c.ephemeral) [ inl e ↦ inr (rw e refl) | inr e ↦ inl (rw e refl) ]

settle_consumer-Gives :
    (ext : Externals) (c : ConsumerCmd) → NoSpecial c → Gives IsSound (settle_consumer ext c)
unfolding settle_consumer created_consumer created_delivery created_acks Starts
settle_consumer-Gives ext c h =
    >>=-Gives (ask_policies ext c) _ Starts IsSound (ask_policies-Gives ext c) (λ n hn.
      >>=-Gives (ask_filters c n.start.deliver_policy) _ OneFilter IsSound
        (ask_filters-Gives c n.start.deliver_policy)
        (λ filters hf. >>=-Gives_any (ask_max_deliver c n.ack) _ IsSound (λ deliver.
          >>=-Gives_any (ask_max_ack_pending c n.ack) _ IsSound (λ pending.
            >>=-Gives (ask_heartbeat ext c) _ _ IsSound (ask_heartbeat-Gives ext c) (λ heartbeat hh.
              >>=-Gives (ask_flow_control c) _ _ IsSound (ask_flow_control-Gives c) (λ flow hw.
                >>=-Gives_any (ask_headers_only c) _ IsSound (λ headers.
                  >>=-Gives_any (ask_backoff ext c n.ack) _ IsSound (λ b.
                    >>=-Gives_any (settle_backoff ext b) _ IsSound (λ back.
                      >>=-Gives (check_pull c) _ _ IsSound (check_pull-Gives c) (λ u hu.
                        >>=-Gives_any (settle_pause ext c.pause_until) _ IsSound (λ pause.
                          >>=-Gives_any (settle_priorities c) _ IsSound (λ priorities.
                            pure-Gives IsSound _ (record {
                              one_name = (one_name c, h);
                              one_way = (λ e. (hh e, hw e, hu e), λ e. rw e refl);
                              counted = created_acks-Counted c n.ack back deliver pending;
                              one_filter = hf;
                              consistent = hn;
                            })))))))))))))

-- A consumer that is made of flags and answers has not both a name and a durable name, and a durable name is
-- free of `.`, `*` and `>`; it is pulled from without a heartbeat, flow control and rate limit, or it is
-- pushed to and no pulls wait; its deliveries are not counted without acknowledgement; it has one filter or
-- a list of them; and it has a start sequence or time only where it starts by one.
pub prepare_consumer_from_flags-IsSound :
    (ext : Externals) (c : ConsumerCmd) (t : Terminal) (cfg : ConsumerConfig)
    → (prepare_consumer_from_flags ext c t).0 ≡ inr cfg
    → IsSound cfg
unfolding prepare_consumer_from_flags
prepare_consumer_from_flags-IsSound ext c = >>=-Gives_any (ask_consumer_name c) _ IsSound (λ named.
    >>=-Gives (check_durable named) _ NoSpecial IsSound (check_durable-Gives named) (λ checked h.
      >>=-Gives (ask_target checked) _ NoSpecial IsSound (ask_target-Gives checked h) (λ target h'.
        settle_consumer-Gives ext (default_consumer_flags target) (defaults-NoSpecial target h'))))
