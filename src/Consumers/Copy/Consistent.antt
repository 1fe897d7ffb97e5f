-- ===== src/Consumers/Copy/Consistent.antt =====
-- What a copy delivers to.
use natscli.Prelude.{true, false, [], inr, ◌≡◌, refl, arith, Text, str_eq, if◌then◌else◌}
use natscli.Prelude.Int.{ℤ, pos}
use natscli.Streams.Names.{is_empty}
use natscli.Consumers.{Delivery, ConsumerConfig, ConsumerCmd, Externals}
use natscli.Consumers.Names.{set_start_policy, ack_policy_from_string, replay_policy_from_string}
use natscli.Streams.Edit.Parts.{attempt-Ends, inr-Ends}
use natscli.Consumers.Edit.{edit_sample, edit_backoff}
use natscli.Consumers.Copy.{
  copy_target, copy_heartbeat, without_push, copy_group, copy_delivery, named_policy, copied,
  cp_config,
}

-- With no subject to deliver to there is no heartbeat and no flow control.
abbrev pub PullOnly : Delivery → Type 0
PullOnly d = is_empty d.deliver_subject ≡ true → (d.heartbeat ≡ pos 0) × (d.flow_control ≡ false)

-- The target is the flag's or the source's, and none where the copy is to be pulled from.
abbrev pub Targets : ConsumerCmd → Delivery → Delivery → Type 0
Targets c old new =
    (c.pull ≡ true → new.deliver_subject ≡ [])
    × (c.pull ≡ false → is_empty c.delivery ≡ true → new.deliver_subject ≡ old.deliver_subject)
    × (c.pull ≡ false → is_empty c.delivery ≡ false → new.deliver_subject ≡ c.delivery)

-- A group is kept only where it is given along with a target.
abbrev pub Groups : ConsumerCmd → Delivery → Type 0
Groups c d =
    (is_empty d.deliver_group ≡ false)
    → (is_empty c.delivery ≡ false) × (d.deliver_group ≡ c.delivery_group)

copy_delivery_lem :
    (c : ConsumerCmd) (heartbeat : ℤ) (d : Delivery)
    → PullOnly (copy_delivery c heartbeat d)
      × Targets c d (copy_delivery c heartbeat d)
      × Groups c (copy_delivery c heartbeat d)
unfolding copy_delivery copy_target without_push copy_group str_eq
copy_delivery_lem c heartbeat d = (
  λ e. (ground arith, ground arith),
  (λ p. ground arith, λ p e. ground arith, λ p e. ground arith),
  λ e. (ground arith, ground arith),
)

-- A copy that is accepted is durable under the new name unless it is ephemeral; it delivers to the flag's
-- target, or the source's, or is pulled from if that is asked for; it has a heartbeat and flow control only
-- where it delivers to a subject; and it has the group that is given along with a target, or none.
pub cp_config_lem :
    (ext : Externals) (c : ConsumerCmd) (destination : Text) (cfg new : ConsumerConfig)
    → cp_config ext c destination cfg ≡ inr new
    → (new.durable ≡ (if c.ephemeral then [] else destination))
      × PullOnly new.delivery
      × Targets c cfg.delivery new.delivery
      × Groups c new.delivery
unfolding cp_config copied
cp_config_lem ext c destination cfg =
    let P : ConsumerConfig → Type 0 = λ new.
      (new.durable ≡ (if c.ephemeral then [] else destination))
      × PullOnly new.delivery
      × Targets c cfg.delivery new.delivery
      × Groups c new.delivery in
    attempt-Ends P (edit_sample c.sample_pct cfg.sample_frequency) _ (λ sample h1.
      attempt-Ends P (set_start_policy ext c.start_policy cfg.start) _ (λ start h2.
        attempt-Ends P (named_policy c.ack_policy cfg.acks.ack_policy ack_policy_from_string) _
          (λ ack h3.
            attempt-Ends P
              (named_policy c.replay_policy cfg.replay_policy replay_policy_from_string) _
              (λ replay h4.
                attempt-Ends P (copy_heartbeat ext c cfg.delivery.heartbeat) _ (λ heartbeat h5.
                  attempt-Ends P (edit_backoff ext c cfg.acks.back_off) _ (λ back h6.
                    let new = copied c destination cfg sample start ack replay heartbeat back in
                    let (pull, target, group) = copy_delivery_lem c heartbeat cfg.delivery in
                    inr-Ends P new (refl, pull, target, group)))))))
