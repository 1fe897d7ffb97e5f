-- ===== src/Consumers/Copy/Examples.antt =====
-- Copies of a consumer that is pushed to a group.
use natscli.Prelude.{[], ◌∷◌, inr, ◌≡◌, refl, codes, str_eq}
use natscli.Consumers.{ConsumerConfig}
use natscli.Consumers.Samples.{externals, stored_consumer, plain_consumer}
use natscli.Consumers.Names.{set_start_policy}
use natscli.Consumers.Edit.{edit_sample, edit_backoff, edit_pulls}
use natscli.Consumers.Copy.{
  copy_target, copy_heartbeat, without_push, copy_group, copy_delivery, copy_filters, named_policy,
  copied, cp_config,
}
use natscli.Consumers.Copy.Consistent.{PullOnly, Targets, Groups, cp_config_lem}

-- the target is kept, the group is not
abbrev ungrouped : ConsumerConfig
ungrouped = record stored_consumer {
  durable = codes "D";
  delivery = record stored_consumer.delivery { deliver_group = [] };
}

copies : cp_config externals plain_consumer (codes "D") stored_consumer ≡ inr ungrouped
unfolding cp_config edit_sample edit_backoff set_start_policy copy_heartbeat copied copy_delivery
    copy_target without_push copy_group copy_filters named_policy edit_pulls str_eq
copies = refl

-- a filter is set beside the filters of the source
two_filters :
    copy_filters (codes "c" ∷ []) stored_consumer.filters
    ≡ record { filter_subject = codes "c"; filter_subjects = codes "a" ∷ codes "b" ∷ [] }
unfolding copy_filters
two_filters = refl

cp_config_lem_example :
    (codes "D" ≡ codes "D")
    × PullOnly ungrouped.delivery
    × Targets plain_consumer stored_consumer.delivery ungrouped.delivery
    × Groups plain_consumer ungrouped.delivery
cp_config_lem_example =
    cp_config_lem externals plain_consumer (codes "D") stored_consumer ungrouped copies
