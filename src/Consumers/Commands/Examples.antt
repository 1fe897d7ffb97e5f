-- ===== src/Consumers/Commands/Examples.antt =====
-- An edit of the description.
use natscli.Prelude.{true, false, not, [], inr, none, ◌≡◌, refl, codes, str_eq}
use natscli.Dialog.{Terminal}
use natscli.Streams.Commands.{Modes}
use natscli.Consumers.{ConsumerConfig, ConsumerCmd}
use natscli.Consumers.Samples.{externals, stored_consumer, plain_consumer}
use natscli.Consumers.Edit.{
  copy_and_edit_consumer, edit_sample, edit_backoff, edited_consumer, edit_filters, edit_pulls,
}
use natscli.Consumers.Level.{check_config_level, check_priorities}
use natscli.Consumers.Commands.{
  ConsumerServer, stored, edit_of_consumer, check_ack_wait, store_consumer, confirmed_store,
  apply_consumer_edit, edit_consumer_action,
}
use natscli.Consumers.Commands.Updates.{IsStore, edit_consumer_action-Stores}

abbrev server : ConsumerServer
server = record {
  meta_api_level = none;
  is_durable = λ cfg. not (str_eq cfg.durable []);
  differs = λ a b. not (str_eq a.description b.description);
  interactive_edit = λ cfg. none;
  is_valid = λ cfg. true;
}

abbrev forced : Modes
forced = record {
  interactive = false;
  dry_run = false;
  force = true;
  validate_only = false;
  out_file = [];
  no_validate = false;
}

abbrev closed : Terminal
closed = record { is_terminal = false; answers = [] }

abbrev described : ConsumerCmd
described = record plain_consumer { description = codes "orders" }

abbrev result : ConsumerConfig
result = record stored_consumer { description = codes "orders" }

stores :
    (edit_consumer_action externals server forced described stored_consumer closed).0
    ≡ inr (stored result)
unfolding edit_consumer_action edit_of_consumer check_ack_wait apply_consumer_edit confirmed_store
    store_consumer copy_and_edit_consumer edit_sample edit_backoff edited_consumer edit_filters
    edit_pulls check_config_level check_priorities str_eq
stores = refl

edit_consumer_action-Stores_example : IsStore server forced stored_consumer result
edit_consumer_action-Stores_example =
    edit_consumer_action-Stores externals server forced described stored_consumer closed
      (stored result) stores
