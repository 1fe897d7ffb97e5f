-- ===== src/Consumers/Edit/Examples.antt =====
-- An edit of the filters and the samples.
use natscli.Prelude.{[], ◌∷◌, inr, ◌≡◌, refl, codes, str_eq}
use natscli.Prelude.Int.{pos}
use natscli.Consumers.{ConsumerConfig, ConsumerCmd}
use natscli.Consumers.Samples.{externals, stored_consumer, plain_consumer}
use natscli.Consumers.Names.{sample_freq_from_int}
use natscli.Consumers.Edit.{
  copy_and_edit_consumer, edit_sample, edit_backoff, edited_consumer, edit_filters, edit_pulls,
}
use natscli.Consumers.Edit.Kept.{OneFilter, SameConsumer, copy_and_edit_consumer_lem}

abbrev one_filter : ConsumerCmd
one_filter = record plain_consumer { filter_subjects = codes "c" ∷ []; sample_pct = pos 0 }

abbrev filtered : ConsumerConfig
filtered = record stored_consumer {
  filters = record { filter_subject = codes "c"; filter_subjects = [] };
}

edits : copy_and_edit_consumer externals one_filter stored_consumer ≡ inr filtered
unfolding copy_and_edit_consumer edit_sample edit_backoff edited_consumer edit_filters edit_pulls
    sample_freq_from_int str_eq
edits = refl

copy_and_edit_consumer_lem_example :
    (copy_and_edit_consumer externals one_filter filtered ≡ inr filtered)
    × (OneFilter stored_consumer.filters → OneFilter filtered.filters)
    × SameConsumer stored_consumer filtered
unfolding str_eq
copy_and_edit_consumer_lem_example =
    copy_and_edit_consumer_lem externals one_filter stored_consumer filtered refl edits
