-- ===== src/Consumers/Edit/Kept.antt =====
-- What an edit keeps.
use natscli.Prelude.{
  true, List, [], ◌∷◌, ◌⊎◌, inl, inr, ◌≡◌, refl, sym, ap, ◌∙◌, arith, Text, str_eq, Sum-cases,
}
use natscli.Prelude.Int.{ℤ}
use natscli.Streams.Names.{is_empty}
use natscli.Streams.Edit.Repeated.{kept_again, set_again}
use natscli.Streams.Edit.{is_zero, is_minus_one, is_nil}
use natscli.Consumers.{Pulls, Filters, ConsumerConfig, ConsumerCmd, Externals}
use natscli.Consumers.Edit.{
  is_positive, is_minus_second, edit_filters, edit_pulls, edit_sample, edit_backoff,
  edited_consumer, copy_and_edit_consumer,
}

-- A consumer has one filter, or a list of them, not both.
abbrev pub OneFilter : Filters → Type 0
OneFilter f = (is_empty f.filter_subject ≡ true) ⊎ (is_nil f.filter_subjects ≡ true)

pub edit_filters-OneFilter :
    (ss : List Text) (f : Filters) → OneFilter f → OneFilter (edit_filters ss f)
unfolding edit_filters str_eq
edit_filters-OneFilter [] f h = h
edit_filters-OneFilter (s ∷ []) f h = inr refl
edit_filters-OneFilter (s ∷ t ∷ ss) f h = inl refl

edit_filters_again :
    (ss : List Text) (f : Filters) → edit_filters ss (edit_filters ss f) ≡ edit_filters ss f
unfolding edit_filters
edit_filters_again [] f = refl
edit_filters_again (s ∷ []) f = refl
edit_filters_again (s ∷ t ∷ ss) f = refl

edit_pulls_again : (c : ConsumerCmd) (p : Pulls) → edit_pulls c (edit_pulls c p) ≡ edit_pulls c p
unfolding edit_pulls
edit_pulls_again c p = ground arith

edit_sample_again :
    (pct : ℤ) (old new : Text) → edit_sample pct old ≡ inr new → edit_sample pct new ≡ inr new
unfolding edit_sample
edit_sample_again pct old new h = ground arith

edit_backoff_again :
    (ext : Externals) (c : ConsumerCmd) (old new : List ℤ)
    → edit_backoff ext c old ≡ inr new
    → edit_backoff ext c new ≡ inr new
unfolding edit_backoff
edit_backoff_again ext c old new h = ground arith

-- What no flag of an edit reaches.
abbrev pub SameConsumer : ConsumerConfig → ConsumerConfig → Type 0
SameConsumer a b =
    (b.name ≡ a.name)
    × (b.durable ≡ a.durable)
    × (b.start ≡ a.start)
    × (b.acks.ack_policy ≡ a.acks.ack_policy)
    × (b.priorities ≡ a.priorities)
    × (b.replay_policy ≡ a.replay_policy)
    × (b.delivery.deliver_group ≡ a.delivery.deliver_group)
    × (b.pause_until ≡ a.pause_until)

edited_consumer_again :
    (c : ConsumerCmd) (cfg : ConsumerConfig) (sample : Text) (back : List ℤ)
    → edited_consumer c (edited_consumer c cfg sample back) sample back
      ≡ edited_consumer c cfg sample back
unfolding edited_consumer
edited_consumer_again c cfg sample back =
    rw
      (
        edit_filters_again c.filter_subjects cfg.filters,
        edit_pulls_again c cfg.pulls,
        kept_again (is_empty c.description) c.description cfg.description,
        kept_again (is_zero c.inactive_threshold) c.inactive_threshold cfg.inactive_threshold,
        kept_again (is_zero c.max_deliver) c.max_deliver cfg.acks.max_deliver,
        kept_again (is_minus_one c.max_ack_pending) c.max_ack_pending cfg.acks.max_ack_pending,
        kept_again (is_minus_second c.ack_wait) c.ack_wait cfg.acks.ack_wait,
        kept_again (is_zero c.max_waiting) c.max_waiting cfg.delivery.max_waiting,
        kept_again (is_empty c.delivery) c.delivery cfg.delivery.deliver_subject,
        set_again c.headers_only.is_set c.headers_only.value cfg.headers_only,
        set_again (is_positive c.replicas) c.replicas cfg.replicas,
        set_again c.metadata.is_set c.metadata.value cfg.metadata,
      )
      refl

-- An edit that was accepted is one of its parts.
edit_parts :
    (ext : Externals) (c : ConsumerCmd) (cfg new : ConsumerConfig)
    → is_empty c.input_file ≡ true
    → copy_and_edit_consumer ext c cfg ≡ inr new
    → (sample : Text) × (back : List ℤ) × (edit_sample c.sample_pct cfg.sample_frequency
        ≡ inr sample)
      × (edit_backoff ext c cfg.acks.back_off ≡ inr back)
      × (edited_consumer c cfg sample back ≡ new)
unfolding copy_and_edit_consumer
edit_parts ext c cfg new f h = elim (Sum-cases (edit_sample c.sample_pct cfg.sample_frequency)) [
  | inl (e, k) ↦ ground arith
  | inr (sample, k) ↦ elim (Sum-cases (edit_backoff ext c cfg.acks.back_off)) [
    | inl (e, m) ↦ ground arith
    | inr (back, m) ↦ (sample, back, k, m, ground arith)
  ]
]

edit_of_parts :
    (ext : Externals) (c : ConsumerCmd) (cfg : ConsumerConfig) (sample : Text) (back : List ℤ)
    → is_empty c.input_file ≡ true
    → edit_sample c.sample_pct cfg.sample_frequency ≡ inr sample
    → edit_backoff ext c cfg.acks.back_off ≡ inr back
    → copy_and_edit_consumer ext c cfg ≡ inr (edited_consumer c cfg sample back)
unfolding copy_and_edit_consumer
edit_of_parts ext c cfg sample back f hs hb = rw (f, hs, hb) refl

-- An edit by flags that is accepted is accepted again on its own result, and then changes nothing; a
-- consumer that had one filter or a list of them, not both, still has; and the consumer's name, start,
-- policies of acknowledgement, replay and priority, group and pause stay as they were.
pub copy_and_edit_consumer_lem :
    (ext : Externals) (c : ConsumerCmd) (cfg new : ConsumerConfig)
    → is_empty c.input_file ≡ true
    → copy_and_edit_consumer ext c cfg ≡ inr new
    → (copy_and_edit_consumer ext c new ≡ inr new)
      × (OneFilter cfg.filters → OneFilter new.filters)
      × SameConsumer cfg new
unfolding edited_consumer
copy_and_edit_consumer_lem ext c cfg new f h =
    let (sample, back, hs, hb, same) = edit_parts ext c cfg new f h in
    rw (sym same) (
      edit_of_parts ext c (edited_consumer c cfg sample back) sample back f
            (edit_sample_again c.sample_pct cfg.sample_frequency sample hs)
            (edit_backoff_again ext c cfg.acks.back_off back hb)
          ∙ ap inr (edited_consumer_again c cfg sample back),
      edit_filters-OneFilter c.filter_subjects cfg.filters,
      (refl, refl, refl, refl, refl, refl, refl, refl),
    )
