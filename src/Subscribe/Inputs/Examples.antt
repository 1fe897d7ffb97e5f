-- ===== src/Subscribe/Inputs/Examples.antt =====
-- A subscription to a work queue, which uses direct gets; and a report of no subjects.
use natscli.Prelude.{◌≤◌, true, false, [], ◌∷◌, inr, some, ◌≡◌, refl, codes, str_eq}
use natscli.Prelude.Int.{pos}
use natscli.Subscribe.Inputs.{
  Retention, Server, Inputs, is_jetstream, with_subjects, flags_error, stream_name, use_direct,
  stream_error, checked, found, named, validate_rest, validate_inputs, make_consumer_config,
  Deliver,
}
use natscli.Subscribe.Inputs.Accepted.{Consistent, Subjects, OfStream, validate_inputs-Accepted}

abbrev plain : Inputs
plain = record {
  subjects = codes "orders" ∷ [];
  queue = [];
  durable = [];
  stream = [];
  sseq = 0;
  deliver_all = false;
  deliver_new = false;
  deliver_last = false;
  deliver_since = [];
  deliver_last_per_subject = false;
  direct = false;
  inbox = false;
  stop_at_pending_zero = false;
  dump = [];
  report_subjects = false;
  report_subjects_count = 10;
  report_sub = false;
  time_stamps = false;
  delta_time_stamps = false;
  backup = [];
  graph_only = false;
  quiet = false;
  match_replies = false;
}

abbrev work : Inputs
work = record plain { deliver_all = true }

abbrev server : Server
server = record {
  stream_name_by_subject = λ s. some (codes "S");
  stream_info = λ s. some (record { retention = Retention.work_queue; allow_direct = true });
  api_level = true;
}

abbrev settled : Inputs
settled = record work { stream = codes "S"; direct = true }

accepted : validate_inputs server (codes "_INBOX.1") true work ≡ inr settled
unfolding validate_inputs with_subjects validate_rest flags_error named found checked stream_name
    stream_error use_direct is_jetstream str_eq
accepted = refl

-- --report-subscriptions reports subjects after their count was checked
no_count :
    validate_inputs server [] true (record plain { report_sub = true; report_subjects_count = 0 })
    ≡ inr (record plain { report_sub = true; report_subjects_count = 0; report_subjects = true })
unfolding validate_inputs with_subjects validate_rest flags_error named found checked stream_name
    stream_error use_direct is_jetstream str_eq
no_count = refl

deliver :
    make_consumer_config (λ t. some (pos 5)) (record plain { deliver_since = codes "5s" })
    ≡ some (Deliver.since (pos 5))
unfolding make_consumer_config str_eq
deliver = refl

validate_inputs-Accepted_example :
    (1 ≤ 1 → str_eq [] [] ≡ true)
    × Consistent (is_jetstream work) work
    × Subjects (codes "_INBOX.1") work settled
    × (false ≡ false)
    × (is_jetstream work ≡ true → OfStream server work settled)
validate_inputs-Accepted_example =
    validate_inputs-Accepted server (codes "_INBOX.1") true work settled accepted
