-- ===== src/Streams/Create/Settled.antt =====
-- With what the defaults leave, nothing is asked.
use natscli.Prelude.{
  Bool, true, false, List, [], ◌∷◌, Option, none, some, ◌≡◌, refl, Text, if◌then◌else◌,
}
use natscli.Prelude.Int.{ℤ}
use natscli.Dialog.{Refusal, or_refuse}
use natscli.Dialog.Quiet.{IsQuiet, >>=-IsQuiet, or_refuse-IsQuiet, if-IsQuiet}
use natscli.Streams.{StreamCmd, Externals, StreamConfig, Storage}
use natscli.Streams.Names.{
  is_empty, check_repub_transform, retention_policy_from_string, discard_policy_from_string,
}
use natscli.Streams.Edit.{is_zero}
use natscli.Streams.Sources.{is_json_object_string, parse_stream_source, ask_mirror, ask_source}
use natscli.Streams.Create.{
  lift, ask_text, ask_storage, ask_replicas, ask_msgs, ask_msgs_per, ask_max_bytes, ask_max_age,
  ask_max_msg_size, ask_window, ask_limits, ask_switches,
}
use natscli.Streams.Create.Config.{
  ask_for_mirror, ask_for_sources, complete, name_policies, settle, unless_refused,
}
use natscli.Streams.Create.Quietly.{
  lift-IsQuiet, ask_text-IsQuiet, ask_storage-IsQuiet, ask_replicas-IsQuiet, ask_msgs-IsQuiet,
  ask_msgs_per-IsQuiet, ask_max_bytes-IsQuiet, ask_max_age-IsQuiet, ask_max_msg_size-IsQuiet,
  ask_window-IsQuiet,
}

-- What the defaults leave is complete.
pub record IsComplete (c : StreamCmd) : Type 0 where
  pub accepts : c.accept_defaults ≡ true
  pub storage_named : is_empty c.policies.storage ≡ false
  pub retention_named : is_empty c.policies.retention_policy_s ≡ false
  pub discard_named : is_empty c.policies.discard_policy ≡ false
  pub replicas_set : is_zero c.limits.replicas ≡ false
  pub msgs_set : is_zero c.limits.max_msg_limit ≡ false
  pub per_set : is_zero c.limits.max_msg_per_subject_limit ≡ false
  pub bytes_set : is_zero c.limits.max_bytes_limit ≡ false
  pub age_set : is_empty c.limits.max_age_limit ≡ false
  pub size_set : is_zero c.limits.max_msg_size ≡ false

ask_limits-IsQuiet :
    (ext : Externals) (require_size : Bool) (c : StreamCmd) (replicas : ℤ)
    → IsComplete c
    → IsQuiet (ask_limits ext require_size c replicas)
unfolding ask_limits
ask_limits-IsQuiet ext require_size c replicas h =
    >>=-IsQuiet (ask_msgs c.limits.max_msg_limit) _
      (ask_msgs-IsQuiet c.limits.max_msg_limit h.msgs_set)
      (λ msgs.
        >>=-IsQuiet (ask_msgs_per c.subjects c.limits.max_msg_per_subject_limit) _
          (ask_msgs_per-IsQuiet c.subjects _ h.per_set)
          (λ per.
            >>=-IsQuiet (ask_max_bytes require_size c.limits.max_bytes_limit) _
              (ask_max_bytes-IsQuiet require_size c.limits.max_bytes_limit h.bytes_set)
              (λ bytes.
                >>=-IsQuiet (ask_max_age ext.numbers c.limits.max_age_limit) _
                  (ask_max_age-IsQuiet ext.numbers _ h.age_set)
                  (λ age.
                    >>=-IsQuiet (ask_max_msg_size c.limits.max_msg_size) _
                      (ask_max_msg_size-IsQuiet c.limits.max_msg_size h.size_set)
                      (λ size.
                        >>=-IsQuiet
                          (ask_window ext c.accept_defaults c.mirror c.limits.dupe_window age) _
                          (rw h.accepts (ask_window-IsQuiet ext c.mirror c.limits.dupe_window age))
                          (λ window t. refl))))))

parse_stream_source-IsQuiet :
    (ext : Externals) (source : Text) → IsQuiet (parse_stream_source ext source)
unfolding parse_stream_source
parse_stream_source-IsQuiet ext source =
    if-IsQuiet (is_json_object_string source) _ _
      (λ e.
        >>=-IsQuiet (or_refuse (ext.read_source source) Refusal.invalid_input) _
          (or_refuse-IsQuiet _ _)
          (λ s. if-IsQuiet (is_empty s.name) _ _ (λ n t. refl) (λ n t. refl)))
      (λ e t. refl)

ask_for_mirror-IsQuiet :
    (ext : Externals) (c : StreamCmd) → c.accept_defaults ≡ true → IsQuiet (ask_for_mirror ext c)
unfolding ask_for_mirror ask_mirror
ask_for_mirror-IsQuiet ext c h =
    if-IsQuiet (is_empty c.mirror) _ _ (λ e t. refl)
      (λ e.
        >>=-IsQuiet
          (if is_json_object_string c.mirror
            then parse_stream_source ext c.mirror
            else ask_mirror ext c.accept_defaults c.mirror)
          _
          (if-IsQuiet (is_json_object_string c.mirror) _ _
            (λ j. parse_stream_source-IsQuiet ext c.mirror) (λ j. rw h (λ t. refl)))
          (λ s t. refl))

ask_for_sources-IsQuiet :
    (ext : Externals) (sources : List Text) → IsQuiet (ask_for_sources ext true sources)
unfolding ask_for_sources ask_source
ask_for_sources-IsQuiet ext [] = λ t. refl
ask_for_sources-IsQuiet ext (source ∷ sources) =
    >>=-IsQuiet
      (if is_json_object_string source
        then parse_stream_source ext source
        else ask_source ext true source)
      _
      (if-IsQuiet (is_json_object_string source) _ _ (λ j. parse_stream_source-IsQuiet ext source)
        (λ j t. refl))
      (λ s.
        >>=-IsQuiet (ask_for_sources ext true sources) _ (ask_for_sources-IsQuiet ext sources)
          (λ ss t. refl))

unless_refused-IsQuiet : (o : Option Refusal) → IsQuiet (unless_refused o)
unless_refused-IsQuiet none t = refl
unless_refused-IsQuiet (some e) t = refl

ask_switches-IsQuiet :
    (c : StreamCmd) → c.accept_defaults ≡ true → IsQuiet (ask_switches c.accept_defaults c.switches)
unfolding ask_switches
ask_switches-IsQuiet c h = rw h (λ t. refl)

complete-IsQuiet :
    (ext : Externals) (c : StreamCmd) (cfg : StreamConfig)
    → c.accept_defaults ≡ true
    → IsQuiet (complete ext c cfg)
unfolding complete
complete-IsQuiet ext c cfg h =
    >>=-IsQuiet (ask_for_mirror ext c) _ (ask_for_mirror-IsQuiet ext c h) (λ m.
      >>=-IsQuiet (ask_for_sources ext c.accept_defaults c.sources) _
        (rw h (ask_for_sources-IsQuiet ext c.sources))
        (λ ss.
          >>=-IsQuiet (unless_refused (check_repub_transform c)) _ (unless_refused-IsQuiet _)
            (λ u t. refl)))

name_policies-IsQuiet :
    (storage : Storage) (retention discard : Text)
    → IsQuiet (name_policies storage retention discard)
unfolding name_policies
name_policies-IsQuiet storage retention discard =
    >>=-IsQuiet (lift (retention_policy_from_string retention)) _ (lift-IsQuiet _) (λ r.
      >>=-IsQuiet (lift (discard_policy_from_string discard)) _ (lift-IsQuiet _) (λ d t. refl))

pub settle-IsQuiet :
    (ext : Externals) (require_size : Bool) (c : StreamCmd)
    → IsComplete c
    → IsQuiet (settle ext require_size c)
unfolding settle
settle-IsQuiet ext require_size c h =
    >>=-IsQuiet (ask_storage c.policies.storage) _ (ask_storage-IsQuiet _ h.storage_named)
      (λ storage.
        >>=-IsQuiet (or_refuse (ext.compression_of c.compression.value) Refusal.invalid_compression)
          _ (or_refuse-IsQuiet _ _)
          (λ compression.
            >>=-IsQuiet (ask_replicas c.limits.replicas) _
              (ask_replicas-IsQuiet c.limits.replicas h.replicas_set)
              (λ replicas.
                >>=-IsQuiet (ask_text c.policies.retention_policy_s) _
                  (ask_text-IsQuiet _ h.retention_named)
                  (λ retention.
                    >>=-IsQuiet (ask_text c.policies.discard_policy) _
                      (ask_text-IsQuiet _ h.discard_named)
                      (λ discard.
                        >>=-IsQuiet (ask_limits ext require_size c replicas) _
                          (ask_limits-IsQuiet ext require_size c replicas h)
                          (λ limits.
                            >>=-IsQuiet (ask_switches c.accept_defaults c.switches) _
                              (ask_switches-IsQuiet c h.accepts)
                              (λ switches.
                                >>=-IsQuiet (name_policies storage retention discard) _
                                  (name_policies-IsQuiet storage retention discard)
                                  (λ policies. complete-IsQuiet ext c _ h.accepts))))))))
