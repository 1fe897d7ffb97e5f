-- ===== src/Consumers/Commands/Updates.antt =====
-- When a consumer is stored.
use natscli.Prelude.{
  ℕ, ◌≤◌, Bool, true, false, not, ◌&&◌, ◌⊎◌, inr, some, ◌≡◌, arith, if◌then◌else◌,
}
use natscli.Prelude.Int.{ℤ, eq_of_parts}
use natscli.Dialog.{Terminal, pure, ask_confirmation}
use natscli.Dialog.Quiet.{Gives, >>=-Gives, >>=-Gives_any, pure-Gives, refuse-Gives, if-Gives}
use natscli.Streams.Edit.{is_nil}
use natscli.Streams.Commands.{Modes}
use natscli.Consumers.{ConsumerConfig, ConsumerCmd, Externals, priority_pinned_client}
use natscli.Consumers.Level.{check_config_level, NeedsNone, check_config_level_iff}
use natscli.Consumers.Commands.{
  ConsumerServer, ConsumerOutcome, unchanged, differs_only, declined, checked, written, stored,
  without_reserved, different, edit_of_consumer, check_ack_wait, store_consumer, confirmed_store,
  apply_consumer_edit, edit_consumer_action,
}

-- The configuration has no pause, no priority groups and no policy for them, or the meta leader's level is 1
-- at least, and 2 at least for a pinned client.
abbrev pub Supported : ConsumerServer → ConsumerConfig → Type 0
Supported srv cfg =
    NeedsNone cfg
    ⊎ ((n : ℕ) × (srv.meta_api_level ≡ some n)
        × (1 ≤ n)
        × (cfg.priorities.policy ≡ priority_pinned_client → 2 ≤ n))

-- With a backoff, the wait for an acknowledgement stays as it was.
abbrev pub KeepsWait : ConsumerConfig → ConsumerConfig → Type 0
KeepsWait t new = is_nil new.acks.back_off ≡ false → new.acks.ack_wait ≡ t.acks.ack_wait

-- What is stored comes of an edit of a durable consumer, is supported, and no dry run was asked for.
abbrev pub IsStore : ConsumerServer → Modes → ConsumerConfig → ConsumerConfig → Type 0
IsStore srv m source new =
    (srv.is_durable source ≡ true) × (m.dry_run ≡ false) × Supported srv new × KeepsWait source new

abbrev pub Stores : (ConsumerConfig → Type 0) → ConsumerOutcome → Type 0
Stores P unchanged = Unit
Stores P differs_only = Unit
Stores P declined = Unit
Stores P checked = ⊥
Stores P (written cfg) = ⊥
Stores P (stored cfg) = P cfg

same_wait : (a b : ℤ) → different a b ≡ false → a ≡ b
same_wait a b h = eq_of_parts a b (ground arith)

store_consumer-Stores :
    (srv : ConsumerServer) (cfg : ConsumerConfig) (P : ConsumerConfig → Type 0)
    → (Supported srv cfg → P cfg)
    → Gives (Stores P) (store_consumer srv cfg)
unfolding store_consumer
store_consumer-Stores srv cfg P h =
    if-Gives (Stores P) (check_config_level srv.meta_api_level cfg) _ _
      (λ e.
        pure-Gives (Stores P) (stored cfg)
          (h ((check_config_level_iff srv.meta_api_level cfg).0 e)))
      (λ e. refuse-Gives (Stores P) _)

apply_edit-Stores :
    (srv : ConsumerServer) (m : Modes) (t new : ConsumerConfig) (P : ConsumerConfig → Type 0)
    → (m.dry_run ≡ false → Supported srv new → P new)
    → Gives (Stores P) (apply_consumer_edit srv m t new)
unfolding apply_consumer_edit confirmed_store
apply_edit-Stores srv m t new P h =
    if-Gives (Stores P) (not (srv.differs t new)) _ _ (λ e. pure-Gives (Stores P) unchanged tt)
      (λ e.
        if-Gives (Stores P) m.dry_run _ _ (λ d. pure-Gives (Stores P) differs_only tt)
          (λ d. >>=-Gives_any (if m.force then pure true else ask_confirmation) _ (Stores P) (λ ok.
            if-Gives (Stores P) (not ok) _ _ (λ k. pure-Gives (Stores P) declined tt)
              (λ k. store_consumer-Stores srv new P (h d)))))

only_guard : (a b : Bool) → (not a && b) ≡ false → a ≡ false → b ≡ false
only_guard a b h k = ground arith

check_ack_wait-Gives :
    (t new : ConsumerConfig) → Gives (λ u. KeepsWait t new) (check_ack_wait t new)
unfolding check_ack_wait
check_ack_wait-Gives t new =
    let P : Unit {0} → Type 0 = λ u. KeepsWait t new in
    if-Gives P (not (is_nil new.acks.back_off) && different new.acks.ack_wait t.acks.ack_wait) _ _
      (λ e. refuse-Gives P _)
      (λ e. pure-Gives P tt (λ b. same_wait _ _ (only_guard (is_nil new.acks.back_off) _ e b)))

-- An edit stores a consumer at most when the consumer is durable, outside a dry run, where the meta leader's
-- level supports it, and with the wait for acknowledgements as it was if there is a backoff. It
-- writes no file.
pub edit_consumer_action-Stores :
    (ext : Externals) (srv : ConsumerServer) (m : Modes) (c : ConsumerCmd) (source : ConsumerConfig)
    (t : Terminal) (out : ConsumerOutcome)
    → (edit_consumer_action ext srv m c source t).0 ≡ inr out
    → Stores (IsStore srv m source) out
unfolding edit_consumer_action
edit_consumer_action-Stores ext srv m c source =
    let P = IsStore srv m source in
    let input = without_reserved ext source in
    if-Gives (Stores P) (not (srv.is_durable source)) _ _ (λ e. refuse-Gives (Stores P) _)
      (λ e. >>=-Gives_any (edit_of_consumer ext srv m c input) _ (Stores P) (λ new.
        >>=-Gives (check_ack_wait input new) _ (λ u. KeepsWait input new) (Stores P)
          (check_ack_wait-Gives input new)
          (λ u keeps.
            apply_edit-Stores srv m (without_reserved ext input) (without_reserved ext new) P
              (λ d supported. (ground arith, d, supported, keeps)))))
