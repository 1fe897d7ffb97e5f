-- ===== src/Streams/Commands/Updates.antt =====
-- When a command changes the server.
use natscli.Prelude.{
  ℕ, ◌≤◌, true, false, not, ◌||◌, ◌⊎◌, inl, inr, some, ◌≡◌, refl, sym, ◌∙◌, arith, Text,
  if◌then◌else◌, Option-cases,
}
use natscli.Checks.Streams.Agreement.{true-ne-false}
use natscli.Dialog.{Terminal, Refusal, pure, ask_confirmation}
use natscli.Dialog.Quiet.{Gives, >>=-Gives, >>=-Gives_any, pure-Gives, refuse-Gives, if-Gives}
use natscli.Streams.{StreamConfig, StreamCmd, Externals}
use natscli.Streams.Edit.{copy_and_edit_stream}
use natscli.Streams.Create.{lift}
use natscli.Streams.Commands.{
  Server, Modes, Outcome, unchanged, differs_only, declined, checked, written, updated, created,
  require_api_level, check_compatibility, compatible, kv_abstraction_warn, confirmed_update,
  apply_edit, edit_input, edit_of, edit_action,
}

-- The API level that a configuration needs, if it needs one.
abbrev pub Supported : Server → StreamConfig → Type 0
Supported srv cfg =
    (cfg.switches.allow_atomic_publish || cfg.switches.allow_msg_counter) ≡ true
    → (level : ℕ) × (srv.meta_api_level ≡ some level) × (2 ≤ level)

compatible-Supported :
    (srv : Server) (cfg : StreamConfig) → compatible srv cfg ≡ true → Supported srv cfg
unfolding check_compatibility require_api_level
compatible-Supported srv cfg h k = elim (Option-cases srv.meta_api_level) [
  | inl e ↦ ground arith
  | inr (level, e) ↦ (level, e, ground arith)
]

-- What is sent to the server was edited, differs, is supported, and no dry run was asked for.
abbrev pub IsUpdate : Externals → Server → Modes → StreamCmd → StreamConfig → StreamConfig → Type 0
IsUpdate ext srv m c input cfg =
    (srv.differs input cfg ≡ true)
    × (m.dry_run ≡ false)
    × Supported srv cfg
    × (m.interactive ≡ false → copy_and_edit_stream ext c input ≡ inr cfg)

-- An outcome that changes the server does so with an update, and no other does.
abbrev pub Changes : (StreamConfig → Type 0) → Outcome → Type 0
Changes P unchanged = Unit
Changes P differs_only = Unit
Changes P declined = Unit
Changes P checked = ⊥
Changes P (written cfg) = ⊥
Changes P (updated cfg) = P cfg
Changes P (created cfg) = ⊥

confirmed_update-Changes :
    (srv : Server) (m : Modes) (cfg : StreamConfig) (P : StreamConfig → Type 0)
    → (compatible srv cfg ≡ true → P cfg)
    → Gives (Changes P) (confirmed_update srv m cfg)
unfolding confirmed_update
confirmed_update-Changes srv m cfg P h =
    >>=-Gives_any (if m.force then pure true else ask_confirmation) _ (Changes P) (λ ok.
      if-Gives (Changes P) (not ok) _ _ (λ e. pure-Gives (Changes P) declined tt)
        (λ e.
          if-Gives (Changes P) (compatible srv cfg) _ _
            (λ k. pure-Gives (Changes P) (updated cfg) (h k)) (λ k. refuse-Gives (Changes P) _)))

apply_edit-Changes :
    (srv : Server) (m : Modes) (stream : Text) (input cfg : StreamConfig)
    (P : StreamConfig → Type 0)
    → (srv.differs input cfg ≡ true → m.dry_run ≡ false → compatible srv cfg ≡ true → P cfg)
    → Gives (Changes P) (apply_edit srv m stream input cfg)
unfolding apply_edit
apply_edit-Changes srv m stream input cfg P h =
    if-Gives (Changes P) (not (srv.differs input cfg)) _ _
      (λ e. pure-Gives (Changes P) unchanged tt)
      (λ e.
        if-Gives (Changes P) m.dry_run _ _ (λ d. pure-Gives (Changes P) differs_only tt)
          (λ d.
            >>=-Gives_any (if srv.is_kv_bucket_stream stream then kv_abstraction_warn else pure tt)
              _ (Changes P) (λ u. confirmed_update-Changes srv m cfg P (h (ground arith) d))))

lifted-Gives : {A : Type 0} (r : Refusal ⊎ A) → Gives (λ a. r ≡ inr a) (lift r)
lifted-Gives (inl e) = refuse-Gives (λ a. inl e ≡ inr a) e
lifted-Gives (inr a) = pure-Gives (λ b. inr a ≡ inr b) a refl

edit_of-Gives :
    (ext : Externals) (srv : Server) (m : Modes) (c : StreamCmd) (input : StreamConfig)
    → Gives
        (λ cfg. m.interactive ≡ false → copy_and_edit_stream ext c input ≡ inr cfg)
        (edit_of ext srv m c input)
unfolding edit_of
edit_of-Gives ext srv m c input =
    let P : StreamConfig → Type 0 =
      λ cfg. m.interactive ≡ false → copy_and_edit_stream ext c input ≡ inr cfg in
    if-Gives P m.interactive _ _ (λ e t cfg q h. absurd (true-ne-false (sym e ∙ h)))
      (λ e t cfg q h. lifted-Gives (copy_and_edit_stream ext c input) t cfg q)

-- An edit changes the server at most by updating the stream, to the edited configuration, which differs from
-- the stream's without the server's metadata, only outside a dry run and only if the meta leader's level
-- supports atomic batches and counters where the configuration has them. It makes no stream, and
-- writes no file.
pub edit_action-Changes :
    (ext : Externals) (srv : Server) (m : Modes) (c : StreamCmd) (source : StreamConfig)
    (t : Terminal) (out : Outcome)
    → (edit_action ext srv m c source t).0 ≡ inr out
    → Changes (IsUpdate ext srv m c (edit_input ext source)) out
unfolding edit_action
edit_action-Changes ext srv m c source =
    let input = edit_input ext source in
    let P = IsUpdate ext srv m c input in
    >>=-Gives (edit_of ext srv m c input) _
      (λ cfg. m.interactive ≡ false → copy_and_edit_stream ext c input ≡ inr cfg) (Changes P)
      (edit_of-Gives ext srv m c input)
      (λ cfg edit.
        apply_edit-Changes srv m c.stream input cfg P
          (λ d r k. (d, r, compatible-Supported srv cfg k, edit)))
