-- ===== src/Publish/Atomic/Examples.antt =====
-- A batch of two messages.
use natscli.Prelude.{[], ◌∷◌, ◌≢◌, ◌↔◌, none, some, ◌≡◌, refl, codes}
use natscli.Publish.Samples.{Pairs, packages, command, server}
use natscli.Publish.Message.{Message}
use natscli.Publish.Atomic.{write_atomic, refusal, commit_batch, add_messages}
use natscli.Publish.Atomic.Commit.{
  Accepts, TakesBatches, AllAdded, whole, stored, write_atomic_iff, write_atomic_bare,
}

abbrev plain : Message Pairs
plain = record { subject = codes "s.1"; reply = []; data_of = codes "x"; header = [] }

abbrev with_header : Message Pairs
with_header = record {
  subject = codes "s.2";
  reply = [];
  data_of = codes "y";
  header = (codes "n", codes "2") ∷ [];
}

accepted : Accepts server command plain (with_header ∷ [])
accepted = ((refl, (codes "S", refl, refl), refl), (refl, tt), refl)

-- the header of the last message and its subject are gone
bare_commit :
    stored packages (write_atomic server command (plain ∷ with_header ∷ []))
    ≡ plain ∷ record { subject = codes "s.#"; reply = []; data_of = codes "y"; header = [] } ∷ []
unfolding write_atomic refusal commit_batch add_messages
bare_commit = refl

write_atomic_iff_example :
    (((write_atomic server command (plain ∷ with_header ∷ [])).error ≡ none)
      ↔ Accepts server command plain (with_header ∷ []))
    × (Accepts server command plain (with_header ∷ [])
        → write_atomic server command (plain ∷ with_header ∷ [])
          ≡ whole command plain (with_header ∷ []))
    × ((write_atomic server command (plain ∷ with_header ∷ [])).committed ≢ none
        → TakesBatches server command.subject
          × AllAdded server 0 (plain ∷ [])
          × ((write_atomic server command (plain ∷ with_header ∷ [])).committed
              ≡ some (command.subject, codes "y")))
write_atomic_iff_example = write_atomic_iff server command plain (with_header ∷ [])

write_atomic_bare_run :
    (stored packages (write_atomic server command (plain ∷ with_header ∷ []))
      ≡ plain ∷ with_header ∷ [])
    ↔ ((with_header.subject ≡ command.subject)
        × (with_header.reply ≡ [])
        × (with_header.header ≡ packages.new_header))
write_atomic_bare_run = write_atomic_bare packages server command plain (with_header ∷ []) accepted
