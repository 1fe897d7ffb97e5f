-- ===== src/Publish/Atomic.antt =====
-- cli/pub_command.go: addToBatch, publishAtomicBatch and writeAtomic. What JetStream and the batch
-- publisher answer is a parameter. A round of the loop over the input is one of fuel.
pub mod Pending
pub mod Rounds
pub mod Commit
mod Examples
use natscli.Prelude.{
  ℕ, zero, suc, ◌+◌, Bool, true, false, ◌&&◌, ◌||◌, List, [], ◌∷◌, ◌++◌, ◌⊎◌, inl, inr, Option,
  none, some, Text, str_eq, if◌then◌else◌, length, get_or, take, get_or,
}
use natscli.Publish.Message.{Packages, Message, PubError, PubCmd, message}
use natscli.Publish.Stdin.{SendOn, Publisher, Reader, Read, read_stdin}

unfoldable pub is_eof : SendOn → Bool
is_eof SendOn.eof = true
is_eof SendOn.newline = false

-- what a round starts with: the read failed, there is no more to publish, or a body, whether the input
-- is at its end, and the pieces left
pub data Next : Type 0 where
  unread : PubError → Next
  stop : Next
  go : Text → Bool → List (Text × Bool) → Next

-- `always` is whether an empty body at the end stops the loop in both modes
unfoldable pub next_of : Bool → Bool → Read → Next
next_of always ended (inl e, rest) = unread e
next_of always ended (inr (body, new_eof), rest) =
    if str_eq body [] && (ended || new_eof) && always then stop else go body (ended || new_eof) rest

unfoldable pub next : Publisher → Bool → Bool → Text → Reader → Next
next pub_of always ended body r =
    if pub_of.use_stdin then next_of always ended (read_stdin pub_of r) else go body ended r.pieces

pub record Server {ℓ} (H : Type ℓ) : Type ℓ where
  pub client : Bool
  pub stream_name_by_subject : Text → Option Text
  pub allow_atomic : Text → Option Bool
  pub batch_publisher : Bool
  pub add_msg : ℕ → Message H → Bool
  pub commit : List (Message H) → Text → Text → Bool

-- the messages added to the batch, the subject and data of the commit that is sent, and the error that is
-- returned: a commit that is sent and answered with an error may have reached the stream
pub record Written {ℓ} (H : Type ℓ) : Type ℓ where
  pub added : List (Message H)
  pub committed : Option (Text × Text)
  pub error : Option PubError

stream_error : Option Bool → Option PubError
stream_error none = some PubError.no_stream
stream_error (some false) = some PubError.not_allowed
stream_error (some true) = none

module _ {ℓ} {H : Type ℓ} where
  unfoldable pub failed : PubError → Written H
  failed e = record { added = []; committed = none; error = some e }

  unfoldable pub add_messages : Server H → ℕ → List (Message H) → List (Message H) × Bool
  add_messages srv k [] = ([], true)
  add_messages srv k (m ∷ ms) =
      let (rest, done) = add_messages srv (k + 1) ms in
      if srv.add_msg k m then (m ∷ rest, done) else ([], false)

  unfoldable pub commit_batch : Server H → PubCmd → Message H → List (Message H) × Bool → Written H
  commit_batch srv c final (added, false) = record {
    added = added;
    committed = none;
    error = some PubError.add_failed;
  }
  commit_batch srv c final (added, true) =
      if srv.commit added c.subject final.data_of
      then record { added = added; committed = some (c.subject, final.data_of); error = none }
      else record {
        added = added;
        committed = some (c.subject, final.data_of);
        error = some PubError.commit_failed;
      }

  -- the checks of writeAtomic before a message is added
  unfoldable pub refusal : Server H → PubCmd → Option PubError
  unfolding stream_error
  refusal srv c =
      if srv.client
      then elim (srv.stream_name_by_subject c.subject) [
        | none ↦ some PubError.no_stream
        | some name ↦ elim (stream_error (srv.allow_atomic name)) [
          | some e ↦ some e
          | none ↦ if srv.batch_publisher then none else some PubError.no_batch
        ]
      ]
      else some PubError.no_client

  unfoldable pub write_atomic : Server H → PubCmd → List (Message H) → Written H
  write_atomic srv c [] = failed PubError.no_pending
  write_atomic srv c (m ∷ ms) = elim (refusal srv c) [
    | some e ↦ failed e
    | none ↦
        commit_batch srv c (get_or (m ∷ ms) (length ms) m)
          (add_messages srv 0 (take (length ms) (m ∷ ms)))
  ]

  unfoldable pub write_pending :
      Server H → PubCmd → Option (PubError ⊎ List (Message H)) → Option (Written H)
  write_pending srv c none = none
  write_pending srv c (some (inl e)) = some (failed e)
  write_pending srv c (some (inr pending)) = some (write_atomic srv c pending)

module _ {ℓ} {H : Type ℓ} (p : Packages H) (pub_of : Publisher) (c : PubCmd) where
  -- addToBatch from counter i on, with the rounds left: the messages pending, and the error
  unfoldable pub add_to_batch :
      ℕ → Text → ℕ → ℕ → List (Message H) → List (Message H) × Option PubError
  add_to_batch now body i zero pending = (pending, none)
  add_to_batch now body i (suc rounds) pending = elim (message p now pub_of.templates c body i) [
    | inl e ↦ (pending, some e)
    | inr m ↦ add_to_batch now body (i + 1) rounds (pending ++ m ∷ [])
  ]

  -- the loop of publishAtomicBatch: the messages pending when it ends, or the error of a read
  unfoldable pub batch_loop :
      ℕ → ℕ → Bool → Text → Reader → List (Message H) → Option (PubError ⊎ List (Message H))
  batch_loop zero now ended body r pending = none
  batch_loop (suc fuel) now ended body r pending = elim (next pub_of true ended body r) [
    | unread e ↦ some (inl e)
    | stop ↦ some (inr pending)
    | go text at_end pieces ↦
        let (added, err) = add_to_batch now text 1 c.cnt pending in
        let rest = batch_loop fuel (now + 1) at_end text (record r { pieces = pieces }) added in
        if is_eof pub_of.send_on || at_end then some (inr added) else rest
  ]

  -- publishAtomicBatch
  unfoldable pub publish_atomic_batch : Server H → ℕ → Reader → Option (Written H)
  publish_atomic_batch srv fuel r =
      write_pending srv c (batch_loop fuel 0 c.body_is_set c.body r [])
