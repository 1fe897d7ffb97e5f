-- ===== src/Publish/Atomic/Pending.antt =====
-- Which messages wait in the batch when the input is read.
use natscli.Prelude.{
  ℕ, zero, suc, ◌+◌, ◌<◌, Bool, true, false, List, [], ◌∷◌, ◌++◌, append-nil, append_assoc, map,
  ◌⊎◌, inl, inr, some, ◌≡◌, refl, sym, ap, ◌∙◌, arith, Text, if◌then◌else◌, length, Sum-cases,
}
use natscli.Publish.Message.{Packages, Message, PubError, PubCmd, message}
use natscli.Publish.Stdin.{SendOn, Publisher, Reader}
use natscli.Publish.Stdin.Lines.{lines_of}
use natscli.Publish.Atomic.Rounds.{IsLineReader, starts, stops, finishes, goes}
use natscli.Publish.Atomic.{
  next, go, stop, is_eof, add_to_batch, batch_loop, Server, write_atomic, write_pending,
  publish_atomic_batch,
}

-- What stands before the first error.
abbrev pub leading {ℓ} : {A : Type ℓ} → List (PubError ⊎ A) → List A
leading [] = []
leading (inl e ∷ rest) = []
leading (inr a ∷ rest) = a ∷ leading rest

abbrev pub counters : ℕ → ℕ → List ℕ
counters i zero = []
counters i (suc n) = i ∷ counters (i + 1) n

module _ {ℓ} {H : Type ℓ} (p : Packages H) (templates : Bool) (c : PubCmd) where
  -- The messages of line number `now`, with the counters from 1 to --count, up to the first whose
  -- headers are not accepted.
  abbrev pub line_messages : ℕ → Text → List (Message H)
  line_messages now line = leading (map (message p now templates c line) (counters 1 c.cnt))

  abbrev pub messages_of : ℕ → List Text → List (Message H)
  messages_of now [] = []
  messages_of now (line ∷ lines) = line_messages now line ++ messages_of (now + 1) lines

module _ {ℓ} {H : Type ℓ} (p : Packages H) (pub_of : Publisher) (c : PubCmd) where
  add_to_batch_lem :
      (now i n : ℕ) (body : Text) (pending : List (Message H))
      → (add_to_batch p pub_of c now body i n pending).0
        ≡ pending ++ leading (map (message p now pub_of.templates c body) (counters i n))
  unfolding add_to_batch map
  add_to_batch_lem now i zero body pending = sym (append-nil pending)
  add_to_batch_lem now i (suc n) body pending =
      elim (Sum-cases (message p now pub_of.templates c body i)) [
        | inl (e, eq) ↦ ground (arith, append-nil pending)
        | inr (m, eq) ↦ ground (
          arith,
          add_to_batch_lem now (i + 1) n body (pending ++ m ∷ []),
          append_assoc pending (m ∷ [])
              (leading (map (message p now pub_of.templates c body) (counters (i + 1) n))),
        )
      ]

  -- One round of the loop, by how it starts.
  loop_stop :
      (fuel now : ℕ) (body : Text) (r : Reader) (pending : List (Message H))
      → next pub_of true false body r ≡ stop
      → batch_loop p pub_of c (suc fuel) now false body r pending ≡ some (inr pending)
  unfolding batch_loop
  loop_stop fuel now body r pending e = ground arith

  loop_go :
      (fuel now : ℕ) (body t : Text) (done : Bool) (rest : List (Text × Bool)) (r : Reader)
      (pending : List (Message H))
      → pub_of.send_on ≡ SendOn.newline
      → next pub_of true false body r ≡ go t done rest
      → batch_loop p pub_of c (suc fuel) now false body r pending ≡ (
          if done
          then some (inr (add_to_batch p pub_of c now t 1 c.cnt pending).0)
          else batch_loop p pub_of c fuel
              (now + 1)
              done
              t
              (record r { pieces = rest })
              (add_to_batch p pub_of c now t 1 c.cnt pending).0)
  unfolding batch_loop is_eof
  loop_go fuel now body t done rest r pending s e = ground arith

  batch_loop_lem :
      (fuel now : ℕ) (body : Text) (r : Reader) (pending : List (Message H))
      → IsLineReader pub_of r
      → length r.pieces < fuel
      → batch_loop p pub_of c fuel now false body r pending
        ≡ some (inr (pending ++ messages_of p pub_of.templates c now (lines_of [] r.pieces)))
  batch_loop_lem zero now body r pending k h = absurd (omega arith)
  batch_loop_lem (suc fuel) now body r pending (u, s, b) h =
      let added = λ (t : Text). add_to_batch_lem now 1 c.cnt t pending in
      elim (starts pub_of body r (u, s, b)) [
        | stops e l ↦
            rw l (loop_stop fuel now body r pending e ∙ ground (arith, append-nil pending))
        | finishes t e l ↦ rw l (
            loop_go fuel now body t true [] r pending s e
            ∙ rw (added t) (rw (append-nil (line_messages p pub_of.templates c now t)) refl))
        | goes t rest e l less ↦ rw l (
            loop_go fuel now body t false rest r pending s e
            ∙ (batch_loop_lem fuel (now + 1) t (record r { pieces = rest }) _ (u, s, b)
                  (omega arith)
                ∙ rw (added t) (ap (λ x. some (inr x)) (append_assoc pending _ _))))
      ]

  -- If the publisher reads lines from its standard input, no read fails and there is a round more than
  -- there are pieces of lines, the loop ends, and what it writes as a batch is the messages of each
  -- line of the input, in order: for each counter from 1 to --count the message built from the line,
  -- the messages of a line up to the first whose headers are not accepted.
  pub publish_atomic_batch_lem :
      (srv : Server H) (fuel : ℕ) (r : Reader)
      → c.body_is_set ≡ false
      → IsLineReader pub_of r
      → length r.pieces < fuel
      → publish_atomic_batch p pub_of c srv fuel r
        ≡ some (write_atomic srv c (messages_of p pub_of.templates c 0 (lines_of [] r.pieces)))
  unfolding publish_atomic_batch write_pending
  publish_atomic_batch_lem srv fuel r b k h = ap (write_pending srv c) (
      ap (λ ended. batch_loop p pub_of c fuel 0 ended c.body r []) b
      ∙ batch_loop_lem fuel 0 c.body r [] k h)
