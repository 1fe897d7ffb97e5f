-- ===== src/Publish/Atomic/Commit.antt =====
-- What reaches the stream of a batch.
use natscli.Prelude.{
  ℕ, ◌+◌, Bool, true, false, List, [], ◌∷◌, ◌++◌, ◌≢◌, ◌↔◌, inl, inr, none, some, ◌≡◌, refl, sym,
  ap, ◌∙◌, arith, Text, Option-cases, length, get_or, take, all, get_or,
}
use natscli.Publish.Message.{Packages, Message, PubError, PubCmd}
use natscli.Publish.Atomic.{
  Server, Written, write_atomic, refusal, commit_batch, add_messages, failed,
}

some-ne-none : (e : PubError) → ¬ (some e ≡ none)
some-ne-none e h = ground arith

module _ {ℓ} {H : Type ℓ} where
  abbrev pub init_of : Message H → List (Message H) → List (Message H)
  init_of m [] = []
  init_of m (n ∷ ms) = m ∷ init_of n ms

  abbrev pub last_of : Message H → List (Message H) → Message H
  last_of m [] = m
  last_of m (n ∷ ms) = last_of n ms

  -- Every message is added.
  abbrev pub AllAdded : Server H → ℕ → List (Message H) → Type 0
  AllAdded srv k [] = Unit
  AllAdded srv k (m ∷ ms) = (srv.add_msg k m ≡ true) × AllAdded srv (k + 1) ms

  init_last : (m : Message H) (ms : List (Message H)) → init_of m ms ++ last_of m ms ∷ [] ≡ m ∷ ms
  init_last m [] = refl
  init_last m (n ∷ ms) = ap (λ xs. m ∷ xs) (init_last n ms)

  take-init_of : (m : Message H) (ms : List (Message H)) → take (length ms) (m ∷ ms) ≡ init_of m ms
  take-init_of m [] = refl
  take-init_of m (n ∷ ms) = ap (λ xs. m ∷ xs) (take-init_of n ms)

  get_or-last_of :
      (m d : Message H) (ms : List (Message H)) → get_or (m ∷ ms) (length ms) d ≡ last_of m ms
  get_or-last_of m d [] = refl
  get_or-last_of m d (n ∷ ms) = get_or-last_of n d ms

  add_messages_iff :
      (srv : Server H) (k : ℕ) (ms : List (Message H))
      → ((add_messages srv k ms).1 ≡ true) ↔ AllAdded srv k ms
  unfolding add_messages
  add_messages_iff srv k [] = (λ h. tt, λ h. refl)
  add_messages_iff srv k (m ∷ ms) =
      let rest = add_messages_iff srv (k + 1) ms in (λ h. ground arith, λ h. ground arith)

  add_messages_all :
      (srv : Server H) (k : ℕ) (ms : List (Message H))
      → (add_messages srv k ms).1 ≡ true
      → add_messages srv k ms ≡ (ms, true)
  unfolding add_messages
  add_messages_all srv k [] h = refl
  add_messages_all srv k (m ∷ ms) h = let rest = add_messages_all srv (k + 1) ms in ground arith

  -- The client and a stream for the subject are there, and the stream takes batches.
  abbrev pub TakesBatches : Server H → Text → Type 0
  TakesBatches srv subj =
      (srv.client ≡ true)
      × ((name : Text) × (srv.stream_name_by_subject subj ≡ some name)
          × (srv.allow_atomic name ≡ some true))
      × (srv.batch_publisher ≡ true)

  refusal_iff : (srv : Server H) (c : PubCmd) → (refusal srv c ≡ none) ↔ TakesBatches srv c.subject
  unfolding refusal
  refusal_iff srv c = elim (Option-cases (srv.stream_name_by_subject c.subject)) [
    | inl e ↦ (λ h. ground arith, λ (a, (name, b, d), g). ground arith)
    | inr (name, e) ↦ elim (Option-cases (srv.allow_atomic name)) [
      | inl k ↦ (λ h. ground arith, λ (a, (other, b, d), g). ground arith)
      | inr (allowed, k) ↦ (
        λ h. (ground arith, (name, e, ground arith), ground arith),
        λ (a, (other, b, d), g). ground arith,
      )
    ]
  ]

  -- The batch is written: the stream takes it, every message but the last is added, the commit succeeds.
  abbrev pub Accepts : Server H → PubCmd → Message H → List (Message H) → Type 0
  Accepts srv c m ms =
      TakesBatches srv c.subject
      × AllAdded srv 0 (init_of m ms)
      × (srv.commit (init_of m ms) c.subject (last_of m ms).data_of ≡ true)

  abbrev pub whole : PubCmd → Message H → List (Message H) → Written H
  whole c m ms = record {
    added = init_of m ms;
    committed = some (c.subject, (last_of m ms).data_of);
    error = none;
  }

  write_added :
      (srv : Server H) (c : PubCmd) (m : Message H) (ms : List (Message H))
      → refusal srv c ≡ none
      → write_atomic srv c (m ∷ ms)
        ≡ commit_batch srv c (last_of m ms) (add_messages srv 0 (init_of m ms))
  unfolding write_atomic
  write_added srv c m ms h =
      let taken = take-init_of m ms in let got = get_or-last_of m m ms in ground arith

  write_refused :
      (srv : Server H) (c : PubCmd) (m : Message H) (ms : List (Message H)) (e : PubError)
      → refusal srv c ≡ some e
      → write_atomic srv c (m ∷ ms) ≡ failed e
  unfolding write_atomic
  write_refused srv c m ms e h = ground arith

  commit_batch_lem :
      (srv : Server H) (c : PubCmd) (m : Message H) (ms : List (Message H))
      → AllAdded srv 0 (init_of m ms)
      → srv.commit (init_of m ms) c.subject (last_of m ms).data_of ≡ true
      → commit_batch srv c (last_of m ms) (add_messages srv 0 (init_of m ms)) ≡ whole c m ms
  unfolding commit_batch
  commit_batch_lem srv c m ms all h =
      let done = (add_messages_iff srv 0 (init_of m ms)).1 all in
      ap (commit_batch srv c (last_of m ms)) (add_messages_all srv 0 (init_of m ms) done)
      ∙ ground arith

  commit_batch_error :
      (srv : Server H) (c : PubCmd) (final : Message H) (r : List (Message H) × Bool)
      → ((commit_batch srv c final r).error ≡ none
          → (r.1 ≡ true) × (srv.commit r.0 c.subject final.data_of ≡ true))
        × ((commit_batch srv c final r).committed ≢ none
            → (r.1 ≡ true)
              × ((commit_batch srv c final r).committed ≡ some (c.subject, final.data_of)))
  unfolding commit_batch
  commit_batch_error srv c final (added, false) = (λ h. ground arith, λ h. absurd (h refl))
  commit_batch_error srv c final (added, true) = (λ h. ground arith, λ h. (refl, ground arith))

  -- A batch with a message is written without an error exactly if there is a stream for the subject that allows
  -- atomic publishing, with a client and a publisher for it, every message but the last is added and the
  -- commit succeeds; then all of them were added, in order, and the commit carried the command's subject
  -- and the last message's data. Whatever goes wrong, a commit is sent at most where the stream allows it
  -- and every message but the last was added, and it carries that subject and data.
  pub write_atomic_iff :
      (srv : Server H) (c : PubCmd) (m : Message H) (ms : List (Message H))
      → (((write_atomic srv c (m ∷ ms)).error ≡ none) ↔ Accepts srv c m ms)
        × (Accepts srv c m ms → write_atomic srv c (m ∷ ms) ≡ whole c m ms)
        × ((write_atomic srv c (m ∷ ms)).committed ≢ none
            → TakesBatches srv c.subject
              × AllAdded srv 0 (init_of m ms)
              × ((write_atomic srv c (m ∷ ms)).committed
                  ≡ some (c.subject, (last_of m ms).data_of)))
  write_atomic_iff srv c m ms = elim (Option-cases (refusal srv c)) [
    | inl ok ↦
        let added = add_messages srv 0 (init_of m ms) in
        let takes = (refusal_iff srv c).0 ok in
        let (accepted, sent) = commit_batch_error srv c (last_of m ms) added in
        let back : Accepts srv c m ms → commit_batch srv c (last_of m ms) added ≡ whole c m ms =
          λ (r, all, h). commit_batch_lem srv c m ms all h in
        rw (write_added srv c m ms ok) (
          (
            λ e.
                let (done, h) = accepted e in
                (
                  takes,
                  (add_messages_iff srv 0 (init_of m ms)).0 done,
                  sym (
                        ap (λ x. srv.commit x.0 c.subject (last_of m ms).data_of)
                          (add_messages_all srv 0 (init_of m ms) done))
                      ∙ h,
                ),
            λ a. rw (back a) refl,
          ),
          back,
          λ h.
              let (done, carries) = sent h in
              (takes, (add_messages_iff srv 0 (init_of m ms)).0 done, carries),
        )
    | inr (e, refused) ↦
        let never : ¬ TakesBatches srv c.subject =
          λ takes. some-ne-none e (sym refused ∙ (refusal_iff srv c).1 takes) in
        rw (write_refused srv c m ms e refused) (
          unfold failed in
          (
            (λ h. ground arith, λ (r, all, h). absurd (never r)),
            λ (r, all, h). absurd (never r),
            λ h. absurd (h refl),
          ))
  ]

  -- The messages that a written batch stores: the ones added, and one of the commit, which has its
  -- subject and data only.
  abbrev pub stored : Packages H → Written H → List (Message H)
  stored p w = elim w.committed [
    | none ↦ []
    | some (subj, body) ↦
        w.added
        ++ (record { subject = subj; reply = []; data_of = body; header = p.new_header }) ∷ []
  ]

  last_eq :
      (m n : Message H) (ms : List (Message H))
      → (init_of m ms ++ n ∷ [] ≡ m ∷ ms) ↔ (n ≡ last_of m ms)
  last_eq m n [] = (λ h. ground arith, λ h. ground arith)
  last_eq m n (k ∷ ms) = let rest = last_eq k n ms in (λ h. ground arith, λ h. ground arith)

  -- A batch that is written stores its messages as they were built exactly if the last one has the
  -- command's subject, no reply subject and no headers.
  pub write_atomic_bare :
      (p : Packages H) (srv : Server H) (c : PubCmd) (m : Message H) (ms : List (Message H))
      → Accepts srv c m ms
      → (stored p (write_atomic srv c (m ∷ ms)) ≡ m ∷ ms) ↔ (
          ((last_of m ms).subject ≡ c.subject)
          × ((last_of m ms).reply ≡ [])
          × ((last_of m ms).header ≡ p.new_header))
  write_atomic_bare p srv c m ms a = rw ((write_atomic_iff srv c m ms).1 a) (
    (λ h.
        let e = (last_eq m _ ms).0 h in
        (sym (ap (λ n. n.subject) e), sym (ap (λ n. n.reply) e), sym (ap (λ n. n.header) e))),
    (λ (s, r, h). (last_eq m _ ms).1 (λ i. record {
      subject = sym s i;
      reply = sym r i;
      data_of = (last_of m ms).data_of;
      header = sym h i;
    })),
  )
