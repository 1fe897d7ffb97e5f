-- ===== src/Subscribe/Inputs/Accepted.antt =====
-- What holds of inputs that are accepted.
use natscli.Prelude.{
  ◌≤◌, Bool, true, false, not, ◌&&◌, ◌||◌, [], ◌∷◌, ◌⊎◌, inl, inr, Option, none, some, ◌≡◌, refl,
  sym, ap, ◌∙◌, arith, Text, str_eq, ltb, ◌==◌, Bool-cases, Option-cases, length, Sum-cases,
}
use natscli.Checks.Streams.Agreement.{true-ne-false}
use natscli.Subscribe.Inputs.{
  StreamInfo, Server, Inputs, is_jetstream, with_subjects, flags_error, stream_name, use_direct,
  stream_error, checked, found, named, validate_rest, validate_inputs,
}

-- The flags agree with each other; `jet` is whether a stream is subscribed to.
abbrev pub Consistent : Bool → Inputs → Type 0
Consistent jet c =
    (jet ≡ false → c.stop_at_pending_zero ≡ false)
    × (jet ≡ true → (c.inbox ≡ false) × (str_eq c.queue [] ≡ true))
    × ((c.time_stamps && c.delta_time_stamps) ≡ false)
    × (c.quiet ≡ true → (str_eq c.backup [] ≡ false) × (str_eq c.dump [] ≡ true))
    × (str_eq c.backup [] ≡ false
        → (c.report_sub ≡ false) × (c.report_subjects ≡ false) × (c.graph_only ≡ false))

-- What a stream subscription settles on: a stream that exists, and direct gets exactly if no durable
-- consumer is named and the flag or the stream's retention asks for them, and only where they work.
abbrev pub OfStream : Server → Inputs → Inputs → Type 0
OfStream srv c s =
    (info : StreamInfo) × (stream_name srv c ≡ some s.stream)
    × (srv.stream_info s.stream ≡ some info)
    × (s.direct ≡ use_direct info c)
    × (s.direct ≡ true
        → (length c.subjects ≤ 1) × (info.allow_direct ≡ true) × (srv.api_level ≡ true))
    × (c.match_replies ≡ false)

flags_error-Consistent :
    (jet made : Bool) (c : Inputs) → flags_error jet made c ≡ none → Consistent jet c
unfolding flags_error
flags_error-Consistent jet made c h = (
  λ e. ground arith,
  λ e. (ground arith, ground arith),
  ground arith,
  λ e. (ground arith, ground arith),
  λ e. (ground arith, ground arith, ground arith),
)

stream_error_facts :
    (srv : Server) (info : StreamInfo) (c : Inputs)
    → stream_error srv info c ≡ none
    → (use_direct info c ≡ true
        → (length c.subjects ≤ 1) × (info.allow_direct ≡ true) × (srv.api_level ≡ true))
      × (c.match_replies ≡ false)
unfolding stream_error
stream_error_facts srv info c h = (λ e. (ground arith, ground arith, ground arith), ground arith)

named-OfStream :
    (srv : Server) (c s : Inputs) → named srv c (stream_name srv c) ≡ inr s → OfStream srv c s
unfolding named found checked
named-OfStream srv c s h = elim (Option-cases (stream_name srv c)) [
  | inl e ↦ ground arith
  | inr (name, e) ↦ elim (Option-cases (srv.stream_info name)) [
    | inl i ↦ ground arith
    | inr (info, i) ↦ elim (Option-cases (stream_error srv info c)) [
      | inr (err, k) ↦ ground arith
      | inl k ↦
          let (works, unmatched) = stream_error_facts srv info c k in
          let same : record c { stream = name; direct = use_direct info c } ≡ s = ground arith in
          rw (sym same) (info, e, i, refl, works, unmatched)
    ]
  ]
]

-- The subjects that are subscribed to: those given, of which there is one at least unless a stream is named,
-- and one at most of a stream; or an inbox, if none is given and one is asked for.
abbrev pub Subjects : Text → Inputs → Inputs → Type 0
Subjects inbox c s =
    ((s.subjects ≡ c.subjects)
      × (str_eq c.stream [] ≡ true → 1 ≤ length c.subjects)
      × (is_jetstream c ≡ true → length c.subjects ≤ 1))
    ⊎ ((length c.subjects ≡ 0) × (c.inbox ≡ true) × (s.subjects ≡ inbox ∷ []))

with_subjects_cases :
    (inbox : Text) (c w : Inputs)
    → with_subjects inbox c ≡ inr w
    → ((w ≡ c) × Subjects inbox c w)
      ⊎ ((w ≡ record c { subjects = inbox ∷ [] }) × (c.inbox ≡ true) × Subjects inbox c w)
unfolding with_subjects
with_subjects_cases inbox c w h = elim (Bool-cases (length c.subjects == 0 && c.inbox)) [
  | inl e ↦
      let same : record c { subjects = inbox ∷ [] } ≡ w = ground arith in
      rw (sym same) (inr (refl, ground arith, inr (ground arith, ground arith, refl)))
  | inr e ↦ elim (Bool-cases (length c.subjects == 0 && str_eq c.stream [])) [
    | inl k ↦ ground arith
    | inr k ↦ elim (Bool-cases (ltb 1 (length c.subjects) && is_jetstream c)) [
      | inl m ↦ ground arith
      | inr m ↦
          let same : c ≡ w = ground arith in
          rw (sym same) (inl (refl, inl (refl, λ d. ground arith, λ d. ground arith)))
    ]
  ]
]

named_same :
    (srv : Server) (c s : Inputs) (o : Option Text)
    → named srv c o ≡ inr s
    → (s.subjects ≡ c.subjects) × (s.report_subjects ≡ c.report_subjects)
unfolding named found checked
named_same srv c s none h = ground arith
named_same srv c s (some name) h = elim (Option-cases (srv.stream_info name)) [
  | inl i ↦ ground arith
  | inr (info, i) ↦ elim (Option-cases (stream_error srv info c)) [
    | inr (err, k) ↦ ground arith
    | inl k ↦
        let same : record c { stream = name; direct = use_direct info c } ≡ s = ground arith in
        rw (sym same) (refl, refl)
  ]
]

abbrev reported : Inputs → Inputs
reported c = record c { report_subjects = c.report_sub || c.report_subjects }

validate_rest_facts :
    (srv : Server) (jet made : Bool) (c s : Inputs)
    → validate_rest srv jet made c ≡ inr s
    → Consistent jet c
      × (s.subjects ≡ c.subjects)
      × (s.report_subjects ≡ (c.report_sub || c.report_subjects))
      × (jet ≡ true → OfStream srv (reported c) s)
unfolding validate_rest
validate_rest_facts srv jet made c s h = elim (Option-cases (flags_error jet made c)) [
  | inr (e, k) ↦ ground arith
  | inl k ↦ elim (Bool-cases jet) [
    | inl j ↦
        let through : named srv (reported c) (stream_name srv (reported c)) ≡ inr s =
          ground arith in
        let (subj, rep) = named_same srv (reported c) s (stream_name srv (reported c)) through in
        (
          flags_error-Consistent jet made c k,
          subj,
          rep,
          λ d. named-OfStream srv (reported c) s through,
        )
    | inr j ↦
        let same : reported c ≡ s = ground arith in
        (
          flags_error-Consistent jet made c k,
          rw (sym same) refl,
          rw (sym same) refl,
          λ d. ground arith,
        )
  ]
]

moved_subjects :
    (inbox : Text) (c w s : Inputs)
    → s.subjects ≡ w.subjects
    → Subjects inbox c w
    → Subjects inbox c s
moved_subjects inbox c w s e (inl (same, named, few)) = inl (e ∙ same, named, few)
moved_subjects inbox c w s e (inr (none_of, asked, same)) = inr (none_of, asked, e ∙ same)

-- Inputs that are accepted: no subject is given with a durable consumer; the flags agree with each other; the
-- subjects are those given or an inbox, as many as may be; subjects are reported if either report is
-- asked for; and a stream subscription has a stream that exists, uses direct gets exactly if no durable
-- consumer is named and the flag or the stream's retention asks for them, which then work, and does not
-- match replies.
pub validate_inputs-Accepted :
    (srv : Server) (inbox : Text) (made : Bool) (c s : Inputs)
    → validate_inputs srv inbox made c ≡ inr s
    → (1 ≤ length c.subjects → str_eq c.durable [] ≡ true)
      × Consistent (is_jetstream c) c
      × Subjects inbox c s
      × (s.report_subjects ≡ (c.report_sub || c.report_subjects))
      × (is_jetstream c ≡ true → OfStream srv c s)
unfolding validate_inputs stream_name use_direct
validate_inputs-Accepted srv inbox made c s h =
    elim (Bool-cases (ltb 0 (length c.subjects) && not (str_eq c.durable []))) [
      | inl e ↦ ground arith
      | inr e ↦ elim (Sum-cases (with_subjects inbox c)) [
        | inl (err, k) ↦ ground arith
        | inr (w, k) ↦
            let rest : validate_rest srv (is_jetstream c) made w ≡ inr s = ground arith in
            let facts = validate_rest_facts srv (is_jetstream c) made in
            let guard : 1 ≤ length c.subjects → str_eq c.durable [] ≡ true = λ d. ground arith in
            elim (with_subjects_cases inbox c w k) [
              | inl (same, subs) ↦
                  let (agree, subj, rep, stream) =
                    facts c s (ap (validate_rest srv (is_jetstream c) made) (sym same) ∙ rest) in
                  (
                    guard,
                    agree,
                    moved_subjects inbox c w s (subj ∙ sym (ap (λ x. x.subjects) same)) subs,
                    rep,
                    stream,
                  )
              | inr (same, asked, subs) ↦
                  let with_inbox : Inputs = record c { subjects = inbox ∷ [] } in
                  let (agree, subj, rep, stream) =
                    facts with_inbox s
                      (ap (validate_rest srv (is_jetstream c) made) (sym same) ∙ rest) in
                  (
                    guard,
                    agree,
                    moved_subjects inbox c w s (subj ∙ sym (ap (λ x. x.subjects) same)) subs,
                    rep,
                    λ jet. absurd (true-ne-false (sym asked ∙ (agree.1 jet).0)),
                  )
            ]
      ]
    ]
