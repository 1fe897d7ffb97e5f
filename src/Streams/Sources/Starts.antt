-- ===== src/Streams/Sources/Starts.antt =====
-- Where a mirror and a source start.
use natscli.Prelude.{
  Bool, true, false, List, ◌∷◌, ◌⊎◌, inl, inr, Option, none, some, ◌≡◌, refl, sym, ◌∙◌, arith, Text,
  ◌==◌, if◌then◌else◌, ==_iff, Bool-cases,
}
use natscli.Prelude.Int.{ℤ}
use natscli.Dialog.{Answer, confirmed, pure, ◌>>=◌, Terminal, Dialog, ask_confirmation, ask_one_int}
use natscli.Dialog.Quiet.{
  Gives, inr_injective, and_then-Gives, >>=-Gives, >>=-Gives_any, pure-Gives, if-Gives,
}
use natscli.Streams.{StreamSource, Externals, Transform, External}
use natscli.Streams.Sources.{
  named_source, uint64, ask_consumer, ask_start_time, ask_mirror_start, ask_source_start,
  ask_transforms, ask_external, ask_details, ask_mirror, ask_source,
}

abbrev FromStart : StreamSource → Type 0
FromStart s = (s.opt_start_seq ≡ 0) × (s.opt_start_time ≡ none)

-- A source keeps its name, and reads from the start through a consumer of its own.
abbrev pub Named : Text → StreamSource → Type 0
Named name s = (s.name ≡ name) × ((s.consumer ≡ none) ⊎ FromStart s)

-- A mirror also starts at a sequence or at a time, not at both.
abbrev pub OneStart : StreamSource → Type 0
OneStart s = (s.opt_start_seq ≡ 0) ⊎ (s.opt_start_time ≡ none)

abbrev Started : Text → StreamSource → Type 0
Started name s = Named name s × OneStart s

mirror_start-Started :
    (ext : Externals) (name : Text)
    → Gives (Started name) (ask_mirror_start ext (named_source name))
unfolding ask_mirror_start
mirror_start-Started ext name = >>=-Gives_any ask_one_int _ (Started name) (λ a.
    if-Gives (Started name) (uint64 a == 0) _ _
      (λ e. >>=-Gives_any (ask_start_time ext) _ (Started name) (λ ts.
        pure-Gives (Started name) (record (named_source name) { opt_start_time = ts })
          ((refl, inl refl), inl refl)))
      (λ e.
        pure-Gives (Started name) (record (named_source name) { opt_start_seq = uint64 a })
          ((refl, inl refl), inr refl)))

source_start-Named :
    (ext : Externals) (name : Text) → Gives (Named name) (ask_source_start ext (named_source name))
unfolding ask_source_start
source_start-Named ext name = >>=-Gives_any ask_one_int _ (Named name) (λ a.
    >>=-Gives_any (ask_start_time ext) _ (Named name) (λ ts.
      pure-Gives (Named name)
        (record (named_source name) { opt_start_seq = uint64 a; opt_start_time = ts })
        (refl, inl refl)))

-- What is asked behind the start, by whether a consumer of its own delivers.
abbrev behind : Bool → StreamSource → Dialog StreamSource
behind durable s = ask_confirmation >>= λ ok.
    (if ok then (ask_transforms >>= λ ts. pure (record s { subject_transforms = ts })) else pure s)
    >>= λ s'. ask_external durable >>= λ e. pure (record s' { external = e })

-- A terminal with these answers, and one whose first answers are to describe a start.
abbrev pub answering : List Answer → Terminal
answering rest = record { is_terminal = true; answers = rest }

abbrev pub with_start : List Answer → Terminal
with_start rest = answering (confirmed false ∷ confirmed true ∷ rest)

-- What a start has, and a consumer's own start, is left alone by what is asked behind it.
module _ (P : StreamSource → Type 0)
    (keeps : (s : StreamSource) (ts : List Transform) (e : Option External)
      → P s
      → P (record s { subject_transforms = ts; external = e })) where
  behind-Gives : (durable : Bool) (s : StreamSource) → P s → Gives P (behind durable s)
  behind-Gives durable s h = >>=-Gives_any ask_confirmation _ P (λ ok.
      >>=-Gives _ _ P P
        (if-Gives P ok _ _
          (λ e. >>=-Gives_any ask_transforms _ P (λ ts. pure-Gives P _ (keeps s ts s.external h)))
          (λ e. pure-Gives P s h))
        (λ s' h'.
          >>=-Gives_any (ask_external durable) _ P
            (λ x. pure-Gives P _ (keeps s' s'.subject_transforms x h'))))

  details-Gives :
      (start : StreamSource → Dialog StreamSource) (name : Text)
      → Gives P (start (named_source name))
      → P (named_source name)
      → ((con : natscli.Streams.ConsumerSource)
          → P (record (named_source name) { consumer = some con }))
      → Gives P (ask_details start (named_source name))
  unfolding ask_details
  details-Gives start name hs hn hc = >>=-Gives_any ask_confirmation _ P (λ durable.
      >>=-Gives _ _ P P
        (if-Gives P durable _ _
          (λ e. >>=-Gives_any ask_consumer _ P (λ con. pure-Gives P _ (hc con)))
          (λ e.
            >>=-Gives_any ask_confirmation _ P
              (λ ok. if-Gives P ok _ _ (λ e. hs) (λ e. pure-Gives P _ hn))))
        (behind-Gives durable))

  -- where a start is described
  start-Gives :
      (start : StreamSource → Dialog StreamSource) (name : Text) (rest : List Answer)
      → ((s : StreamSource) → (start (named_source name) (answering rest)).0 ≡ inr s → P s)
      → (s : StreamSource) → (ask_details start (named_source name) (with_start rest)).0 ≡ inr s
      → P s
  unfolding ask_details ask_confirmation
  start-Gives start name rest h =
      and_then-Gives (behind false) P P (start (named_source name) (answering rest)) h
        (behind-Gives false)

-- The start is the sequence that is answered, and where that is 0 the time that is answered.
abbrev pub IsAnswered : Externals → Terminal → ℤ → StreamSource → Type 0
IsAnswered ext after a s =
    (s.opt_start_seq ≡ uint64 a)
    × ((ts : Option ℤ)
        → uint64 a ≡ 0
        → (ask_start_time ext after).0 ≡ inr ts
        → s.opt_start_time ≡ ts)

from_answer :
    (ext : Externals) (name : Text) (a : ℤ) (after : Terminal) (s : StreamSource)
    → ((if uint64 a == 0
          then (ask_start_time ext >>= λ ts.
              pure (record (named_source name) { opt_start_time = ts }))
          else pure (record (named_source name) { opt_start_seq = uint64 a }))
        after).0
      ≡ inr s
    → IsAnswered ext after a s
from_answer ext name a after s h = elim (Bool-cases (uint64 a == 0)) [
  | inl e ↦
      let zero_of = sym ((==_iff (uint64 a) 0).0 e) in
      and_then-Gives (λ ts. pure (record (named_source name) { opt_start_time = ts }))
        (λ ts. (ask_start_time ext after).0 ≡ inr ts) (IsAnswered ext after a)
        (ask_start_time ext after) (λ ts g. g)
        (λ ts g.
          pure-Gives (IsAnswered ext after a) (record (named_source name) { opt_start_time = ts })
            (zero_of, λ us z k. inr_injective ts us (sym g ∙ k)))
        s (rw e at h)
  | inr e ↦
      pure-Gives (IsAnswered ext after a) (record (named_source name) { opt_start_seq = uint64 a })
        (refl, λ ts z k. absurd (ground arith)) after s (rw e at h)
]

mirror_start-IsAnswered :
    (ext : Externals) (name : Text) (t after : Terminal) (a : ℤ) (s : StreamSource)
    → ask_one_int t ≡ (inr a, after)
    → (ask_mirror_start ext (named_source name) t).0 ≡ inr s
    → IsAnswered ext after a s
unfolding ask_mirror_start
mirror_start-IsAnswered ext name t after a s g h = from_answer ext name a after s (rw g at h)

ask_mirror_start_lem :
    (ext : Externals) (accept_defaults : Bool) (name : Text) (s : StreamSource) (rest : List Answer)
    (a : ℤ) (after : Terminal)
    → accept_defaults ≡ false
    → ask_one_int (answering rest) ≡ (inr a, after)
    → (ask_mirror ext accept_defaults name (with_start rest)).0 ≡ inr s
    → IsAnswered ext after a s
unfolding ask_mirror
ask_mirror_start_lem ext accept_defaults name s rest a after off g h =
    start-Gives (IsAnswered ext after a) (λ s ts x k. k) (ask_mirror_start ext) name rest
      (λ u k. mirror_start-IsAnswered ext name (answering rest) after a u g k) s (rw off at h)

mirror-Started :
    (ext : Externals) (accept_defaults : Bool) (name : Text)
    → Gives (Started name) (ask_mirror ext accept_defaults name)
unfolding ask_mirror
mirror-Started ext accept_defaults name =
    if-Gives (Started name) accept_defaults _ _
      (λ e. pure-Gives (Started name) (named_source name) ((refl, inl refl), inl refl))
      (λ e.
        details-Gives (Started name) (λ s ts x h. h) (ask_mirror_start ext) name
          (mirror_start-Started ext name) ((refl, inl refl), inl refl)
          (λ con. ((refl, inr (refl, refl)), inl refl)))

-- A mirror that is described by answers has the name that was given, does not start at both a sequence and a
-- time, and starts at neither where it is read through a consumer of its own. Where the
-- answers describe a start, it has the sequence that is answered, and if that is 0 the time that is
-- answered, if there is one.
pub ask_mirror_lem :
    (ext : Externals) (accept_defaults : Bool) (name : Text) (t : Terminal) (s : StreamSource)
    → (ask_mirror ext accept_defaults name t).0 ≡ inr s
    → Named name s
      × OneStart s
      × ((rest : List Answer) (a : ℤ) (after : Terminal)
          → accept_defaults ≡ false
          → t ≡ with_start rest
          → ask_one_int (answering rest) ≡ (inr a, after)
          → IsAnswered ext after a s)
ask_mirror_lem ext accept_defaults name t s h =
    let (named, one_start) = mirror-Started ext accept_defaults name t s h in
    (
      named,
      one_start,
      λ rest a after off same g.
          ask_mirror_start_lem ext accept_defaults name s rest a after off g (rw same at h),
    )

-- A source has the name that was given, and starts nowhere else than its own consumer does.
pub ask_source_lem :
    (ext : Externals) (accept_defaults : Bool) (name : Text) (t : Terminal) (s : StreamSource)
    → (ask_source ext accept_defaults name t).0 ≡ inr s
    → Named name s
unfolding ask_source
ask_source_lem ext accept_defaults name =
    if-Gives (Named name) accept_defaults _ _
      (λ e. pure-Gives (Named name) (named_source name) (refl, inl refl))
      (λ e.
        details-Gives (Named name) (λ s ts x h. h) (ask_source_start ext) name
          (source_start-Named ext name) (refl, inl refl) (λ con. (refl, inr (refl, refl))))
