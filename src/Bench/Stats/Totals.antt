-- ===== src/Bench/Stats/Totals.antt =====
-- The totals of the samples, whatever the order in which they come.
use natscli.Prelude.{
  ℕ, ◌+◌, ◌^◌, ◌≤◌, ◌<◌, min, max, true, false, List, [], ◌∷◌, ◌++◌, append-nil, append_assoc,
  flat_map, ◌⊎◌, inl, ◌≡◌, refl, sym, ap, ◌∙◌, arith, ◌==◌, length, any, all, All, length-append,
}
use natscli.Bench.Stats.{
  Sample, SampleGroup, wrap, new_sample_group, earlier, later, add_sample, add_samples, close,
}

abbrev pub total_of : (Sample → ℕ) → List Sample → ℕ
total_of f [] = 0
total_of f (s ∷ ss) = f s + total_of f ss

wrap-wrap : (a b c : ℕ) → wrap (wrap (a + b) + c) ≡ wrap (a + (b + c))
wrap-wrap a b c = omega arith

-- A count that each sample adds to, modulo 2^64.
counts_lem :
    (f : Sample → ℕ)
    → ((e : Sample) (g : SampleGroup) → f (add_sample e g).total ≡ wrap (f g.total + f e))
    → (es : List Sample) (g : SampleGroup) → f g.total < 2 ^ 64
    → f (add_samples es g).total ≡ wrap (f g.total + total_of f es)
unfolding add_samples
counts_lem f law [] g h = omega arith
counts_lem f law (e ∷ es) g h =
    let small : f (add_sample e g).total < 2 ^ 64 = rw (law e g) (omega arith) in
    counts_lem f law es (add_sample e g) small
    ∙ rw (law e g) (wrap-wrap (f g.total) (f e) (total_of f es))

-- A group's times, after more samples: the first start and the last end.
abbrev Spans : Sample → Sample → List Sample → Type 0
Spans before t es =
    ((t.start ≤ before.start) × (before.end ≤ t.end))
    × All (λ s. (t.start ≤ s.start) × (s.end ≤ t.end)) es
    × ((t.start ≡ before.start) ⊎ (any (λ s. s.start == t.start) es ≡ true))
    × ((t.end ≡ before.end) ⊎ (any (λ s. s.end == t.end) es ≡ true))

one_more :
    (e : Sample) (g : SampleGroup)
    → 1 ≤ length g.samples
    → ((add_sample e g).total.start ≡ min g.total.start e.start)
      × ((add_sample e g).total.end ≡ max g.total.end e.end)
      × (1 ≤ length (add_sample e g).samples)
unfolding add_sample earlier later
one_more e g h =
    let more : (length (g.samples ++ e ∷ []) == 1) ≡ false =
      ground (arith, length-append g.samples (e ∷ [])) in
    rw (more, length-append g.samples (e ∷ [])) (ground arith, ground arith, omega arith)

spans_lem :
    (es : List Sample) (g : SampleGroup)
    → 1 ≤ length g.samples
    → Spans g.total (add_samples es g).total es
unfolding add_samples
spans_lem [] g h = ((omega arith, omega arith), tt, inl refl, inl refl)
spans_lem (e ∷ es) g h =
    let (starts, ends, more) = one_more e g h in
    let (bounds, all, first, last) = spans_lem es (add_sample e g) more in
    ((omega arith, omega arith), ((omega arith, omega arith), all), ground arith, ground arith)

first_one :
    (e : Sample)
    → ((add_sample e new_sample_group).total.start ≡ e.start)
      × ((add_sample e new_sample_group).total.end ≡ e.end)
      × (length (add_sample e new_sample_group).samples ≡ 1)
unfolding add_sample earlier later
first_one e = (ground arith, ground arith, refl)

latencies_lem :
    (es : List Sample) (g : SampleGroup)
    → (add_samples es g).total.latencies ≡ g.total.latencies ++ flat_map (λ s. s.latencies) es
unfolding add_samples add_sample flat_map
latencies_lem [] g = sym (append-nil g.total.latencies)
latencies_lem (e ∷ es) g =
    latencies_lem es (add_sample e g)
    ∙ append_assoc g.total.latencies e.latencies (flat_map (λ s. s.latencies) es)

all_counts :
    (f : Sample → ℕ)
    → ((e : Sample) (g : SampleGroup) → f (add_sample e g).total ≡ wrap (f g.total + f e))
    → f new_sample_group.total ≡ 0
    → (channel : List Sample)
    → f (add_samples channel new_sample_group).total ≡ wrap (total_of f channel)
all_counts f law z channel =
    counts_lem f law channel new_sample_group (rw z (omega arith)) ∙ rw z (omega arith)

-- The counts of a benchmark are the sums of its samples' counts modulo 2^64, and its latencies those of
-- all samples, sorted, however many samples there are.
close-counts :
    (sort : List ℕ → List ℕ) (channel : List Sample)
    → ((close sort channel).job_msg_cnt ≡ wrap (total_of (λ s. s.job_msg_cnt) channel))
      × ((close sort channel).msg_cnt ≡ wrap (total_of (λ s. s.msg_cnt) channel))
      × ((close sort channel).msg_bytes ≡ wrap (total_of (λ s. s.msg_bytes) channel))
      × ((close sort channel).io_bytes ≡ wrap (total_of (λ s. s.io_bytes) channel))
      × ((close sort channel).latencies ≡ sort (flat_map (λ s. s.latencies) channel))
unfolding close
close-counts sort channel = (
  all_counts (λ s. s.job_msg_cnt) (λ e g. unfold add_sample in refl) refl channel,
  all_counts (λ s. s.msg_cnt) (λ e g. unfold add_sample in refl) refl channel,
  all_counts (λ s. s.msg_bytes) (λ e g. unfold add_sample in refl) refl channel,
  all_counts (λ s. s.io_bytes) (λ e g. unfold add_sample in refl) refl channel,
  ap sort (latencies_lem channel new_sample_group),
)

-- A benchmark with a sample starts when its first sample starts and ends when its last sample ends:
-- no sample reaches beyond, and some sample starts then and some sample ends then.
close-spans :
    (sort : List ℕ → List ℕ) (e : Sample) (es : List Sample)
    → All
        (λ s. ((close sort (e ∷ es)).start ≤ s.start) × (s.end ≤ (close sort (e ∷ es)).end))
        (e ∷ es)
      × (any (λ s. s.start == (close sort (e ∷ es)).start) (e ∷ es) ≡ true)
      × (any (λ s. s.end == (close sort (e ∷ es)).end) (e ∷ es) ≡ true)
unfolding close add_samples
close-spans sort e es =
    let (starts, ends, one) = first_one e in
    let (bounds, all, first, last) = spans_lem es (add_sample e new_sample_group) (omega arith) in
    (((omega arith, omega arith), all), ground arith, ground arith)

-- The counts of a benchmark with a sample are the sums of its samples' counts modulo 2^64, and its latencies
-- those of all samples, sorted; it starts when its first sample starts and ends when its last one ends:
-- no sample reaches beyond, and some sample starts then and some sample ends then.
pub close_lem :
    (sort : List ℕ → List ℕ) (e : Sample) (es : List Sample)
    → (((close sort (e ∷ es)).job_msg_cnt ≡ wrap (total_of (λ s. s.job_msg_cnt) (e ∷ es)))
        × ((close sort (e ∷ es)).msg_cnt ≡ wrap (total_of (λ s. s.msg_cnt) (e ∷ es)))
        × ((close sort (e ∷ es)).msg_bytes ≡ wrap (total_of (λ s. s.msg_bytes) (e ∷ es)))
        × ((close sort (e ∷ es)).io_bytes ≡ wrap (total_of (λ s. s.io_bytes) (e ∷ es)))
        × ((close sort (e ∷ es)).latencies ≡ sort (flat_map (λ s. s.latencies) (e ∷ es))))
      × All
          (λ s. ((close sort (e ∷ es)).start ≤ s.start) × (s.end ≤ (close sort (e ∷ es)).end))
          (e ∷ es)
      × (any (λ s. s.start == (close sort (e ∷ es)).start) (e ∷ es) ≡ true)
      × (any (λ s. s.end == (close sort (e ∷ es)).end) (e ∷ es) ≡ true)
close_lem sort e es =
    let (all, first, last) = close-spans sort e es in (close-counts sort (e ∷ es), all, first, last)
