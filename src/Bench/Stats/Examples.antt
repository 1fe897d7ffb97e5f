-- ===== src/Bench/Stats/Examples.antt =====
-- Two samples of a benchmark put together.
use natscli.Prelude.{ℕ, ◌≤◌, true, List, [], ◌∷◌, reverse, flat_map, ◌≡◌, refl, ◌==◌, any, All}
use natscli.Bench.Stats.{Sample, wrap, close, add_sample, add_samples}
use natscli.Bench.Stats.Totals.{close_lem}

abbrev taken : ℕ → ℕ → List ℕ → Sample
taken from to ls = record {
  job_msg_cnt = 5;
  msg_cnt = 5;
  msg_bytes = 640;
  io_bytes = 700;
  start = from;
  end = to;
  latencies = ls;
}

abbrev early : Sample
early = taken 100 900 (3 ∷ [])

abbrev late : Sample
late = taken 200 1000 (2 ∷ [])

-- the later sample may come first
out_of_order :
    ((close reverse (late ∷ early ∷ [])).start ≡ 100)
    × ((close reverse (late ∷ early ∷ [])).end ≡ 1000)
unfolding close add_samples add_sample
out_of_order = (refl, refl)

close_example :
    (((close reverse (late ∷ early ∷ [])).job_msg_cnt ≡ wrap 10)
      × ((close reverse (late ∷ early ∷ [])).msg_cnt ≡ wrap 10)
      × ((close reverse (late ∷ early ∷ [])).msg_bytes ≡ wrap 1280)
      × ((close reverse (late ∷ early ∷ [])).io_bytes ≡ wrap 1400)
      × ((close reverse (late ∷ early ∷ [])).latencies
          ≡ reverse (flat_map (λ s. s.latencies) (late ∷ early ∷ []))))
    × All
        (λ s.
          ((close reverse (late ∷ early ∷ [])).start ≤ s.start)
          × (s.end ≤ (close reverse (late ∷ early ∷ [])).end))
        (late ∷ early ∷ [])
    × (any (λ s. s.start == (close reverse (late ∷ early ∷ [])).start) (late ∷ early ∷ []) ≡ true)
    × (any (λ s. s.end == (close reverse (late ∷ early ∷ [])).end) (late ∷ early ∷ []) ≡ true)
close_example = close_lem reverse late (early ∷ [])
