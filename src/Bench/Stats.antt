-- ===== src/Bench/Stats.antt =====
-- internal/bench/stats.go: the samples of a benchmark's clients put together. Counts are uint64 and
-- wrap around, an int is its 64 bits; times are nanoseconds. `sort` is slices.Sort.
pub mod Totals
mod Examples
use natscli.Prelude.{
  ℕ, ◌+◌, ◌-◌, ◌*◌, ◌%◌, ◌^◌, Bool, List, [], ◌∷◌, ◌++◌, ltb, ◌==◌, if◌then◌else◌, length, get_or,
}
use natscli.Prelude.Int.{ℤ, pos, ltb_ℤ}

pub record Sample : Type 0 where
  pub job_msg_cnt : ℕ
  pub msg_cnt : ℕ
  pub msg_bytes : ℕ
  pub io_bytes : ℕ
  pub start : ℕ
  pub end : ℕ
  pub latencies : List ℕ

-- BenchSampleGroup: the sample that a group is itself, and its samples
pub record SampleGroup : Type 0 where
  pub total : Sample
  pub samples : List Sample

abbrev pub wrap : ℕ → ℕ
wrap n = n % 2 ^ 64

-- NewSample, of the messages and bytes that the connection counted
unfoldable pub new_sample : (List ℕ → List ℕ) → ℕ → ℕ → ℕ → ℕ → List ℕ → (ℕ × ℕ) → (ℕ × ℕ) → Sample
new_sample sort job_count msg_size start end latencies (out_msgs, in_msgs) (out_bytes, in_bytes) =
    record {
      job_msg_cnt = job_count;
      msg_cnt = wrap (out_msgs + in_msgs);
      msg_bytes = wrap (msg_size * job_count);
      io_bytes = wrap (out_bytes + in_bytes);
      start = start;
      end = end;
      latencies = sort latencies;
    }

abbrev pub new_sample_group : SampleGroup
new_sample_group = record {
  total = record {
    job_msg_cnt = 0;
    msg_cnt = 0;
    msg_bytes = 0;
    io_bytes = 0;
    start = 0;
    end = 0;
    latencies = [];
  };
  samples = [];
}

-- `e` is before `start`, or is the first sample
earlier : Bool → ℕ → ℕ → ℕ
earlier first e start = let s = if first then e else start in if ltb e s then e else s

later : Bool → ℕ → ℕ → ℕ
later first e end = let s = if first then e else end in if ltb s e then e else s

-- AddSample of a group
unfoldable pub add_sample : Sample → SampleGroup → SampleGroup
unfolding earlier later
add_sample e g =
    let samples = g.samples ++ e ∷ [] in
    let first = length samples == 1 in
    record {
      total = record {
        job_msg_cnt = wrap (g.total.job_msg_cnt + e.job_msg_cnt);
        msg_cnt = wrap (g.total.msg_cnt + e.msg_cnt);
        msg_bytes = wrap (g.total.msg_bytes + e.msg_bytes);
        io_bytes = wrap (g.total.io_bytes + e.io_bytes);
        start = earlier first e.start g.total.start;
        end = later first e.end g.total.end;
        latencies = g.total.latencies ++ e.latencies;
      };
      samples = samples;
    }

unfoldable pub add_samples : List Sample → SampleGroup → SampleGroup
add_samples [] g = g
add_samples (e ∷ es) g = add_samples es (add_sample e g)

-- Close: the samples in the channel, in the order in which they came
unfoldable pub close : (List ℕ → List ℕ) → List Sample → Sample
close sort channel =
    let g = add_samples channel new_sample_group in
    record g.total { latencies = sort g.total.latencies }

-- MinLatency and MaxLatency of a group, in nanoseconds
unfoldable pub min_latency : Sample → ℕ
min_latency s = get_or s.latencies 0 0

unfoldable pub max_latency : Sample → ℕ
max_latency s = get_or s.latencies (length s.latencies - 1) 0

-- MinMsgRate and MaxMsgRate, `rate` being a sample's
module _ (rate : Sample → ℤ) where
  min_from : ℤ → List Sample → ℤ
  min_from m [] = m
  min_from m (s ∷ ss) = min_from (if ltb_ℤ (rate s) m then rate s else m) ss

  unfoldable pub min_msg_rate : List Sample → ℤ
  unfolding min_from
  min_msg_rate [] = pos 0
  min_msg_rate (s ∷ ss) = min_from (rate s) (s ∷ ss)

  max_from : ℤ → List Sample → ℤ
  max_from m [] = m
  max_from m (s ∷ ss) = max_from (if ltb_ℤ m (rate s) then rate s else m) ss

  unfoldable pub max_msg_rate : List Sample → ℤ
  unfolding max_from
  max_msg_rate [] = pos 0
  max_msg_rate (s ∷ ss) = max_from (rate s) (s ∷ ss)
