-- ===== src/Bench/Settings/Examples.antt =====
-- The settings of a benchmark that runs for a time.
use natscli.Prelude.{true, [], ◌≡◌, refl, str_eq}
use natscli.Prelude.Int.{ℤ, pos, negsuc}
use natscli.Bench.Settings.{
  Settings, ok, error, negative_duration, no_throughput, positive, process_action_args,
}
use natscli.Bench.Settings.Valid.{Counted, Sized, StreamSized, process_action_args_ok}

abbrev given : ℤ → ℤ → Settings
given duration throughput = record {
  duration = duration;
  throughput = throughput;
  num_msg = pos 100000;
  msg_size_string = [];
  msg_size = pos 128;
  stream_max_bytes_string = [];
  stream_max_bytes = pos 1024;
}

abbrev derived : ℤ → ℤ → ℤ
derived throughput duration = pos 600

abbrev taken : Settings
taken = record (given (pos 60) (pos 10)) { num_msg = pos 600 }

six_hundred : process_action_args derived true (given (pos 60) (pos 10)) ≡ ok taken
unfolding process_action_args str_eq
six_hundred = refl

needs_throughput : process_action_args derived true (given (pos 60) (pos 0)) ≡ error no_throughput
unfolding process_action_args
needs_throughput = refl

not_negative :
    process_action_args derived true (given (negsuc 0) (pos 10)) ≡ error negative_duration
unfolding process_action_args
not_negative = refl

process_action_args_ok_example :
    (true ≡ true)
    × ((counted : Settings) × (sized : Settings) × Counted derived (given (pos 60) (pos 10)) counted
        × (positive counted.num_msg ≡ true)
        × Sized counted sized
        × StreamSized sized taken)
process_action_args_ok_example =
    process_action_args_ok derived true (given (pos 60) (pos 10)) taken six_hundred
