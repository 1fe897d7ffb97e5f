-- ===== src/Bench/Setup/Examples.antt =====
-- Twenty clients with ten messages, on a stream of three replicas.
use natscli.Prelude.{◌≤◌, min, true, false, not, ◌↔◌, ◌⊎◌, ◌≡◌, refl, arith, length, All}
use natscli.Bench.Clients.{msgs_per_client}
use natscli.Bench.Setup.{
  js_async, is_atomic, is_fast, Setup, StreamSetup, set_up, with_clients, with_batch_size,
  stream_setup, jspub_setup,
}
use natscli.Bench.Setup.Accepted.{jspub_setup_lem}

abbrev asked : Setup
asked = record {
  num_clients = 20;
  num_msg = 10;
  replicas = 3;
  persist_mode_async = true;
  batch_size = 500;
}

abbrev given : Setup
given = record asked { num_clients = 10 }

abbrev synchronous : StreamSetup
synchronous = record {
  stream_replicas = 3;
  async_persist_mode = false;
  allow_atomic_publish = true;
}

-- asynchronous persistence is asked for, and left out without an error
left_out : jspub_setup js_async asked ≡ set_up given synchronous
unfolding jspub_setup with_clients with_batch_size stream_setup
left_out = refl

jspub_setup_run :
    ((given.num_msg ≡ asked.num_msg)
      × (length (msgs_per_client 10 10) ≡ min 20 10)
      × All (λ n. 1 ≤ n) (msgs_per_client 10 10)
      × ((is_fast js_async ≡ false) ⊎ (500 ≤ 65535)))
    × ((false ≡ true) ↔ ((true ≡ true) × (asked.replicas ≡ 1) × (is_atomic js_async ≡ false)))
    × (true ≡ not false)
jspub_setup_run =
    jspub_setup_lem js_async asked given synchronous (omega arith) (omega arith) left_out
