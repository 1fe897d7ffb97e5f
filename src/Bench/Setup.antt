-- ===== src/Bench/Setup.antt =====
-- cli/bench_command.go, jspubActions: what it sets up before the clients start. Talking to the server,
-- the banner and the clients themselves are not modelled.
pub mod Accepted
mod Examples
use natscli.Prelude.{ℕ, Bool, true, false, not, ◌&&◌, ltb, ◌==◌, if◌then◌else◌}

-- jsPubType
pub data PubType : Type 0 where
  js_sync js_async js_batch_atomic js_batch_fast : PubType

abbrev pub is_atomic : PubType → Bool
is_atomic js_batch_atomic = true
is_atomic t = false

abbrev pub is_fast : PubType → Bool
is_fast js_batch_fast = true
is_fast t = false

pub record Setup : Type 0 where
  pub num_clients : ℕ
  pub num_msg : ℕ
  pub replicas : ℕ
  pub persist_mode_async : Bool
  pub batch_size : ℕ

-- what the created stream gets of it
pub record StreamSetup : Type 0 where
  pub stream_replicas : ℕ
  pub async_persist_mode : Bool
  pub allow_atomic_publish : Bool

-- an error of the settings, or the settings and the stream
pub data SetupResult : Type 0 where
  incompatible_persist_mode : SetupResult
  set_up : Setup → StreamSetup → SetupResult

-- no more clients than messages
unfoldable pub with_clients : Setup → Setup
with_clients c = if ltb c.num_msg c.num_clients then record c { num_clients = c.num_msg } else c

-- the window of the fast publisher is a uint16
unfoldable pub with_batch_size : PubType → Setup → Setup
with_batch_size t c =
    if is_fast t && ltb 65535 c.batch_size then record c { batch_size = 65535 } else c

unfoldable pub stream_setup : PubType → Setup → StreamSetup
stream_setup t c =
    let async = (c.replicas == 1) && (not (is_atomic t) && c.persist_mode_async) in
    record {
      stream_replicas = c.replicas;
      async_persist_mode = async;
      allow_atomic_publish = not async;
    }

unfoldable pub jspub_setup : PubType → Setup → SetupResult
jspub_setup t before =
    let c = with_clients before in
    let sized = with_batch_size t c in
    if c.persist_mode_async && (not (c.replicas == 1) && is_atomic t)
    then incompatible_persist_mode
    else set_up sized (stream_setup t sized)
