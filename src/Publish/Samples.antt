-- ===== src/Publish/Samples.antt =====
-- Data for the runs of the publish command: the headers are a list, a template is a text whose `#` is the
-- counter, and one that begins with `{` does not parse.
use natscli.Prelude.{
  ℕ, ◌+◌, true, false, List, [], ◌∷◌, ◌++◌, Option, none, some, Text, codes, ◌==◌, if◌then◌else◌,
}
use natscli.Prelude.Int.{pos}
use natscli.Publish.Message.{Packages, PubCmd}
use natscli.Publish.Schedule.{Schedule, Times}
use natscli.Publish.Stdin.{SendOn, Publisher, Reader}
use natscli.Publish.Atomic.{Server}
use natscli.Publish.Loops.{Network}
use natscli.Publish.Action.{Flags}

abbrev pub Pairs : Type 0
Pairs = List (Text × Text)

abbrev pub fill : ℕ → Text → Text
fill i [] = []
fill i (c ∷ s) = (if c == b'#' then b'0' + i else c) ∷ fill i s

abbrev pub expand : ℕ → Text → Option Text
expand i [] = some []
expand i (c ∷ s) = if c == b'{' then none else some (fill i (c ∷ s))

abbrev pub packages : Packages Pairs
packages = record {
  template = λ now t i. expand i t;
  new_header = [];
  add = λ k v h. h ++ (k, v) ∷ [];
  set_header = λ k v h. (k, v) ∷ h;
}

abbrev pub command : PubCmd
command = record {
  subject = codes "s.#";
  body = [];
  body_is_set = false;
  reply_to = [];
  hdrs = codes "n: #" ∷ [];
  cnt = 2;
}

abbrev pub lines : Reader
lines = record {
  contents = some [];
  pieces = (codes "a", true) ∷ (codes "b", false) ∷ (codes "c", false) ∷ [];
  broken = false;
}

abbrev pub by_lines : Publisher
by_lines = record { use_stdin = true; templates = true; send_on = SendOn.newline }

abbrev pub server : Server Pairs
server = record {
  client = true;
  stream_name_by_subject = λ s. some (codes "S");
  allow_atomic = λ s. some true;
  batch_publisher = true;
  add_msg = λ k m. true;
  commit = λ ms s d. true;
}

abbrev pub network : Network Pairs
network = record {
  inbox = λ now i. codes "_INBOX.1";
  request = λ now i m. true;
  publish_msg = λ now i m. true;
}

abbrev pub no_schedule : Schedule
no_schedule = record {
  dest = [];
  at = [];
  at_parsed = [];
  after = pos 0;
  after_is_set = false;
  every = pos 0;
  every_is_set = false;
  cron = [];
  ttl = pos 0;
  source = [];
}

abbrev pub times : Times
times = record {
  utc = λ t. some t;
  from_now = λ now n. [];
  duration = λ n. [];
  target_key = codes "T";
  pattern_key = codes "P";
  ttl_key = codes "L";
  source_key = codes "S";
}

abbrev pub atomic_flags : Flags
atomic_flags = record {
  body_is_set = false;
  force_stdin = false;
  atomic = true;
  jetstream = false;
  templates = true;
  count = pos 2;
  send_on = codes "newline";
  schedule = no_schedule;
}
