-- ===== src/Bench/Loops.antt =====
-- cli/bench_command.go, coreNATSPublisher, coreNATSRequester and kvPutter: the loops over one client's
-- messages that wait for each. What the network answers is a parameter; latencies are not modelled.
pub mod Complete
mod Examples
use natscli.Prelude.{
  ℕ, zero, suc, ◌+◌, ◌-◌, Bool, false, not, ◌||◌, List, [], ◌∷◌, Option, none, some, Text, codes,
  str_eq, has_prefix, ltb, ◌==◌, if◌then◌else◌,
}

pub data LoopEnd : Type 0 where
  finished failed bad_reply : LoopEnd

abbrev pub Loop : Type 0
Loop = List ℕ × LoopEnd

-- coreNATSPublisher at `i`, with the rounds left: the numbers whose subjects were published to
core_loop : (ℕ → Bool) → ℕ → ℕ → ℕ → Loop
core_loop ok offset i zero = ([], finished)
core_loop ok offset i (suc rounds) =
    let (rest, ending) = core_loop ok offset (i + 1) rounds in
    if ok (i + offset) then ((i + offset) ∷ rest, ending) else ((i + offset) ∷ [], failed)

unfoldable pub core_nats_publisher : (ℕ → Bool) → ℕ → ℕ → Loop
unfolding core_loop
core_nats_publisher ok num_msg offset = core_loop ok offset 0 num_msg

-- bytes.Contains
unfoldable pub contains : Text → Text → Bool
contains [] t = str_eq t []
contains (c ∷ s) t = has_prefix (c ∷ s) t || contains s t

-- `len(m.Data) == 0 || m.Data[0] == minusByte || bytes.Contains(m.Data, errBytes)` is a bad reply
unfoldable pub is_good_reply : Text → Bool
is_good_reply [] = false
is_good_reply (c ∷ rest) = not (c == b'-' || contains (c ∷ rest) (codes "error"))

-- coreNATSRequester: no reply is an error, a bad one ends the program
answered : ℕ → Option Text → Loop → Loop
answered n none next = (n ∷ [], failed)
answered n (some body) (rest, ending) =
    if is_good_reply body then (n ∷ rest, ending) else (n ∷ [], bad_reply)

request_loop : (ℕ → Option Text) → ℕ → ℕ → ℕ → Loop
unfolding answered
request_loop reply offset i zero = ([], finished)
request_loop reply offset i (suc rounds) =
    answered (i + offset) (reply (i + offset)) (request_loop reply offset (i + 1) rounds)

unfoldable pub core_nats_requester : (ℕ → Option Text) → ℕ → ℕ → Loop
unfolding request_loop
core_nats_requester reply num_msg offset = request_loop reply offset 0 num_msg

-- kvPutter: the keys; with --randomize, `random i` is what rand.IntN gave
put_loop : (ℕ → Bool) → ℕ → (ℕ → ℕ) → ℕ → ℕ → ℕ → Loop
put_loop ok randomize random offset i zero = ([], finished)
put_loop ok randomize random offset i (suc rounds) =
    let key = if ltb 0 randomize then random i else offset + i in
    let (rest, ending) = put_loop ok randomize random offset (i + 1) rounds in
    if ok key then (key ∷ rest, ending) else (key ∷ [], failed)

unfoldable pub kv_putter : (ℕ → Bool) → ℕ → (ℕ → ℕ) → ℕ → ℕ → Loop
unfolding put_loop
kv_putter ok randomize random num_msg offset = put_loop ok randomize random offset 0 num_msg
