-- ===== src/Subscribe/Handlers/Together.antt =====
-- What holds of every state that the command reaches.
use natscli.Prelude.{◌<◌, Bool, true, ◌≡◌, Text}
use natscli.Subscribe.Handlers.{SubCmd, State, start, uint_size}
use natscli.Subscribe.Handlers.Limit.{Reach, IsCounted, Reach-IsCounted}
use natscli.Subscribe.Handlers.Counted.{IsNumbered, Reach-IsNumbered}

-- With --match-replies and a --count above zero that fits in a word, whatever messages and replies arrive one at a time, in whatever order,
-- and whenever the timer fires: no more than --count messages are ever counted, the subscriptions end
-- exactly when that many are, and from then on the command is over as soon as no request waits for its
-- reply; and the counter that is printed with a message is, in a word, the number of messages received
-- and of those that the client reported as dropped, where these numbers fit in an int.
pub Reach-IsSound :
    (collide : Text → Text → Bool) (c : SubCmd) (s : State)
    → c.match_replies ≡ true
    → 0 < c.limit
    → c.limit < uint_size
    → Reach collide c start s
    → IsCounted collide c s × IsNumbered s
Reach-IsSound collide c s matching some_of fits r =
    (Reach-IsCounted collide c matching some_of fits r, Reach-IsNumbered collide c r)
