-- ===== src/Publish/Atomic/Rounds.antt =====
-- How a round over the lines of the input starts.
use natscli.Prelude.{
  ◌<◌, Bool, true, false, List, [], ◌∷◌, inr, ◌≡◌, refl, ap, ◌∙◌, arith, Text, str_eq, length,
}
use natscli.Publish.Stdin.{SendOn, Publisher, Reader, read_stdin, read_mode, read_line}
use natscli.Publish.Stdin.Lines.{lines_of, reads, at_end, last, one}
use natscli.Publish.Atomic.{next_of, next, Next, go, stop}

-- A publisher that reads lines of an input which does not fail.
abbrev pub IsLineReader : Publisher → Reader → Type 0
IsLineReader pub_of r =
    (pub_of.use_stdin ≡ true) × (pub_of.send_on ≡ SendOn.newline) × (r.broken ≡ false)

-- A round stops where no line is left, or goes on with the next line, which is at the end if it is
-- the last one and no line feed follows.
pub data Starts (start : Next) (pieces : List (Text × Bool)) : Type 0 where
  stops : start ≡ stop → lines_of [] pieces ≡ [] → Starts start pieces
  finishes : (t : Text) → start ≡ go t true [] → lines_of [] pieces ≡ t ∷ [] → Starts start pieces
  goes :
      (t : Text) (rest : List (Text × Bool))
      → start ≡ go t false rest
      → lines_of [] pieces ≡ t ∷ lines_of [] rest
      → length rest < length pieces
      → Starts start pieces

next_line :
    (pub_of : Publisher) (body : Text) (r : Reader)
    → IsLineReader pub_of r
    → next pub_of true false body r ≡ next_of true false (read_line false [] r.pieces)
unfolding next read_stdin read_mode
next_line pub_of body r (u, s, b) = rw (u, s, b) refl

next_of_line :
    (t : Text) (rest : List (Text × Bool))
    → next_of true false (inr (t, false), rest) ≡ go t false rest
unfolding next_of
next_of_line t rest = ground arith

pub starts :
    (pub_of : Publisher) (body : Text) (r : Reader)
    → IsLineReader pub_of r
    → Starts (next pub_of true false body r) r.pieces
unfolding next_of str_eq
starts pub_of body r k =
    let begin = next_line pub_of body r k in
    elim (reads [] r.pieces) [
      | at_end e l ↦ stops (begin ∙ ap (next_of true false) e) l
      | last d t e l ↦ finishes (d ∷ t) (begin ∙ ap (next_of true false) e) l
      | one t rest e l less ↦
          goes t rest (begin ∙ ap (next_of true false) e ∙ next_of_line t rest) l less
    ]
