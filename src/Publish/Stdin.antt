-- ===== src/Publish/Stdin.antt =====
-- internal/util/publisher.go, ReadStdin. What bufio.Reader answers is a parameter: the pieces of lines that
-- ReadLine gives, each with isPrefix, then the end of the input or a failure.
pub mod Lines
mod Examples
use natscli.Prelude.{
  ◌+◌, Bool, true, false, not, ◌&&◌, ◌||◌, List, [], ◌∷◌, ◌++◌, ◌⊎◌, inl, inr, Option, none, some,
  Text, if◌then◌else◌,
}
use natscli.Publish.Message.{PubError}

pub data SendOn : Type 0 where
  eof newline : SendOn

pub record Reader : Type 0 where
  pub contents : Option Text
  pub pieces : List (Text × Bool)
  pub broken : Bool

-- Publisher, less its progress bar
pub record Publisher : Type 0 where
  pub use_stdin : Bool
  pub templates : Bool
  pub send_on : SendOn

-- NewPublisher's UseStdin
unfoldable pub use_stdin_of : Bool → Bool → Bool → Bool → Bool
use_stdin_of body_is_set stdin_terminal terminal force_stdin =
    not body_is_set && (not stdin_terminal || terminal || force_stdin)

-- the body, and whether the input is at its end; with what is left to read
abbrev pub Read : Type 0
Read = (PubError ⊎ (Text × Bool)) × List (Text × Bool)

-- the loop of the newline mode, with the buffer `buf`
unfoldable pub read_line : Bool → Text → List (Text × Bool) → Read
read_line true buf [] = (inl PubError.read_failed, [])
read_line false buf [] = (inr (buf, true), [])
read_line broken buf ((line, is_prefix) ∷ pieces) =
    let rest = read_line broken (buf ++ line) pieces in
    if is_prefix then rest else (inr (buf ++ line, false), pieces)

read_all : Option Text → PubError ⊎ (Text × Bool)
read_all none = inl PubError.read_failed
read_all (some body) = inr (body, true)

unfoldable pub read_mode : SendOn → Reader → Read
unfolding read_all
read_mode SendOn.eof r = (read_all r.contents, r.pieces)
read_mode SendOn.newline r = read_line r.broken [] r.pieces

-- ReadStdin
unfoldable pub read_stdin : Publisher → Reader → Read
read_stdin pub_of r =
    if pub_of.use_stdin then read_mode pub_of.send_on r else (inr ([], true), r.pieces)
