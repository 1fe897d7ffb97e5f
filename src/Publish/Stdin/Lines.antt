-- ===== src/Publish/Stdin/Lines.antt =====
-- The lines that the pieces make up.
use natscli.Prelude.{
  ℕ, ◌<◌, Bool, true, false, List, [], ◌∷◌, ◌++◌, inr, ◌≡◌, refl, arith, Text, if◌then◌else◌,
  length,
}
use natscli.Publish.Stdin.{read_line}

-- The lines of the input: each is made of the pieces up to the first that is no prefix, and the last
-- one of what is left, if that is not empty.
last_line : Text → List Text
last_line [] = []
last_line (c ∷ s) = (c ∷ s) ∷ []

unfoldable pub lines_of : Text → List (Text × Bool) → List Text
unfolding last_line
lines_of buf [] = last_line buf
lines_of buf ((line, is_prefix) ∷ pieces) =
    let rest = lines_of (buf ++ line) pieces in
    if is_prefix then rest else (buf ++ line) ∷ lines_of [] pieces

-- How a read of an input that does not fail goes.
pub data Reads (buf : Text) (pieces : List (Text × Bool)) : Type 0 where
  at_end :
      read_line false buf pieces ≡ (inr ([], true), [])
      → lines_of buf pieces ≡ []
      → Reads buf pieces
  last :
      (c : ℕ) (s : Text)
      → read_line false buf pieces ≡ (inr (c ∷ s, true), [])
      → lines_of buf pieces ≡ (c ∷ s) ∷ []
      → Reads buf pieces
  one :
      (t : Text) (rest : List (Text × Bool))
      → read_line false buf pieces ≡ (inr (t, false), rest)
      → lines_of buf pieces ≡ t ∷ lines_of [] rest
      → length rest < length pieces
      → Reads buf pieces

pub reads : (buf : Text) (pieces : List (Text × Bool)) → Reads buf pieces
unfolding read_line lines_of
reads [] [] = at_end refl refl
reads (c ∷ s) [] = last c s refl refl
reads buf ((line, true) ∷ pieces) = elim (reads (buf ++ line) pieces) [
  | at_end r l ↦ at_end r l
  | last c s r l ↦ last c s r l
  | one t rest r l h ↦ one t rest r l (omega arith)
]
reads buf ((line, false) ∷ pieces) = one (buf ++ line) pieces refl refl (omega arith)
