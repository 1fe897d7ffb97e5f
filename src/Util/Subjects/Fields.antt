-- ===== src/Util/Subjects/Fields.antt =====
-- SplitString loses the separators and nothing else.
use natscli.Prelude.{
  ℕ, Bool, true, false, List, [], ◌∷◌, ◌++◌, ◌≢◌, ◌≡◌, Text, if◌then◌else◌, any, All, cons-ne-nil,
  cons-ne-nil,
}
use natscli.Util.Subjects.{is_cli_separator, is_separator}

-- The characters that do not separate.
abbrev pub kept : (ℕ → Bool) → Text → Text
kept p [] = []
kept p (c ∷ s) = if p c then kept p s else c ∷ kept p s

abbrev pub concat : List Text → Text
concat [] = []
concat (s ∷ ss) = s ++ concat ss

abbrev pub Field : (ℕ → Bool) → Text → Type 0
Field p s = (s ≢ []) × All (λ c. p c ≡ false) s

-- How a text is split: what separates is left out, and a field ends at a character that separates or at
-- the end of the text.
pub data SplitsInto (p : ℕ → Bool) : Text → List Text → Type 0 where
  empty : SplitsInto p [] []
  skip :
      (c : ℕ) (s : Text) (fields : List Text)
      → p c ≡ true
      → SplitsInto p s fields
      → SplitsInto p (c ∷ s) fields
  final : (f : Text) → Field p f → SplitsInto p f (f ∷ [])
  field :
      (f : Text) (c : ℕ) (s : Text) (fields : List Text)
      → Field p f
      → p c ≡ true
      → SplitsInto p s fields
      → SplitsInto p (f ++ c ∷ s) (f ∷ fields)

-- What comes out of a list of subjects: each is split if it holds a comma or white space, and else kept.
pub data SplitUp : List Text → List Text → Type 0 where
  none_left : SplitUp [] []
  kept_whole :
      (s : Text) (ss ts : List Text)
      → All (λ c. is_cli_separator c ≡ false) s
      → SplitUp ss ts
      → SplitUp (s ∷ ss) (s ∷ ts)
  split_up :
      (s : Text) (fields ss ts : List Text)
      → any is_cli_separator s ≡ true
      → SplitsInto is_separator s fields
      → SplitUp ss ts
      → SplitUp (s ∷ ss) (fields ++ ts)
