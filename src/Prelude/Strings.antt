-- ===== src/Prelude/Strings.antt =====
-- Go's strings: the list of their bytes, with `==` and the functions of package strings that the
-- program calls.
use Prim.Native.Char.{code}
use Prim.Native.Nat.{ℕ, zero, suc, ◌-◌, ◌+◌}
use Prim.Native.String.{String}
use mathlib.Core.Bool.{Bool, true, false, ◌&&◌}
use mathlib.Core.List.{cons-ne-nil, List, [], ◌∷◌, ◌++◌}
use mathlib.Core.Logic.{◌≢◌, ◌↔◌}
use mathlib.Core.Path.{◌≡◌, refl}
use native.Mathlib.Omega.{arith}
use natscli.Prelude.Lists.{length-append, take-append, drop-append, length, take, drop}
use natscli.Prelude.Tests.{le→leb, ltb, leb, ◌==◌, if◌then◌else◌}

abbrev pub Text : Type 0
Text = List ℕ

-- The bytes of an ASCII literal.
abbrev pub codes : String → Text
codes String.[] = []
codes (String.◌∷◌ c s) = code c ∷ codes s

-- `a == b` of two strings.
unfoldable pub str_eq : Text → Text → Bool
str_eq [] [] = true
str_eq [] (b ∷ t) = false
str_eq (a ∷ s) [] = false
str_eq (a ∷ s) (b ∷ t) = a == b && str_eq s t

pub str_eq_refl : (s : Text) → str_eq s s ≡ true
unfolding str_eq
str_eq_refl [] = refl
str_eq_refl (a ∷ s) = ground (arith, str_eq_refl s)

pub str_eq→eq : (s t : Text) → str_eq s t ≡ true → s ≡ t
unfolding str_eq
str_eq→eq [] [] h = refl
str_eq→eq [] (b ∷ t) h = cc
str_eq→eq (a ∷ s) [] h = cc
str_eq→eq (a ∷ s) (b ∷ t) h = ground (arith, str_eq→eq s t)

pub str_eq_iff : (s t : Text) → (str_eq s t ≡ true) ↔ (s ≡ t)
str_eq_iff s t = (str_eq→eq s t, λ e. rw e (str_eq_refl t))

-- `a < b` of two strings: lexicographic on the bytes.
unfoldable pub lt_text : Text → Text → Bool
lt_text s [] = false
lt_text [] (b ∷ t) = true
lt_text (a ∷ s) (b ∷ t) = let rest = lt_text s t in if ltb a b then true else a == b && rest

-- strings.HasPrefix
unfoldable pub has_prefix : Text → Text → Bool
has_prefix s [] = true
has_prefix [] (b ∷ t) = false
has_prefix (a ∷ s) (b ∷ t) = a == b && has_prefix s t

-- strings.HasSuffix: the text's last bytes, as many as the suffix has, are the suffix.
unfoldable pub has_suffix : Text → Text → Bool
has_suffix s t = leb (length t) (length s) && str_eq (drop (length s - length t) s) t

-- strings.TrimSuffix
unfoldable pub trim_suffix : Text → Text → Text
unfolding has_suffix
trim_suffix s t = if has_suffix s t then take (length s - length t) s else s

-- strings.Join
unfoldable pub join : List Text → Text → Text
join [] sep = []
join (p ∷ []) sep = p
join (p ∷ q ∷ ps) sep = p ++ (sep ++ join (q ∷ ps) sep)

-- strings.Split at a single byte: the parts, of which there is at least one.
split_step : ℕ → ℕ → List Text → List Text
split_step c sep [] = (c ∷ []) ∷ []
split_step c sep (p ∷ ps) = if c == sep then [] ∷ p ∷ ps else (c ∷ p) ∷ ps

unfoldable pub split : Text → ℕ → List Text
unfolding split_step
split [] sep = [] ∷ []
split (c ∷ s) sep = split_step c sep (split s sep)

-- strings.Repeat
unfoldable pub repeat : Text → ℕ → Text
repeat s zero = []
repeat s (suc n) = s ++ repeat s n

pub split-ne-nil : (s : Text) (sep : ℕ) → split s sep ≢ []
unfolding split
split-ne-nil [] sep = cons-ne-nil _ _
split-ne-nil (c ∷ s) sep = ground (arith, split-ne-nil s sep)

join_step :
    (c sep : ℕ) (ps : List Text)
    → ps ≢ []
    → join (split_step c sep ps) (sep ∷ []) ≡ c ∷ join ps (sep ∷ [])
unfolding join split_step
join_step c sep [] h = absurd (h refl)
join_step c sep (p ∷ []) h = ground arith
join_step c sep (p ∷ q ∷ ps) h = ground arith

-- Joining the parts of a split gives the text back.
pub join-split : (s : Text) (sep : ℕ) → join (split s sep) (sep ∷ []) ≡ s
unfolding split
join-split [] sep = unfold join in refl
join-split (c ∷ s) sep = rw (join_step c sep (split s sep) (split-ne-nil s sep), join-split s sep)

pub has_suffix-append : (s t : Text) → has_suffix (s ++ t) t ≡ true
unfolding has_suffix
has_suffix-append s t =
    rw (length-append s t, le→leb (length t) (length s + length t) (omega arith))
      (rw (drop-append s t (length s + length t - length t) (omega arith)) (str_eq_refl t))

-- A suffix that is there is chopped off.
pub trim_suffix-append : (s t : Text) → trim_suffix (s ++ t) t ≡ s
unfolding trim_suffix
trim_suffix-append s t =
    rw (has_suffix-append s t)
      (rw (length-append s t) (take-append s t (length s + length t - length t) (omega arith)))
