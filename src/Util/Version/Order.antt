-- ===== src/Util/Version/Order.antt =====
-- VersionIsAtLeast compares versions lexicographically.
use natscli.Prelude.{
  ◌+◌, ◌^◌, ◌<◌, true, false, [], ◌∷◌, ◌++◌, ◌≢◌, ◌↔◌, ◌⊎◌, ◌≡◌, refl, ap, ◌∙◌, arith, Text, all,
}
use natscli.Prelude.Int.{ℤ, pos, pos_part, neg_part}
use natscli.Util.Decimal.{is_digit, value, span, span-append, parse_int-digits}
use natscli.Util.Version.{
  submatches, version_components, reaches, version_is_at_least, components, strip,
}

abbrev pub LtZ : ℤ → ℤ → Type 0
LtZ a b = pos_part a + neg_part b < pos_part b + neg_part a

-- `Below x y z a b c`: the version x.y.z comes no later than a.b.c.
abbrev pub Below : ℤ → ℤ → ℤ → ℤ → ℤ → ℤ → Type 0
Below x y z a b c = LtZ x a ⊎ (x ≡ a) × (LtZ y b ⊎ (y ≡ b) × ¬ LtZ c z)

reaches_iff : (a b c x y z : ℤ) → (reaches (a, b, c) x y z ≡ true) ↔ Below x y z a b c
unfolding reaches
reaches_iff a b c x y z = (λ h. ground arith, λ h. ground arith)

-- The version x.y.z, if it comes no later than u.v.w.
reaches_earlier :
    (a b c x y z u v w : ℤ)
    → reaches (a, b, c) x y z ≡ true
    → Below u v w x y z
    → reaches (a, b, c) u v w ≡ true
unfolding reaches
reaches_earlier a b c x y z u v w h below = ground arith

-- A version that is at least x.y.z is at least everything before x.y.z, whatever the text is.
pub version_is_at_least_earlier :
    (version : Text) (x y z u v w : ℤ)
    → version_is_at_least version x y z ≡ true
    → Below u v w x y z
    → version_is_at_least version u v w ≡ true
unfolding version_is_at_least
version_is_at_least_earlier version x y z u v w h below =
    let (a, b, c) = (version_components version).0 in reaches_earlier a b c x y z u v w h below

-- What may stand behind the numbers: nothing, or a character that is no digit, as in `-beta`.
abbrev pub Ends : Text → Type 0
Ends [] = Unit
Ends (c ∷ s) = is_digit c ≡ false

span-Ends : (s : Text) → Ends s → span is_digit s ≡ ([], s)
unfolding span
span-Ends [] h = refl
span-Ends (c ∷ s) h = rw h

-- A component: one or more digits that fit an int64.
abbrev pub Component : Text → Type 0
Component s = (s ≢ []) × (all is_digit s ≡ true) × (value s < 2 ^ 63)

dot_ends : is_digit b'.' ≡ false
unfolding is_digit
dot_ends = refl

strip_dot : (s : Text) → strip b'.' (b'.' ∷ s) ≡ s
unfolding strip
strip_dot s = refl

strip_v :
    (s : Text) → all is_digit s ≡ true → s ≢ [] → (rest : Text) → strip b'v' (s ++ rest) ≡ s ++ rest
unfolding strip is_digit
strip_v [] h ne rest = absurd (ne refl)
strip_v (c ∷ s) h ne rest = ground arith

first_part : (a rest : Text) → Component a → Ends rest → span is_digit (a ++ rest) ≡ (a, rest)
first_part a rest h ends = span-append is_digit a rest h.1 (span-Ends rest ends)

submatches_lem :
    (a b c rest : Text)
    → Component a
    → Component b
    → Component c
    → Ends rest
    → submatches (a ++ b'.' ∷ (b ++ b'.' ∷ (c ++ rest))) ≡ (a, b, c)
unfolding submatches
submatches_lem a b c rest ha hb hc ends =
    rw (strip_v a ha.1 ha.0, first_part a (b'.' ∷ (b ++ b'.' ∷ (c ++ rest))) ha dot_ends)
      (rw (strip_dot (b ++ b'.' ∷ (c ++ rest)), first_part b (b'.' ∷ (c ++ rest)) hb dot_ends)
        (rw (strip_dot (c ++ rest), first_part c rest hc ends)))

components_lem :
    (a b c : Text)
    → Component a
    → Component b
    → Component c
    → (components a b c).0 ≡ (pos (value a), pos (value b), pos (value c))
unfolding components
components_lem [] b c ha hb hc = absurd (ha.0 refl)
components_lem (x ∷ a) [] c ha hb hc = absurd (hb.0 refl)
components_lem (x ∷ a) (y ∷ b) [] ha hb hc = absurd (hc.0 refl)
components_lem (x ∷ a) (y ∷ b) (z ∷ c) ha hb hc = rw (
  parse_int-digits (x ∷ a) 64 ha.0 ha.1 ha.2,
  parse_int-digits (y ∷ b) 64 hb.0 hb.1 hb.2,
  parse_int-digits (z ∷ c) 64 hc.0 hc.1 hc.2,
)

version_components_lem :
    (a b c rest : Text)
    → Component a
    → Component b
    → Component c
    → Ends rest
    → (version_components (a ++ b'.' ∷ (b ++ b'.' ∷ (c ++ rest)))).0
      ≡ (pos (value a), pos (value b), pos (value c))
unfolding version_components
version_components_lem a b c rest ha hb hc ends =
    ap (λ (m : Text × Text × Text). (components m.0 m.1 m.2).0)
      (submatches_lem a b c rest ha hb hc ends)
    ∙ components_lem a b c ha hb hc

-- A text that begins a.b.c, the three being numbers that fit an int64, with anything but a digit
-- behind it, is at least x.y.z exactly if x.y.z does not come after a.b.c lexicographically.
pub version_is_at_least_iff :
    (a b c rest : Text) (x y z : ℤ)
    → Component a
    → Component b
    → Component c
    → Ends rest
    → (version_is_at_least (a ++ b'.' ∷ (b ++ b'.' ∷ (c ++ rest))) x y z ≡ true)
      ↔ Below x y z (pos (value a)) (pos (value b)) (pos (value c))
unfolding version_is_at_least
version_is_at_least_iff a b c rest x y z ha hb hc ends =
    rw (version_components_lem a b c rest ha hb hc ends)
      (reaches_iff (pos (value a)) (pos (value b)) (pos (value c)) x y z)
