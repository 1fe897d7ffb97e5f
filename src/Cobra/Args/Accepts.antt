-- ===== src/Cobra/Args/Accepts.antt =====
-- What the argument validator accepts, and that it never panics.
use natscli.Prelude.{
  ℕ, ◌≤◌, ◌<◌, Bool, true, false, not, ◌&&◌, ◌||◌, List, [], ◌∷◌, ◌≢◌, ◌↔◌, ◌⊎◌, inl, inr, ◌≡◌,
  refl, arith, Text, str_eq_refl, str_eq→eq, str_eq, ltb, ◌==◌, if◌then◌else◌, ltb→lt, ltb_false→le,
  Bool-cases, &&-both, length, get_elem?, any, get_elem?-some, cons-ne-nil, tests,
}
use natscli.Cobra.Args.{
  ArgMeta, accepted, not_allowed, out_of_range, minimum, is_cumulative, check_enums, name_missing,
  name_unexpected, validate_args,
}

-- `a` is one of the options.
abbrev pub OneOf : Text → List Text → Type 0
OneOf a [] = ⊥
OneOf a (o ∷ os) = (a ≡ o) ⊎ OneOf a os

-- An argument with options has one of them for its value, if it is given.
abbrev pub InEnums : List ArgMeta → List Text → Type 0
InEnums [] args = Unit
InEnums (m ∷ ms) [] = Unit
InEnums (m ∷ ms) (a ∷ args) = ((m.enum ≡ []) ⊎ OneOf a m.enum) × InEnums ms args

-- Enough arguments, not too many, and each with a value that is allowed.
abbrev pub Accepts : List ArgMeta → List Text → Type 0
Accepts metas args =
    (minimum metas ≤ length args)
    × ((is_cumulative metas ≡ true) ⊎ (length args ≤ length metas))
    × InEnums metas args

||-true : (b : Bool) → (b || true) ≡ true
||-true true = refl
||-true false = refl

OneOf-iff : (a : Text) (os : List Text) → (any (str_eq a) os ≡ true) ↔ OneOf a os
OneOf-iff a [] = (λ h. cc, λ h. absurd h)
OneOf-iff a (o ∷ os) = (
  λ h. elim (Bool-cases (str_eq a o)) [
    | inl e ↦ inl (str_eq→eq a o e)
    | inr e ↦ inr ((OneOf-iff a os).0 (rw e at h))
  ],
  λ h. elim h [
    | inl e ↦ rw (e, str_eq_refl o)
    | inr k ↦ rw ((OneOf-iff a os).1 k) (||-true (str_eq a o))
  ],
)

-- the test that one round of the validator's last loop makes
abbrev passes : Text → List Text → Bool
passes a os = (length os == 0) || any (str_eq a) os

not_empty : (o : Text) (os : List Text) → (length (o ∷ os) == 0) ≡ false
not_empty o os = ground arith

passes_iff : (a : Text) (os : List Text) → (passes a os ≡ true) ↔ ((os ≡ []) ⊎ OneOf a os)
passes_iff a [] = (λ h. inl refl, λ h. refl)
passes_iff a (o ∷ os) = rw (not_empty o os) (
  λ h. inr ((OneOf-iff a (o ∷ os)).0 h),
  λ h. elim h [ inl e ↦ absurd (cons-ne-nil o os e) | inr k ↦ (OneOf-iff a (o ∷ os)).1 k ],
)

check_enums_step :
    (m : ArgMeta) (ms : List ArgMeta) (a : Text) (args : List Text)
    → check_enums (m ∷ ms) (a ∷ args)
      ≡ (if passes a m.enum then check_enums ms args else not_allowed m.name m.enum a)
unfolding check_enums
check_enums_step m ms a args = ground arith

check_enums_iff :
    (metas : List ArgMeta) (args : List Text)
    → (check_enums metas args ≡ accepted) ↔ InEnums metas args
check_enums_iff [] args = unfold check_enums in (λ h. tt, λ h. refl)
check_enums_iff (m ∷ ms) [] = unfold check_enums in (λ h. tt, λ h. refl)
check_enums_iff (m ∷ ms) (a ∷ args) = elim (Bool-cases (passes a m.enum)) [
  | inl e ↦
      rw (check_enums_step m ms a args, e)
        (
          λ h. ((passes_iff a m.enum).0 e, (check_enums_iff ms args).0 h),
          λ h. (check_enums_iff ms args).1 h.1,
        )
  | inr e ↦ rw (check_enums_step m ms a args, e) (λ h. cc, λ h. cc (e, (passes_iff a m.enum).1 h.0))
]

check_enums_defined :
    (metas : List ArgMeta) (args : List Text) → check_enums metas args ≢ out_of_range
check_enums_defined [] args = unfold check_enums in (λ h. cc)
check_enums_defined (m ∷ ms) [] = unfold check_enums in (λ h. cc)
check_enums_defined (m ∷ ms) (a ∷ args) =
    ground (arith, check_enums_step m ms a args, check_enums_defined ms args)

minimum-le-length : (metas : List ArgMeta) → minimum metas ≤ length metas
unfolding minimum
minimum-le-length [] = omega arith
minimum-le-length (m ∷ ms) = ground (arith, minimum-le-length ms)

name_missing_defined :
    (metas : List ArgMeta) (i : ℕ)
    → i < length metas
    → (name_missing (get_elem? metas i) ≢ out_of_range)
      × (name_missing (get_elem? metas i) ≢ accepted)
unfolding name_missing
name_missing_defined metas i h = let (m, e) = get_elem?-some metas i h in rw e (λ k. cc, λ k. cc)

name_unexpected_defined :
    (args : List Text) (i : ℕ)
    → i < length args
    → (name_unexpected (get_elem? args i) ≢ out_of_range)
      × (name_unexpected (get_elem? args i) ≢ accepted)
unfolding name_unexpected
name_unexpected_defined args i h = let (a, e) = get_elem?-some args i h in rw e (λ k. cc, λ k. cc)

-- The validator never reads past the arguments or past what is declared of them: it does not panic,
-- whatever is declared in whatever order.
pub validate_args_defined :
    (metas : List ArgMeta) (args : List Text) → validate_args metas args ≢ out_of_range
unfolding validate_args
validate_args_defined metas args = elim (Bool-cases (ltb (length args) (minimum metas))) [
  | inl few ↦
      rw few (name_missing_defined metas (length args) (omega (tests, minimum-le-length metas))).0
  | inr enough ↦
      rw enough (elim (Bool-cases (not (is_cumulative metas) && ltb (length metas) (length args))) [
        | inl many ↦
            rw many
              (name_unexpected_defined args (length metas) (
                ltb→lt (length metas) (length args)
                  (&&-both (not (is_cumulative metas)) (ltb (length metas) (length args))
                    many).1)).0
        | inr fits ↦ rw fits (check_enums_defined metas args)
      ])
]

too_many :
    (metas : List ArgMeta) (args : List Text)
    → not (is_cumulative metas) ≡ true
    → length metas < length args
    → (is_cumulative metas ≡ true) ⊎ (length args ≤ length metas)
    → ⊥
too_many metas args single over h = ground arith

at_most :
    (metas : List ArgMeta) (args : List Text)
    → (not (is_cumulative metas) && ltb (length metas) (length args)) ≡ false
    → (is_cumulative metas ≡ true) ⊎ (length args ≤ length metas)
at_most metas args h = ground arith

-- The validator accepts arguments exactly if there are at least as many as are required, no more
-- than are declared unless one is cumulative, and each that has options is one of them.
pub validate_args_iff :
    (metas : List ArgMeta) (args : List Text)
    → (validate_args metas args ≡ accepted) ↔ Accepts metas args
unfolding validate_args
validate_args_iff metas args = elim (Bool-cases (ltb (length args) (minimum metas))) [
  | inl few ↦ rw few (
    λ h.
        absurd
          ((name_missing_defined metas (length args) (omega (tests, minimum-le-length metas))).1 h),
    λ h. absurd (omega (tests, h.0)),
  )
  | inr enough ↦
      rw enough (elim (Bool-cases (not (is_cumulative metas) && ltb (length metas) (length args))) [
        | inl many ↦
            let (single, over) = &&-both (not (is_cumulative metas)) _ many in
            rw many (
              λ h. absurd ((name_unexpected_defined args (length metas) (ltb→lt _ _ over)).1 h),
              λ h. absurd (too_many metas args single (ltb→lt _ _ over) h.1),
            )
        | inr fits ↦ rw fits (
          λ h. (ltb_false→le _ _ enough, at_most metas args fits, (check_enums_iff metas args).0 h),
          λ h. (check_enums_iff metas args).1 h.2,
        )
      ])
]
