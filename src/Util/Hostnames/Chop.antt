-- ===== src/Util/Hostnames/Chop.antt =====
-- What CompactStrings chops off, and what it leaves.
use natscli.Prelude.{
  ℕ, zero, suc, ◌-◌, ◌≤◌, ◌<◌, true, false, List, [], ◌∷◌, ◌++◌, append-nil, append_assoc, map, inl,
  inr, ◌≡◌, refl, sym, ap, ◌∙◌, arith, Text, str_eq→eq, str_eq, trim_suffix, join, split,
  Bool-cases, &&-both, length, get_or, take, drop, All, take-append-drop, split-ne-nil, join-split,
  trim_suffix-append, drop_all,
}
use mathlib.Core.Path.{subst}
use natscli.Prelude.{List-cases}
use natscli.Util.Hostnames.{
  parts_of, max_int32, shortest_from, same_part, chop_loop, common_suffix, compact_strings,
}

-- The parts, each behind a dot.
dotted : List Text → Text
dotted [] = []
dotted (p ∷ ps) = b'.' ∷ (p ++ dotted ps)

abbrev pub dot : Text
dot = b'.' ∷ []

-- `Suffix k r names`: behind its first `k` parts, each name reads `r`.
abbrev Suffix : ℕ → Text → List (List Text) → Type 0
Suffix k r names = All (λ name. (k ≤ length name) × (dotted (drop k name) ≡ r)) names

join-dotted : (p : Text) (ps : List Text) → join (p ∷ ps) dot ≡ p ++ dotted ps
unfolding join dotted
join-dotted p [] = sym (append-nil p)
join-dotted p (q ∷ ps) = rw (join-dotted q ps)

drop-get :
    (name : List Text) (i : ℕ)
    → i < length name
    → drop i name ≡ get_or name i [] ∷ drop (suc i) name
drop-get [] i h = elim h [ ]
drop-get (x ∷ xs) zero h = refl
drop-get (x ∷ xs) (suc i) h = drop-get xs i (omega arith)

suffix_step :
    (names : List (List Text)) (i : ℕ) (s r : Text)
    → same_part names i s ≡ true
    → Suffix (suc i) r names
    → Suffix i (b'.' ∷ (s ++ r)) names
unfolding same_part dotted
suffix_step [] i s r same h = tt
suffix_step (name ∷ names) i s r same ((fits, e), h) =
    let (here, there) = &&-both (str_eq (get_or name i []) s) _ same in
    (
      (omega arith, rw (drop-get name i fits, str_eq→eq _ _ here, e)),
      suffix_step names i s r there h,
    )

-- `Stops first names i`: no name may lose its part `i`, for it is the first part, or the names
-- differ in it.
abbrev pub Stops : List Text → List (List Text) → ℕ → Type 0
Stops first names zero = Unit
Stops first names (suc i) = same_part names (suc i) (get_or first (suc i) []) ≡ false

chop_loop_lem :
    (first : List Text) (names : List (List Text)) (i : ℕ) (r : Text)
    → Suffix (suc i) r names
    → (j : ℕ) × (j ≤ i) × Suffix (suc j) (chop_loop first names i r) names × Stops first names j
unfolding chop_loop
chop_loop_lem first names zero r h = (0, omega arith, h, tt)
chop_loop_lem first names (suc i) r h =
    elim (Bool-cases (same_part names (suc i) (get_or first (suc i) []))) [
      | inl same ↦
          let (j, le, suffix, stops) =
            chop_loop_lem first names i (b'.' ∷ (get_or first (suc i) [] ++ r))
              (suffix_step names (suc i) _ r same h) in
          rw same (j, omega arith, suffix, stops)
      | inr differs ↦ rw differs (suc i, omega arith, h, differs)
    ]

shortest_from_lem :
    (names : List (List Text)) (n : ℕ)
    → All (λ name. length name ≡ n) names
    → shortest_from n names ≡ n
unfolding shortest_from
shortest_from_lem [] n h = refl
shortest_from_lem (name ∷ names) n (e, h) = ground (arith, shortest_from_lem names n h)

-- The text up to the chopped suffix.
abbrev pub head_of : ℕ → Text → Text
head_of k name = join (take k (parts_of name)) dot

dotted-append : (ps qs : List Text) → dotted (ps ++ qs) ≡ dotted ps ++ dotted qs
unfolding dotted
dotted-append [] qs = refl
dotted-append (p ∷ ps) qs = rw (dotted-append ps qs, append_assoc)

join-take-drop :
    (ps : List Text) (k : ℕ)
    → 1 ≤ k
    → k ≤ length ps
    → join (take k ps) dot ++ dotted (drop k ps) ≡ join ps dot
join-take-drop ps zero h le = absurd (omega arith)
join-take-drop [] (suc k) h le = absurd (omega arith)
join-take-drop (p ∷ ps) (suc k) h le =
    rw (join-dotted, join-dotted, append_assoc, ← dotted-append, take-append-drop)

-- Chopping the suffix off leaves the first `k` parts.
chopped :
    (name r : Text) (k : ℕ)
    → 1 ≤ k
    → k ≤ length (parts_of name)
    → dotted (drop k (parts_of name)) ≡ r
    → (trim_suffix name r ≡ head_of k name) × (head_of k name ++ r ≡ name)
unfolding parts_of
chopped name r k pos le e =
    let whole : head_of k name ++ r ≡ name =
      rw (← e) (join-take-drop (split name b'.') k pos le ∙ join-split name b'.') in
    (ap (λ s. trim_suffix s r) (sym whole) ∙ trim_suffix-append (head_of k name) r, whole)

chopped-All :
    (names : List Text) (r : Text) (k : ℕ)
    → 1 ≤ k
    → Suffix k r (map parts_of names)
    → (map (λ s. trim_suffix s r) names ≡ map (head_of k) names)
      × All (λ name. head_of k name ++ r ≡ name) names
chopped-All [] r k pos h = (refl, tt)
chopped-All (name ∷ names) r k pos ((le, e), h) =
    let (here, whole) = chopped name r k pos le e in
    let (there, wholes) = chopped-All names r k pos h in (rw (here, there), (whole, wholes))

suffix_start :
    (names : List (List Text)) (n : ℕ) → All (λ name. length name ≡ n) names → Suffix n [] names
suffix_start [] n h = tt
suffix_start (name ∷ names) n (e, h) = (
  (omega arith, rw (drop_all name n (omega arith)) (unfold dotted in refl)),
  suffix_start names n h,
)

parts-length :
    (names : List Text) (n : ℕ)
    → All (λ s. length (parts_of s) ≡ n) names
    → All (λ ps. length ps ≡ n) (map parts_of names)
parts-length [] n h = tt
parts-length (name ∷ names) n (e, h) = (e, parts-length names n h)

parts_of_pos : (s : Text) → 1 ≤ length (parts_of s)
parts_of_pos s = elim (List-cases (parts_of s)) [
  | inl e ↦ absurd (unfold parts_of in split-ne-nil s b'.' e)
  | inr (p, ps, e) ↦ rw e (omega arith)
]

-- the loop starts at the last part of each name
starts_at :
    (name : List Text) (names : List (List Text)) (n m : ℕ)
    → n ≤ m
    → All (λ ps. length ps ≡ n) (name ∷ names)
    → shortest_from m (name ∷ names) ≡ n
unfolding shortest_from
starts_at name names n m fits (e, h) = ground (arith, shortest_from_lem names n h)

pred-suc : (n : ℕ) → 1 ≤ n → n ≡ suc (n - 1)
pred-suc n h = omega arith

common_suffix-chop_loop :
    (name : Text) (names : List Text) (n : ℕ)
    → n ≤ max_int32
    → All (λ s. length (parts_of s) ≡ n) (name ∷ names)
    → common_suffix (name ∷ names)
      ≡ chop_loop (parts_of name) (map parts_of (name ∷ names)) (n - 1) []
unfolding common_suffix
common_suffix-chop_loop name names n fits h =
    ap (λ m. chop_loop (parts_of name) (map parts_of (name ∷ names)) (m - 1) [])
      (starts_at (parts_of name) (map parts_of names) n max_int32 fits
        (parts-length (name ∷ names) n h))

common_suffix_lem :
    (name : Text) (names : List Text) (n : ℕ)
    → n ≤ max_int32
    → All (λ s. length (parts_of s) ≡ n) (name ∷ names)
    → (j : ℕ) × (j < n)
      × Suffix (suc j) (common_suffix (name ∷ names)) (map parts_of (name ∷ names))
      × Stops (parts_of name) (map parts_of (name ∷ names)) j
common_suffix_lem name names n fits h =
    let hn = map parts_of (name ∷ names) in
    let lengths = parts-length (name ∷ names) n h in
    let pos : 1 ≤ n = omega (arith, parts_of_pos name, h.0) in
    let (j, le, suffix, stops) =
      chop_loop_lem (parts_of name) hn (n - 1) []
        (subst (λ m. Suffix m [] hn) (pred-suc n pos) (suffix_start hn n lengths)) in
    (
      j,
      omega arith,
      subst (λ r. Suffix (suc j) r hn) (sym (common_suffix-chop_loop name names n fits h)) suffix,
      stops,
    )

-- Host names of one number of parts lose the longest run of last parts that they share, but never
-- their first part: with `suc j` parts kept, each result is the name's first `suc j` parts, the
-- chopped suffix behind it gives the name back, and unless `j` is 0 some name differs from the
-- first one in its part `j`.
pub compact_strings_lem :
    (name : Text) (names : List Text) (n : ℕ)
    → n ≤ max_int32
    → All (λ s. length (parts_of s) ≡ n) (name ∷ names)
    → (j : ℕ) × (j < n)
      × (compact_strings (name ∷ names) ≡ map (head_of (suc j)) (name ∷ names))
      × All (λ s. head_of (suc j) s ++ common_suffix (name ∷ names) ≡ s) (name ∷ names)
      × Stops (parts_of name) (map parts_of (name ∷ names)) j
unfolding compact_strings
compact_strings_lem name names n fits h =
    let (j, less, suffix, stops) = common_suffix_lem name names n fits h in
    let (heads, wholes) =
      chopped-All (name ∷ names) (common_suffix (name ∷ names)) (suc j) (omega arith) suffix in
    (j, less, heads, wholes, stops)
