-- ===== src/Duration/Digits.antt =====
-- The decimal text of a number spells it.
use natscli.Prelude.{
  ℕ, zero, suc, ◌+◌, ◌-◌, ◌*◌, ◌/◌, ◌%◌, ◌^◌, ◌<◌, Bool, true, [], ◌∷◌, ◌++◌, ◌≢◌, ◌≡◌, refl, ◌∙◌,
  arith, Text, ltb, ltb→lt, lt→ltb, all, if_both, cons-ne-nil, cons-ne-nil,
}
use natscli.Util.Decimal.{is_digit, value, value_from}
use natscli.Duration.{digits_of, decimal}

abbrev pub bound : ℕ → ℕ
bound zero = 1
bound (suc k) = 10 * bound k

value_from-append :
    (n c : ℕ) (s : Text) → value_from n (s ++ c ∷ []) ≡ value_from n s * 10 + (c - b'0')
value_from-append n c [] = refl
value_from-append n c (d ∷ s) = value_from-append (n * 10 + (d - b'0')) c s

pub all-append :
    (p : ℕ → Bool) (s t : Text) → all p s ≡ true → all p t ≡ true → all p (s ++ t) ≡ true
all-append p [] t h k = k
all-append p (c ∷ s) t h k = let rest = all-append p s t in ground arith

digit_char : (n : ℕ) → n < 10 → is_digit (b'0' + n) ≡ true
unfolding is_digit
digit_char n h = ground arith

digits_of_digits : (k n : ℕ) → all is_digit (digits_of k n) ≡ true
unfolding digits_of
digits_of_digits zero n = refl
digits_of_digits (suc k) n =
    if_both (λ t. all is_digit t ≡ true) (ltb n 10) ((b'0' + n) ∷ [])
      (digits_of k (n / 10) ++ (b'0' + n % 10) ∷ [])
      (λ e. let d = digit_char n (ltb→lt n 10 e) in ground arith)
      (λ e.
        all-append is_digit (digits_of k (n / 10)) ((b'0' + n % 10) ∷ [])
          (digits_of_digits k (n / 10)) (let d = digit_char (n % 10) (omega arith) in ground arith))

value-digits_of : (k n : ℕ) → n < bound k → 0 < k → value (digits_of k n) ≡ n
unfolding digits_of
value-digits_of zero n h some_of = absurd (omega arith)
value-digits_of (suc zero) n h some_of = rw (lt→ltb n 10 h) (omega arith)
value-digits_of (suc (suc k)) n h some_of =
    let tenth = value-digits_of (suc k) (n / 10) (omega arith) (omega arith) in
    let rest = digits_of (suc k) (n / 10) in
    if_both (λ t. value t ≡ n) (ltb n 10) ((b'0' + n) ∷ []) (rest ++ (b'0' + n % 10) ∷ [])
      (λ e. omega arith) (λ e. value_from-append 0 (b'0' + n % 10) rest ∙ omega (arith, tenth))

append_some : (s : Text) (c : ℕ) → s ++ c ∷ [] ≢ []
append_some [] c = cons-ne-nil c []
append_some (d ∷ s) c = cons-ne-nil d (s ++ c ∷ [])

digits_of_some : (k n : ℕ) → digits_of (suc k) n ≢ []
unfolding digits_of
digits_of_some k n =
    if_both (λ t. t ≢ []) (ltb n 10) ((b'0' + n) ∷ [])
      (digits_of k (n / 10) ++ (b'0' + n % 10) ∷ []) (λ e. cons-ne-nil (b'0' + n) [])
      (λ e. append_some (digits_of k (n / 10)) (b'0' + n % 10))

-- A number is spelt by digits, one at least, whose value it is.
abbrev pub Spells : Text → ℕ → Type 0
Spells t n = (all is_digit t ≡ true) × (value t ≡ n) × (t ≢ [])

pub decimal-Spells : (n : ℕ) → n < 2 ^ 63 → Spells (decimal n) n
decimal-Spells n h =
    (digits_of_digits 19 n, value-digits_of 19 n (omega arith) (omega arith), digits_of_some 18 n)
