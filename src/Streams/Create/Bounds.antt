-- ===== src/Streams/Create/Bounds.antt =====
-- What holds of a configuration that is made of the flags and the answers.
use natscli.Prelude.{
  Bool, false, not, ◌≢◌, ◌⊎◌, inl, inr, ◌≡◌, refl, sym, ap, ◌∙◌, arith, if◌then◌else◌, if_both,
}
use natscli.Prelude.Int.{ℤ, pos, negsuc, ◌≤ℤ◌}
use natscli.Dialog.{ask_one_int, ask_one_bytes}
use natscli.Dialog.Quiet.{Gives, >>=-Gives, >>=-Gives_any, pure-Gives, refuse-Gives, if-Gives}
use natscli.Streams.{StreamCmd, Externals, Limits}
use natscli.Streams.Edit.{is_zero, int32}
use natscli.Streams.Create.{
  given_or, minus_one, not_above, or_unlimited, ask_replicas, ask_max_bytes, ask_max_msg_size,
  ask_msgs, ask_msgs_per, ask_max_age, ask_window, ask_limits,
}

-- A limit on bytes is -1, or 1 at least.
abbrev pub Limited : ℤ → Type 0
Limited z = (z ≡ minus_one) ⊎ (pos 1 ≤ℤ z)

-- A size that was given, as it is stored: it is an int32, or wraps around below the least one.
abbrev pub Fits : ℤ → ℤ → Type 0
Fits size m =
    size ≢ pos 0
    → (size ≤ℤ pos 2147483647) × (m ≡ int32 size) × (negsuc 2147483647 ≤ℤ size → m ≡ size)

abbrev pub Bounded : ℤ → Limits → Type 0
Bounded size l = (pos 1 ≤ℤ l.replicas) × Limited l.max_bytes × Fits size l.max_msg_size

pub ask_replicas-Gives : (z : ℤ) → Gives (λ n. pos 1 ≤ℤ n) (ask_replicas z)
unfolding ask_replicas
ask_replicas-Gives z =
    >>=-Gives_any (given_or (not (is_zero z)) z ask_one_int) _ (λ n. pos 1 ≤ℤ n)
      (λ n.
        if-Gives (λ n. pos 1 ≤ℤ n) (not_above n 0) _ _ (λ e. refuse-Gives (λ n. pos 1 ≤ℤ n) _)
          (λ e. pure-Gives (λ n. pos 1 ≤ℤ n) n (ground arith)))

or_unlimited-Limited : (z : ℤ) → Limited (or_unlimited z)
or_unlimited-Limited z =
    if_both Limited (not_above z 0) _ _ (λ e. inl refl) (λ e. inr (ground arith))

ask_max_bytes-Gives : (required : Bool) (z : ℤ) → Gives Limited (ask_max_bytes required z)
unfolding ask_max_bytes
ask_max_bytes-Gives required z =
    >>=-Gives_any (given_or (not (is_zero z)) z (ask_one_bytes required)) _ Limited
      (λ n. pure-Gives Limited (or_unlimited n) (or_unlimited-Limited n))

int32_same : (z : ℤ) → z ≤ℤ pos 2147483647 → negsuc 2147483647 ≤ℤ z → int32 z ≡ z
unfolding int32
int32_same (pos n) h k = ground arith
int32_same (negsuc n) h k = ground arith

zero_of : (z : ℤ) → not (is_zero z) ≡ false → z ≡ pos 0
zero_of (pos n) h = ground arith
zero_of (negsuc n) h = ground arith

-- A size that was given is taken as it is, if it is not too big.
abbrev Taken : ℤ → ℤ → Type 0
Taken size n = size ≢ pos 0 → (n ≡ size) × (n ≤ℤ pos 2147483647)

given-Gives :
    (z : ℤ) → Gives (λ n. z ≢ pos 0 → n ≡ z) (given_or (not (is_zero z)) z (ask_one_bytes false))
given-Gives z =
    let P : ℤ → Type 0 = λ n. z ≢ pos 0 → n ≡ z in
    if-Gives P (not (is_zero z)) _ _ (λ e. pure-Gives P z (λ h. refl))
      (λ e t n q h. absurd (h (zero_of z e)))

sized : (n z : ℤ) → z ≢ pos 0 → n ≡ z → (if is_zero n then minus_one else n) ≡ z
sized n z h e =
    ap (λ k. if is_zero k then minus_one else k) e
    ∙ if_both (λ k. k ≡ z) (is_zero z) minus_one z (λ zero. absurd (h (zero_of z (ground arith))))
        (λ other. refl)

ask_max_msg_size-Gives : (z : ℤ) → Gives (Taken z) (ask_max_msg_size z)
unfolding ask_max_msg_size
ask_max_msg_size-Gives z =
    >>=-Gives (given_or (not (is_zero z)) z (ask_one_bytes false)) _ (λ n. z ≢ pos 0 → n ≡ z)
      (Taken z) (given-Gives z)
      (λ n same.
        let size : ℤ = if is_zero n then minus_one else n in
        if-Gives (Taken z) (not_above size 2147483647) _ _
          (λ e. pure-Gives (Taken z) size (λ h. (sized n z h (same h), ground arith)))
          (λ e. refuse-Gives (Taken z) _))

stored : (size n : ℤ) → Taken size n → Fits size (int32 n)
stored size n h some_of =
    let (same, le) = h some_of in
    let fits : size ≤ℤ pos 2147483647 = rw (sym same) le in
    (fits, ap int32 same, λ k. ap int32 same ∙ int32_same size fits k)

pub ask_limits-Gives :
    (ext : Externals) (require_size : Bool) (c : StreamCmd) (replicas : ℤ)
    → pos 1 ≤ℤ replicas
    → Gives (Bounded c.limits.max_msg_size) (ask_limits ext require_size c replicas)
unfolding ask_limits
ask_limits-Gives ext require_size c replicas h =
    let P = Bounded c.limits.max_msg_size in
    let T = Taken c.limits.max_msg_size in
    >>=-Gives_any (ask_msgs c.limits.max_msg_limit) _ P (λ msgs.
      >>=-Gives_any (ask_msgs_per c.subjects c.limits.max_msg_per_subject_limit) _ P (λ per.
        >>=-Gives (ask_max_bytes require_size c.limits.max_bytes_limit) _ Limited P
          (ask_max_bytes-Gives require_size c.limits.max_bytes_limit)
          (λ bytes hb. >>=-Gives_any (ask_max_age ext.numbers c.limits.max_age_limit) _ P (λ age.
            >>=-Gives (ask_max_msg_size c.limits.max_msg_size) _ T P
              (ask_max_msg_size-Gives c.limits.max_msg_size)
              (λ size hs.
                >>=-Gives_any (ask_window ext c.accept_defaults c.mirror c.limits.dupe_window age) _
                  P (λ window. pure-Gives P _ (h, hb, stored c.limits.max_msg_size size hs)))))))
