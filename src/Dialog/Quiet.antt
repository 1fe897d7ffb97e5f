-- ===== src/Dialog/Quiet.antt =====
-- Reasoning on a part of a command by the parts it is made of.
use natscli.Prelude.{
  Bool, true, false, ◌⊎◌, inl, inr, Option, none, some, ◌≡◌, refl, sym, ◌∙◌, arith, if◌then◌else◌,
  if_both,
}
use natscli.Dialog.{Terminal, Refusal, Dialog, and_then, ◌>>=◌, or_refuse, pure, refuse}

pub inr_injective {ℓ} : {A : Type ℓ} (a b : A) → ◌≡◌ {A = Refusal ⊎ A} (inr a) (inr b) → a ≡ b
inr_injective a b h = ground arith

pub inl-ne-inr {ℓ} : {A : Type ℓ} (e : Refusal) (b : A) → ¬ (inl e ≡ inr b)
inl-ne-inr e b h = ground arith

-- No question is asked.
abbrev pub IsQuiet {ℓ} : {A : Type ℓ} → Dialog A → Type 0
IsQuiet m = (t : Terminal) → (m t).1 ≡ t

-- What is given, if anything is, has the property.
abbrev pub Gives {ℓ κ} : {A : Type ℓ} → (A → Type κ) → Dialog A → Type (ℓ ⊔ κ)
Gives {A = A} P m = (t : Terminal) (a : A) → (m t).0 ≡ inr a → P a

module _ {ℓ κ} {A : Type ℓ} {B : Type κ} (f : A → Dialog B) where
  and_then-IsQuiet :
      (r : (Refusal ⊎ A) × Terminal) → ((a : A) → IsQuiet (f a)) → (and_then r f).1 ≡ r.1
  and_then-IsQuiet (inl e, t) k = refl
  and_then-IsQuiet (inr a, t) k = k a t

  pub and_then-Gives {μ ν} :
      (P : A → Type μ) (Q : B → Type ν) (r : (Refusal ⊎ A) × Terminal)
      → ((a : A) → r.0 ≡ inr a → P a)
      → ((a : A) → P a → Gives Q (f a))
      → (b : B) → (and_then r f).0 ≡ inr b
      → Q b
  and_then-Gives P Q (inl e, t) h k b q = ground arith
  and_then-Gives P Q (inr a, t) h k b q = k a (h a refl) t b q

module _ {ℓ κ} {A : Type ℓ} {B : Type κ} (f : A → Dialog B) where
  and_then-IsQuiet_of {μ} :
      (P : A → Type μ) (r : (Refusal ⊎ A) × Terminal)
      → ((a : A) → r.0 ≡ inr a → P a)
      → ((a : A) → P a → IsQuiet (f a))
      → (and_then r f).1 ≡ r.1
  and_then-IsQuiet_of P (inl e, t) h k = refl
  and_then-IsQuiet_of P (inr a, t) h k = k a (h a refl) t

module _ {ℓ κ} {A : Type ℓ} {B : Type κ} (m : Dialog A) (f : A → Dialog B) where
  pub >>=-IsQuiet_of {μ} :
      (P : A → Type μ) → Gives P m → IsQuiet m → ((a : A) → P a → IsQuiet (f a)) → IsQuiet (m >>= f)
  >>=-IsQuiet_of P g h k t = and_then-IsQuiet_of f P (m t) (g t) k ∙ h t

  pub >>=-IsQuiet : IsQuiet m → ((a : A) → IsQuiet (f a)) → IsQuiet (m >>= f)
  >>=-IsQuiet h k t = and_then-IsQuiet f (m t) k ∙ h t

  pub >>=-Gives {μ ν} :
      (P : A → Type μ) (Q : B → Type ν)
      → Gives P m
      → ((a : A) → P a → Gives Q (f a))
      → Gives Q (m >>= f)
  >>=-Gives P Q h k t = and_then-Gives f P Q (m t) (h t) k

-- Nothing need be known of the first part.
pub >>=-Gives_any {ℓ κ ν} :
    {A : Type ℓ} {B : Type κ} (m : Dialog A) (f : A → Dialog B) (Q : B → Type ν)
    → ((a : A) → Gives Q (f a))
    → Gives Q (m >>= f)
>>=-Gives_any m f Q k = >>=-Gives m f (λ a. Unit {0}) Q (λ t a e. tt) (λ a u. k a)

-- What is given already is not asked for.
pub or_refuse-IsQuiet {ℓ} : {A : Type ℓ} (o : Option A) (e : Refusal) → IsQuiet (or_refuse o e)
or_refuse-IsQuiet none e t = refl
or_refuse-IsQuiet (some a) e t = refl

pub if-IsQuiet {ℓ} :
    {A : Type ℓ} (b : Bool) (m n : Dialog A)
    → (b ≡ true → IsQuiet m)
    → (b ≡ false → IsQuiet n)
    → IsQuiet (if b then m else n)
if-IsQuiet b m n = if_both IsQuiet b m n

-- What is given without a question has the property.
pub pure-Gives {ℓ κ} : {A : Type ℓ} (P : A → Type κ) (a : A) → P a → Gives P (pure a)
pure-Gives P a h t b e = rw (sym (inr_injective a b e)) h

pub refuse-Gives {ℓ κ} : {A : Type ℓ} (P : A → Type κ) (e : Refusal) → Gives P (refuse e)
refuse-Gives P e t b q = absurd (inl-ne-inr e b q)

pub if-Gives {ℓ κ} :
    {A : Type ℓ} (P : A → Type κ) (b : Bool) (m n : Dialog A)
    → (b ≡ true → Gives P m)
    → (b ≡ false → Gives P n)
    → Gives P (if b then m else n)
if-Gives P b m n = if_both (Gives P) b m n
