-- ===== src/Config/Rules.antt =====
-- Rules to reason about settings that are accepted.
use ipa_now.Common.{
  ℕ, ◌≤◌, ◌≡◌, refl, subst, arith, Bool, true, false, ◌||◌, Option, none, some, ltb, if◌then◌else◌,
  Bool-cases, inl, inr,
}
use ipa_now.Config.Parse.{Setting, Checked, accepted, rejected, ◌>>=◌, refuse, or_rejected, within}

-- What holds of a value that is accepted
unfoldable pub Passes : {A : Type 0} → (A → Type 0) → Checked A → Type 0
Passes P (accepted a) = P a
Passes P (rejected e) = Unit

module _ {A : Type 0} (P : A → Type 0) where
  pub accepted-Passes : (a : A) → P a → Passes P (accepted a)
  unfolding Passes
  accepted-Passes a h = h

  pub if-Passes :
      (b : Bool) (m k : Checked A)
      → (b ≡ true → Passes P m)
      → (b ≡ false → Passes P k)
      → Passes P (if b then m else k)
  if-Passes true m k f g = f refl
  if-Passes false m k f g = g refl

  pub Passes-accepted : (m : Checked A) (a : A) → Passes P m → m ≡ accepted a → P a
  unfolding Passes
  Passes-accepted (accepted b) a h e = subst P (ground (arith, e)) h
  Passes-accepted (rejected x) a h e = cc

  pub bind-Passes :
      {B : Type 0} (Q : B → Type 0) (m : Checked B) (k : B → Checked A)
      → Passes Q m
      → ((b : B) → Q b → Passes P (k b))
      → Passes P (m >>= k)
  unfolding ◌>>=◌ Passes
  bind-Passes Q (accepted b) k h g = g b h
  bind-Passes Q (rejected e) k h g = tt

pub refuse-Passes : (b : Bool) (e : Setting) → Passes (λ _. b ≡ false) (refuse b e)
unfolding Passes refuse
refuse-Passes true e = tt
refuse-Passes false e = refl

pub option-Passes :
    {A : Type 0} (e : Setting) (o : Option A) → Passes (λ a. o ≡ some a) (or_rejected e o)
unfolding Passes
option-Passes e none = tt
option-Passes e (some a) = refl

pub within-Passes :
    (e : Setting) (low high : ℕ) (o : Option ℕ)
    → Passes (λ n. (low ≤ n) × (n ≤ high)) (within e low high o)
unfolding within Passes
within-Passes e low high none = tt
within-Passes e low high (some n) = elim (Bool-cases (ltb n low || ltb high n)) [
  | inl t ↦ rw (t, if◌then◌else◌) tt
  | inr f ↦ rw (f, if◌then◌else◌) (ground arith, ground arith)
]

-- The number is the one that was read.
pub read-Passes :
    (e : Setting) (low high : ℕ) (o : Option ℕ)
    → Passes (λ n. (o ≡ some n) × (low ≤ n) × (n ≤ high)) (within e low high o)
unfolding within Passes
read-Passes e low high none = tt
read-Passes e low high (some n) = elim (Bool-cases (ltb n low || ltb high n)) [
  | inl t ↦ rw (t, if◌then◌else◌) tt
  | inr f ↦ rw (f, if◌then◌else◌) (refl, ground arith, ground arith)
]

pub any-Passes : {A : Type 0} (m : Checked A) → Passes (λ _. Unit) m
unfolding Passes
any-Passes (accepted a) = tt
any-Passes (rejected e) = tt
