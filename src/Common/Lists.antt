-- ===== src/Common/Lists.antt =====
-- Lists measured by native numbers, searched and rewritten by Boolean tests, as a table of rows is.
use Prim.Native.Nat.{ℕ, zero, suc, ◌+◌, ◌≤◌}
use mathlib.Core.Path.{◌≡◌, refl}
use mathlib.Core.Bool.{Bool, true}
use mathlib.Core.List.{List, [], ◌∷◌, ◌++◌}
use mathlib.Core.Logic.{inl, inr}
use mathlib.Core.Option.{Option, none, some}
use native.Mathlib.Omega.{arith}
use ipa_now.Common.Tests.{if◌then◌else◌, Bool-cases}

module _ {ℓ} {A : Type ℓ} where
  abbrev pub length : List A → ℕ
  length [] = 0
  length (x ∷ xs) = suc (length xs)

  abbrev pub take : ℕ → List A → List A
  take zero v = []
  take (suc n) [] = []
  take (suc n) (b ∷ bs) = b ∷ take n bs

  -- Computes to a tuple of the facts about each element.
  abbrev pub All {κ} : (A → Type κ) → List A → Type κ
  All P [] = Unit
  All P (x ∷ xs) = P x × All P xs

  -- The first element that passes the test.
  unfoldable pub find : (A → Bool) → List A → Option A
  find p [] = none
  find p (x ∷ xs) = if p x then some x else find p xs

  unfoldable pub count : (A → Bool) → List A → ℕ
  count p [] = 0
  count p (x ∷ xs) = (if p x then 1 else 0) + count p xs

  -- `UPDATE … WHERE` with the primary key in the condition: at most one row passes the test.
  unfoldable pub update_row : (A → Bool) → (A → A) → List A → List A
  update_row p f [] = []
  update_row p f (x ∷ xs) = let rest = update_row p f xs in if p x then f x ∷ xs else x ∷ rest

module _ {ℓ} {A : Type ℓ} where
  pub length-update_row :
      (p : A → Bool) (f : A → A) (xs : List A) → length (update_row p f xs) ≡ length xs
  unfolding update_row
  length-update_row p f [] = refl
  length-update_row p f (x ∷ xs) = ground (arith, length-update_row p f xs)

  pub length-take : (n : ℕ) (v : List A) → length (take n v) ≤ n
  length-take zero v = omega arith
  length-take (suc n) [] = omega arith
  length-take (suc n) (b ∷ bs) = omega (arith, length-take n bs)

  pub length-append : (xs ys : List A) → length (xs ++ ys) ≡ length xs + length ys
  length-append [] ys = omega arith
  length-append (x ∷ xs) ys = omega (arith, length-append xs ys)

  pub count-append : (p : A → Bool) (xs ys : List A) → count p (xs ++ ys) ≡ count p xs + count p ys
  unfolding count
  count-append p [] ys = omega arith
  count-append p (x ∷ xs) ys = omega (arith, count-append p xs ys)

  pub find-sat : (p : A → Bool) (xs : List A) (x : A) → find p xs ≡ some x → p x ≡ true
  unfolding find
  find-sat p [] x h = ground arith
  find-sat p (y ∷ ys) x h = ground (arith, find-sat p ys x)

module _ {ℓ κ μ} {A : Type ℓ} (P : A → Type κ) (Q : A → Type μ) (weaken : (a : A) → P a → Q a) where
  pub All-mono : (xs : List A) → All P xs → All Q xs
  All-mono [] h = tt
  All-mono (x ∷ xs) (h, hs) = (weaken x h, All-mono xs hs)

module _ {ℓ κ} {A : Type ℓ} (P : A → Type κ) where
  pub All-update_row :
      (p : A → Bool) (f : A → A) (xs : List A)
      → ((a : A) → find p xs ≡ some a → P a → P (f a))
      → All P xs
      → All P (update_row p f xs)
  unfolding find update_row
  All-update_row p f [] keep h = tt
  All-update_row p f (x ∷ xs) keep (h, hs) = elim (Bool-cases (p x)) [
    | inl e ↦ rw (e, if◌then◌else◌) (keep x (rw e) h, hs)
    | inr e ↦ rw (e, if◌then◌else◌) (h, All-update_row p f xs (λ a q. keep a (rw e q)) hs)
  ]

  pub All-append : (xs ys : List A) → All P xs → All P ys → All P (xs ++ ys)
  All-append [] ys h g = g
  All-append (x ∷ xs) ys (h, hs) g = (h, All-append xs ys hs g)

pub All-All {ℓ κ} : {A : Type ℓ} {P : A → Type κ} → ((a : A) → P a) → (xs : List A) → All P xs
All-All h [] = tt
All-All h (x ∷ xs) = (h x, All-All h xs)

module _ {ℓ} {A : Type ℓ} where
  -- A row that is still found after its update is found updated.
  pub find-update_row :
      (p : A → Bool) (f : A → A) (xs : List A) (x : A)
      → find p xs ≡ some x
      → p (f x) ≡ true
      → find p (update_row p f xs) ≡ some (f x)
  unfolding find update_row
  find-update_row p f [] x e h = ground arith
  find-update_row p f (y ∷ ys) x e h = elim (Bool-cases (p y)) [
    | inl t ↦ let same : y ≡ x = ground arith in rw (t, if◌then◌else◌) (rw same (rw h))
    | inr s ↦ rw (s, if◌then◌else◌) (rw (s, if◌then◌else◌) (find-update_row p f ys x (rw s at e) h))
  ]
