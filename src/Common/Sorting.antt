-- ===== src/Common/Sorting.antt =====
-- Rows in the order of an `ORDER BY`: `before a b` says that `a` comes before `b`.
use mathlib.Core.List.{Perm}
use mathlib.Core.List.Perm
use mathlib.Core.Path.{◌≡◌}
use mathlib.Core.Logic.{inl, inr}
use mathlib.Core.Bool.{Bool, true, false}
use mathlib.Core.List.{List, [], ◌∷◌}
use ipa_now.Common.Tests.{if◌then◌else◌, Bool-cases}
use ipa_now.Common.Lists.{All, All-mono}

module _ {A : Type 0} (before : A → A → Bool) where
  unfoldable pub insert_sorted : A → List A → List A
  insert_sorted x [] = x ∷ []
  insert_sorted x (y ∷ ys) =
      let rest = insert_sorted x ys in if before y x then y ∷ rest else x ∷ y ∷ ys

  unfoldable pub sorted : List A → List A
  unfolding insert_sorted
  sorted [] = []
  sorted (x ∷ xs) = insert_sorted x (sorted xs)

  -- No row comes before one that stands before it.
  abbrev pub IsSorted : List A → Type 0
  IsSorted [] = Unit
  IsSorted (x ∷ xs) = All (λ y. before y x ≡ false) xs × IsSorted xs

  insert_sorted-Perm : (x : A) (xs : List A) → Perm (insert_sorted x xs) (x ∷ xs)
  unfolding insert_sorted
  insert_sorted-Perm x [] = Perm.rfl
  insert_sorted-Perm x (y ∷ ys) = elim (Bool-cases (before y x)) [
    | inl e ↦
        rw (e, if◌then◌else◌)
          (Perm.trans (Perm.cons y (insert_sorted-Perm x ys)) (Perm.swap x y ys))
    | inr e ↦ rw (e, if◌then◌else◌) Perm.rfl
  ]

  pub sorted-Perm : (xs : List A) → Perm (sorted xs) xs
  unfolding sorted
  sorted-Perm [] = Perm.rfl
  sorted-Perm (x ∷ xs) =
      Perm.trans (insert_sorted-Perm x (sorted xs)) (Perm.cons x (sorted-Perm xs))

  insert_sorted-back :
      (P : A → Type 0) (x : A) (xs : List A) → All P (insert_sorted x xs) → P x × All P xs
  unfolding insert_sorted
  insert_sorted-back P x [] h = h
  insert_sorted-back P x (y ∷ ys) h = elim (Bool-cases (before y x)) [
    | inl e ↦ after_it (insert_sorted-back P x ys) (rw (e, if◌then◌else◌) at h)
    | inr e ↦ (rw (e, if◌then◌else◌) at h)
  ]
    where
      after_it :
          (All P (insert_sorted x ys) → P x × All P ys)
          → P y × All P (insert_sorted x ys)
          → P x × (P y × All P ys)
      after_it back (head, tail) = let (inserted, rest) = back tail in (inserted, (head, rest))

  -- What holds of all rows in their order holds of all rows.
  pub All-sorted : (P : A → Type 0) (xs : List A) → All P (sorted xs) → All P xs
  unfolding sorted
  All-sorted P [] h = tt
  All-sorted P (x ∷ xs) h =
      let (head, tail) = insert_sorted-back P x (sorted xs) h in (head, All-sorted P xs tail)

  insert_sorted-All :
      (P : A → Type 0) (x : A) (xs : List A) → P x → All P xs → All P (insert_sorted x xs)
  unfolding insert_sorted
  insert_sorted-All P x [] p h = (p, tt)
  insert_sorted-All P x (y ∷ ys) p (h, hs) = elim (Bool-cases (before y x)) [
    | inl e ↦ rw (e, if◌then◌else◌) (h, insert_sorted-All P x ys p hs)
    | inr e ↦ rw (e, if◌then◌else◌) (p, (h, hs))
  ]

  pub sorted-All : (P : A → Type 0) (xs : List A) → All P xs → All P (sorted xs)
  unfolding sorted
  sorted-All P [] h = tt
  sorted-All P (x ∷ xs) (h, hs) = insert_sorted-All P x (sorted xs) h (sorted-All P xs hs)

  module _ (asym : (a b : A) → before a b ≡ true → before b a ≡ false)
      (after : (a b c : A) → before b a ≡ false → before c b ≡ false → before c a ≡ false) where
    insert_sorted-IsSorted : (x : A) (xs : List A) → IsSorted xs → IsSorted (insert_sorted x xs)
    unfolding insert_sorted
    insert_sorted-IsSorted x [] h = (tt, tt)
    insert_sorted-IsSorted x (y ∷ ys) (h, hs) = elim (Bool-cases (before y x)) [
      | inl e ↦
          rw (e, if◌then◌else◌)
            (insert_sorted-All _ x ys (asym y x e) h, insert_sorted-IsSorted x ys hs)
      | inr e ↦
          rw (e, if◌then◌else◌)
            (
              (
                e,
                All-mono (λ z. before z y ≡ false) (λ z. before z x ≡ false)
                    (λ z g. after x y z e g) ys h,
              ),
              (h, hs),
            )
    ]

    pub sorted-IsSorted : (xs : List A) → IsSorted (sorted xs)
    unfolding sorted
    sorted-IsSorted [] = tt
    sorted-IsSorted (x ∷ xs) = insert_sorted-IsSorted x (sorted xs) (sorted-IsSorted xs)
