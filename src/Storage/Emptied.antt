-- ===== src/Storage/Emptied.antt =====
-- What the removal of the temporary files leaves (internal/storage/storage.go, `CleanupTemp`).
use ipa_now.Common.{
  ◌≡◌, refl, ◌∙◌, inl, inr, arith, true, not, ◌||◌, List, [], ◌∷◌, if◌then◌else◌, Bool-cases,
}
use ipa_now.Storage.{Temporary, Files, Kind, work, inputs, artifacts, entries, tick}
use ipa_now.Storage.Temp.{allowed, cleanup_entries, cleanup_temp}

same_entries :
    (k : Kind) (xs : List Temporary) (f : Files) → entries k (cleanup_entries xs f).1 ≡ entries k f
unfolding cleanup_entries
same_entries k [] f = refl
same_entries k (x ∷ xs) f =
    elim (Bool-cases ((not (allowed x.name) || x.is_directory) || f.fails f.done)) [
      | inl e ↦ rw (e, if◌then◌else◌) (ticks k)
      | inr e ↦ rw (e, if◌then◌else◌) (same_entries k xs _ ∙ removes k)
    ]
  where
    ticks : (k : Kind) → entries k (tick f) ≡ entries k f
    ticks work = refl
    ticks inputs = refl
    ticks artifacts = refl

    removes : (k : Kind) → entries k (record (tick f) { tmp = xs }) ≡ entries k f
    removes work = refl
    removes inputs = refl
    removes artifacts = refl

none_left :
    (xs : List Temporary) (f : Files)
    → f.tmp ≡ xs
    → (cleanup_entries xs f).0 ≡ true
    → (cleanup_entries xs f).1.tmp ≡ []
unfolding cleanup_entries
none_left [] f e h = e
none_left (x ∷ xs) f e h =
    elim (Bool-cases ((not (allowed x.name) || x.is_directory) || f.fails f.done)) [
      | inl y ↦ absurd (refused y)
      | inr y ↦ rw (y, if◌then◌else◌) (none_left xs _ refl (rw (y, if◌then◌else◌) at h))
    ]
  where
    refused : ((not (allowed x.name) || x.is_directory) || f.fails f.done) ≡ true → ⊥
    refused y = ground arith

module _ (f : Files) where
  pub temp_entries : (k : Kind) → entries k (cleanup_temp f).1 ≡ entries k f
  unfolding cleanup_temp
  temp_entries k = elim (Bool-cases (f.fails f.done)) [
    | inl e ↦ rw (e, if◌then◌else◌) (ticks k)
    | inr e ↦ rw (e, if◌then◌else◌) (same_entries k f.tmp (tick f) ∙ ticks k)
  ]
    where
      ticks : (k : Kind) → entries k (tick f) ≡ entries k f
      ticks work = refl
      ticks inputs = refl
      ticks artifacts = refl

  pub temp_empty : (cleanup_temp f).0 ≡ true → (cleanup_temp f).1.tmp ≡ []
  unfolding cleanup_temp
  temp_empty h = elim (Bool-cases (f.fails f.done)) [
    | inl x ↦ absurd (refused x)
    | inr x ↦ rw (x, if◌then◌else◌) (none_left f.tmp (tick f) refl (rw (x, if◌then◌else◌) at h))
  ]
    where
      refused : f.fails f.done ≡ true → ⊥
      refused x = ground arith
