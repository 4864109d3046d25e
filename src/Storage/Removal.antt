-- ===== src/Storage/Removal.antt =====
-- What a removal leaves in the directories (internal/storage).
use ipa_now.Common.{
  String, ◌≡◌, refl, inl, inr, arith, true, false, not, ◌==◌, List, [], ◌∷◌, if◌then◌else◌, All,
  Bool-cases,
}
use ipa_now.Storage.{
  Files, Kind, work, inputs, artifacts, entries, tick, without, drop_entry, remove,
}
use ipa_now.Storage.Ids.{valid_id}

module _ (P : String → Type 0) where
  pub All-without : (id : String) (xs : List String) → All P xs → All P (without id xs)
  unfolding without
  All-without id [] h = tt
  All-without id (x ∷ xs) (h, hs) = elim (Bool-cases (x == id)) [
    | inl e ↦ rw (e, if◌then◌else◌) (All-without id xs hs)
    | inr e ↦ rw (e, if◌then◌else◌) (h, All-without id xs hs)
  ]

  -- A removal adds no entry.
  drop_entry-All :
      (kind k : Kind) (id : String) (f : Files)
      → All P (entries k f)
      → All P (entries k (drop_entry kind id f))
  drop_entry-All work work id f h = All-without id f.work h
  drop_entry-All work inputs id f h = h
  drop_entry-All work artifacts id f h = h
  drop_entry-All inputs work id f h = h
  drop_entry-All inputs inputs id f h = All-without id f.inputs h
  drop_entry-All inputs artifacts id f h = h
  drop_entry-All artifacts work id f h = h
  drop_entry-All artifacts inputs id f h = h
  drop_entry-All artifacts artifacts id f h = All-without id f.artifacts h

  pub tick-All : (k : Kind) (f : Files) → All P (entries k f) → All P (entries k (tick f))
  tick-All work f h = h
  tick-All inputs f h = h
  tick-All artifacts f h = h

  pub remove-All :
      (kind k : Kind) (id : String) (f : Files)
      → All P (entries k f)
      → All P (entries k (remove kind id f).1)
  unfolding remove
  remove-All kind k id f h = elim (Bool-cases (valid_id id)) [
    | inr e ↦ rw (e, not, if◌then◌else◌) h
    | inl e ↦ elim (Bool-cases (f.fails f.done)) [
      | inl x ↦ rw (e, not, if◌then◌else◌) (rw (x, if◌then◌else◌) (tick-All k f h))
      | inr x ↦
          rw (e, not, if◌then◌else◌)
            (rw (x, if◌then◌else◌) (drop_entry-All kind k id (tick f) (tick-All k f h)))
    ]
  ]

pub without-All : (id : String) (xs : List String) → All (λ x. (x == id) ≡ false) (without id xs)
unfolding without
without-All id [] = tt
without-All id (x ∷ xs) = elim (Bool-cases (x == id)) [
  | inl e ↦ rw (e, if◌then◌else◌) (without-All id xs)
  | inr e ↦ rw (e, if◌then◌else◌) (e, without-All id xs)
]

-- After a removal that succeeds the entry is gone.
pub remove-gone :
    (kind : Kind) (id : String) (f : Files)
    → (remove kind id f).0 ≡ true
    → All (λ x. (x == id) ≡ false) (entries kind (remove kind id f).1)
unfolding remove
remove-gone kind id f h = elim (Bool-cases (valid_id id)) [
  | inr e ↦ absurd (refused e)
  | inl e ↦ elim (Bool-cases (f.fails f.done)) [
    | inl x ↦ absurd (failed e x)
    | inr x ↦ rw (e, not, if◌then◌else◌) (rw (x, if◌then◌else◌) (gone kind))
  ]
]
  where
    refused : valid_id id ≡ false → ⊥
    refused e = ground arith

    failed : valid_id id ≡ true → f.fails f.done ≡ true → ⊥
    failed e x = ground arith

    gone : (k : Kind) → All (λ x. (x == id) ≡ false) (entries k (drop_entry k id (tick f)))
    gone work = without-All id f.work
    gone inputs = without-All id f.inputs
    gone artifacts = without-All id f.artifacts

pub same_tmp : (id : String) (f : Files) → (remove artifacts id f).1.tmp ≡ f.tmp
unfolding remove
same_tmp id f = elim (Bool-cases (valid_id id)) [
  | inr e ↦ rw (e, not, if◌then◌else◌) refl
  | inl e ↦ elim (Bool-cases (f.fails f.done)) [
    | inl x ↦ rw (e, not, if◌then◌else◌) (rw (x, if◌then◌else◌) refl)
    | inr x ↦ rw (e, not, if◌then◌else◌) (rw (x, if◌then◌else◌) refl)
  ]
]
