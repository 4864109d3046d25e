-- ===== src/Jobs/Evolve/Elem.antt =====
-- The rows that `Claim` and `Recover` read are rows of the table, and are found again by their IDs.
use ipa_now.Common.{
  ◌≡◌, refl, ◌⊎◌, inl, inr, Bool, true, false, arith, List, [], ◌∷◌, eq_iff, eq_refl, if◌then◌else◌,
  All, All-mono, find, none, some, Option, Bool-cases,
}
use ipa_now.Jobs.Model.{Job}
use ipa_now.Jobs.Rows.{has_id, select}
use ipa_now.Jobs.Queue.{oldest, earlier_of}
use ipa_now.Jobs.Evolve.Rows.{Distinct}

abbrev pub Elem : Job → List Job → Type 0
Elem j [] = ⊥
Elem j (x ∷ xs) = (j ≡ x) ⊎ Elem j xs

pub All-Elem : (P : Job → Type 0) (xs : List Job) (j : Job) → All P xs → Elem j xs → P j
All-Elem P (x ∷ xs) j (h, hs) (inl e) = rw e h
All-Elem P (x ∷ xs) j (h, hs) (inr m) = All-Elem P xs j hs m
All-Elem P [] j h m = elim m [ ]

pub find-Elem : (xs : List Job) (j : Job) → Distinct xs → Elem j xs → find (has_id j.id) xs ≡ some j
unfolding find
find-Elem [] j d m = elim m [ ]
find-Elem (x ∷ xs) j (new, d) (inl e) = ground (arith, eq_refl x.id)
find-Elem (x ∷ xs) j (new, d) (inr m) = ground (
  arith,
  eq_iff x.id j.id,
  eq_iff j.id x.id,
  All-Elem (λ k. has_id x.id k ≡ false) xs j new m,
  find-Elem xs j d m,
)

Elem-earlier_of :
    (p : Job → Bool) (x : Job) (xs : List Job) (o : Option Job)
    → p x ≡ true
    → ((k : Job) → o ≡ some k → Elem k xs × (p k ≡ true))
    → (j : Job) → earlier_of x o ≡ some j
    → Elem j (x ∷ xs) × (p j ≡ true)
Elem-earlier_of p x xs none px h j e = ground arith
Elem-earlier_of p x xs (some k) px h j e = ground (arith, h k refl)

pub oldest-Elem :
    (p : Job → Bool) (xs : List Job) (j : Job) → oldest p xs ≡ some j → Elem j xs × (p j ≡ true)
unfolding oldest
oldest-Elem p [] j e = ground arith
oldest-Elem p (x ∷ xs) j e = elim (Bool-cases (p x)) [
  | inl t ↦ Elem-earlier_of p x xs (oldest p xs) t (oldest-Elem p xs) j (rw t at e)
  | inr f ↦ let (m, s) = oldest-Elem p xs j (rw f at e) in (inr m, s)
]

pub select-Elem :
    (p : Job → Bool) (xs : List Job) → All (λ j. Elem j xs × (p j ≡ true)) (select p xs)
unfolding select
select-Elem p [] = tt
select-Elem p (x ∷ xs) =
    let later : All (λ j. Elem j (x ∷ xs) × (p j ≡ true)) (select p xs) =
      All-mono _ _ (λ j h. (inr h.0, h.1)) (select p xs) (select-Elem p xs) in
    elim (Bool-cases (p x)) [
      | inl t ↦ rw (t, if◌then◌else◌) ((inl refl, t), later)
      | inr f ↦ rw (f, if◌then◌else◌) later
    ]
