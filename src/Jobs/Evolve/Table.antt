-- ===== src/Jobs/Evolve/Table.antt =====
-- Two tables of jobs row by row: the later one may have new rows at its end.
use ipa_now.Common.{
  ◌≡◌, subst, inl, inr, Bool, some, List, [], ◌∷◌, ◌++◌, arith, Bool-cases, String, ◌==◌, find,
  update_row, if◌then◌else◌,
}
use ipa_now.Jobs.Model.{Job}
use ipa_now.Jobs.Rows.{has_id}

module _ (R : Job → Job → Type 0) where
  abbrev pub Evolves : List Job → List Job → Type 0
  Evolves [] ys = Unit
  Evolves (x ∷ xs) [] = ⊥
  Evolves (x ∷ xs) (y ∷ ys) = R x y × Evolves xs ys

module _ (R : Job → Job → Type 0) (self : (j : Job) → R j j) where
  pub Evolves-refl : (xs : List Job) → Evolves R xs xs
  Evolves-refl [] = tt
  Evolves-refl (x ∷ xs) = (self x, Evolves-refl xs)

  pub Evolves-append : (xs ys : List Job) → Evolves R xs (xs ++ ys)
  Evolves-append [] ys = tt
  Evolves-append (x ∷ xs) ys = (self x, Evolves-append xs ys)

  -- An update that reads what it tests.
  pub Evolves-update_row :
      (p : Job → Bool) (f : Job → Job) (xs : List Job)
      → ((j : Job) → find p xs ≡ some j → R j (f j))
      → Evolves R xs (update_row p f xs)
  unfolding update_row find
  Evolves-update_row p f [] h = tt
  Evolves-update_row p f (x ∷ xs) h = elim (Bool-cases (p x)) [
    | inl e ↦ rw (e, if◌then◌else◌) (h x (rw e), Evolves-refl xs)
    | inr e ↦ rw (e, if◌then◌else◌) (self x, Evolves-update_row p f xs (λ j q. h j (rw e q)))
  ]

module _ (R : Job → Job → Type 0) (link : (i j k : Job) → R i j → R j k → R i k) where
  pub Evolves-trans : (xs ys zs : List Job) → Evolves R xs ys → Evolves R ys zs → Evolves R xs zs
  Evolves-trans [] ys zs g h = tt
  Evolves-trans (x ∷ xs) (y ∷ ys) (z ∷ zs) (r, g) (s, h) =
      (link x y z r s, Evolves-trans xs ys zs g h)
  Evolves-trans (x ∷ xs) [] zs g h = elim g [ ]
  Evolves-trans (x ∷ xs) (y ∷ ys) [] g h = elim h [ ]

module _ (R S : Job → Job → Type 0) (weaken : (i j : Job) → R i j → S i j) where
  pub Evolves-mono : (xs ys : List Job) → Evolves R xs ys → Evolves S xs ys
  Evolves-mono [] ys g = tt
  Evolves-mono (x ∷ xs) (y ∷ ys) (r, g) = (weaken x y r, Evolves-mono xs ys g)
  Evolves-mono (x ∷ xs) [] g = elim g [ ]

-- The row with an ID is, later, in what its job has become.
pub find-Evolves :
    (R : Job → Job → Type 0) (same : (i j : Job) → R i j → i.id ≡ j.id) (id : String)
    (xs ys : List Job) (j : Job)
    → Evolves R xs ys
    → find (has_id id) xs ≡ some j
    → (k : Job) × (find (has_id id) ys ≡ some k) × R j k
unfolding find
find-Evolves R same id [] ys j g h = cc
find-Evolves R same id (x ∷ xs) [] j g h = elim g [ ]
find-Evolves R same id (x ∷ xs) (y ∷ ys) j (r, g) h = elim (Bool-cases (x.id == id)) [
  | inl e ↦ (y, rw (← same x y r) (rw e), subst (λ i. R i y) (ground arith) r)
  | inr e ↦
      let (k, found, rel) = find-Evolves R same id xs ys j g (rw e at h) in
      (k, rw (← same x y r) (rw e found), rel)
]
