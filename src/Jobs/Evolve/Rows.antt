-- ===== src/Jobs/Evolve/Rows.antt =====
-- What becomes of one job: the record of what no call of the store takes back.
use ipa_now.Common.{
  ◌≤◌, String, ◌≡◌, ◌⊎◌, inl, inr, Bool, true, false, arith, List, [], ◌∷◌, ◌++◌, ◌==◌, eq_iff,
  if◌then◌else◌, All, find, update_row, none, some, Bool-cases, subst,
}
use ipa_now.Jobs.Model.{Job, can_transition}
use ipa_now.Jobs.Rows.{has_id}
use ipa_now.Jobs.Evolve.Table.{Evolves, Evolves-refl, Evolves-update_row, Evolves-append}

-- One call: the state stays, or goes along one edge of `CanTransition`.
pub record Advances (j k : Job) : Type 0 where
  pub same_id : j.id ≡ k.id
  pub same_target : j.target ≡ k.target
  pub same_source : j.source ≡ k.source
  pub same_creation : j.created_at ≡ k.created_at
  pub edge : (j.state ≡ k.state) ⊎ (can_transition j.state k.state ≡ true)
  pub cancel_stays : j.cancel_requested ≡ true → k.cancel_requested ≡ true
  pub attempts_grow : j.attempts ≤ k.attempts

pub Advances-refl : (j : Job) → Advances j j
Advances-refl j = ground arith

-- The IDs are a primary key.
abbrev pub Distinct : List Job → Type 0
Distinct [] = Unit
Distinct (x ∷ xs) = All (λ k. has_id x.id k ≡ false) xs × Distinct xs

-- What one call does to the table of jobs.
abbrev pub Good : List Job → List Job → Type 0
Good xs ys = Evolves Advances xs ys × Distinct ys

pub Good-refl : (xs : List Job) → Distinct xs → Good xs xs
Good-refl xs h = (Evolves-refl Advances Advances-refl xs, h)

module _ (p : Job → Bool) (f : Job → Job) where
  fresh-update_row :
      (id : String) (xs : List Job)
      → ((j : Job) → find p xs ≡ some j → j.id ≡ (f j).id)
      → All (λ k. has_id id k ≡ false) xs
      → All (λ k. has_id id k ≡ false) (update_row p f xs)
  unfolding find update_row
  fresh-update_row id [] same h = tt
  fresh-update_row id (x ∷ xs) same (here, rest) = elim (Bool-cases (p x)) [
    | inl e ↦ rw (e, if◌then◌else◌) (subst (λ i. (i == id) ≡ false) (same x (rw e)) here, rest)
    | inr e ↦ rw (e, if◌then◌else◌) (here, fresh-update_row id xs (λ j q. same j (rw e q)) rest)
  ]

  pub Distinct-update_row :
      (xs : List Job)
      → ((j : Job) → find p xs ≡ some j → j.id ≡ (f j).id)
      → Distinct xs
      → Distinct (update_row p f xs)
  unfolding find update_row
  Distinct-update_row [] same h = tt
  Distinct-update_row (x ∷ xs) same (new, rest) = elim (Bool-cases (p x)) [
    | inl e ↦
        rw (e, if◌then◌else◌)
          (subst (λ i. All (λ k. has_id i k ≡ false) xs) (same x (rw e)) new, rest)
    | inr e ↦
        rw (e, if◌then◌else◌)
          (
            fresh-update_row x.id xs (λ j q. same j (rw e q)) new,
            Distinct-update_row xs (λ j q. same j (rw e q)) rest,
          )
  ]

  -- An update of one row, which keeps its ID.
  pub Good-update_row :
      (xs : List Job)
      → Distinct xs
      → ((j : Job) → find p xs ≡ some j → Advances j (f j))
      → Good xs (update_row p f xs)
  Good-update_row xs d h = (
    Evolves-update_row Advances Advances-refl p f xs h,
    Distinct-update_row xs (λ j q. (h j q).same_id) d,
  )

fresh-append :
    (id : String) (xs : List Job) (j : Job)
    → All (λ k. has_id id k ≡ false) xs
    → has_id id j ≡ false
    → All (λ k. has_id id k ≡ false) (xs ++ j ∷ [])
fresh-append id [] j h e = (e, tt)
fresh-append id (x ∷ xs) j (h, hs) e = (h, fresh-append id xs j hs e)

Distinct-append :
    (xs : List Job) (j : Job) → Distinct xs → find (has_id j.id) xs ≡ none → Distinct (xs ++ j ∷ [])
unfolding find
Distinct-append [] j d h = (tt, tt)
Distinct-append (x ∷ xs) j (new, d) h = (
  fresh-append x.id xs j new (ground (arith, eq_iff j.id x.id, eq_iff x.id j.id)),
  Distinct-append xs j d (ground arith),
)

-- A new row under a free ID.
pub Good-append :
    (xs : List Job) (j : Job) → Distinct xs → find (has_id j.id) xs ≡ none → Good xs (xs ++ j ∷ [])
Good-append xs j d h = (Evolves-append Advances Advances-refl xs (j ∷ []), Distinct-append xs j d h)
