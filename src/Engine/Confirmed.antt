-- ===== src/Engine/Confirmed.antt =====
-- A confirmed cleanup covers every operation of the job, and there is one.
use ipa_now.Common.{
  ℕ, suc, String, ◌≡◌, ap, ◌≢◌, arith, Bool, true, false, List, [], ◌∷◌, map, if◌then◌else◌, All,
  Bool-cases, inl, inr,
}
use ipa_now.Common.Sorting.{sorted, All-sorted}
use ipa_now.Jobs.Model.{Operation}
use ipa_now.Jobs.Tx.{Disk, read, statement}
use ipa_now.Jobs.Journal.{operations, of_job, is_before}
use ipa_now.Engine.Cleanup.{Report, Cleaned, with_report, cleanup_each, cleanup_all, cleanup}

module _ (is_done : ℕ → Bool) (reports : ℕ → String → Report) where
  -- At its turn the library confirmed the cleanup of the operation, without an error.
  pub record IsConfirmed (op : String) : Type 0 where
    pub turn : ℕ
    pub confirmed : (reports turn op).confirmed ≡ true
    pub succeeded : (reports turn op).failed ≡ false

  each-IsConfirmed :
      (n : ℕ) (c : Cleaned) (ops : List String)
      → (cleanup_each is_done reports n c ops).is_confirmed ≡ true
      → (c.is_confirmed ≡ true) × All IsConfirmed ops
  unfolding cleanup_each
  each-IsConfirmed n c [] h = (h, tt)
  each-IsConfirmed n c (op ∷ ops) h = elim (Bool-cases (is_done n)) [
    | inl e ↦ absurd (stopped e)
    | inr e ↦
        let (so_far, rest) =
          each-IsConfirmed (suc n) (with_report c (reports n op)) ops
            (rw (e, if◌then◌else◌) at h) in
        (
          ground arith,
          (record { turn = n; confirmed = ground arith; succeeded = ground arith }, rest),
        )
  ]
    where
      stopped : is_done n ≡ true → ⊥
      stopped e = ground arith

  all-IsConfirmed :
      (ops : List String)
      → (cleanup_all is_done reports ops).is_confirmed ≡ true
      → (ops ≢ []) × All IsConfirmed ops
  all-IsConfirmed [] h = cc
  all-IsConfirmed (op ∷ ops) h = (λ e. cc, (each-IsConfirmed 0 _ (op ∷ ops) h).1)

  unmapped :
      (os : List Operation) → All IsConfirmed (map (λ o. o.id) os) → All (λ o. IsConfirmed o.id) os
  unmapped [] h = tt
  unmapped (o ∷ os) (h, hs) = (h, unmapped os hs)

  -- A cleanup is confirmed only if the job has an operation, and the library has confirmed each of its operations
  -- without an error.
  pub cleanup-IsConfirmed :
      (has_journal : Bool) (id : String) (d : Disk)
      → (cleanup is_done reports has_journal id d).0.is_confirmed ≡ true
      → (of_job id d.db.operations ≢ []) × All (λ o. IsConfirmed o.id) (of_job id d.db.operations)
  unfolding cleanup operations read statement sorted
  cleanup-IsConfirmed false id d h = cc
  cleanup-IsConfirmed true id d h = elim (Bool-cases (d.fails d.done)) [
    | inl e ↦ absurd (failed e)
    | inr e ↦
        let (some_op, all_ops) =
          all-IsConfirmed (map (λ o. o.id) (sorted is_before (of_job id d.db.operations)))
            (rw (e, if◌then◌else◌) at h) in
        (
          λ x. some_op (ap (λ os. map (λ o. o.id) (sorted is_before os)) x),
          All-sorted is_before _ (of_job id d.db.operations) (unmapped _ all_ops),
        )
  ]
    where
      failed : d.fails d.done ≡ true → ⊥
      failed e = ground arith
