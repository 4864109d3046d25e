-- ===== src/Jobs/Evolve/Interrupted.antt =====
-- What one step of the loop of `Recover` does to the table (internal/jobs/store.go).
use ipa_now.Common.{
  ℕ, ◌≡◌, ◌⊎◌, inl, inr, true, false, arith, List, [], ◌∷◌, eq_iff, eq_refl, if◌then◌else◌, All,
  All-mono, find, update_row, some, Bool-cases, subst,
}
use ipa_now.Jobs.Model.{cleaning, Job, can_transition}
use ipa_now.Jobs.Rows.{has_id, is_active, awaits_review, found}
use ipa_now.Jobs.Cleanup.{interruption, interrupted}
use ipa_now.Jobs.Evolve.Table.{Evolves, Evolves-update_row, Evolves-trans}
use ipa_now.Jobs.Evolve.Rows.{Advances, Distinct, Distinct-update_row}
use ipa_now.Jobs.Evolve.Elem.{Elem}

-- What `Recover` does to a job: nothing, or it sends an active job to cleaning.
pub record Interrupts (j k : Job) : Type 0 where
  pub same_id : j.id ≡ k.id
  pub same_target : j.target ≡ k.target
  pub same_source : j.source ≡ k.source
  pub same_creation : j.created_at ≡ k.created_at
  pub moved : (j.state ≡ k.state) ⊎ ((is_active j ≡ true) × (k.state ≡ cleaning))
  pub same_cancel : j.cancel_requested ≡ k.cancel_requested
  pub same_attempts : j.attempts ≡ k.attempts

pub Interrupts-refl : (j : Job) → Interrupts j j
Interrupts-refl j = ground arith

pub Interrupts-trans : (i j k : Job) → Interrupts i j → Interrupts j k → Interrupts i k
unfolding is_active
Interrupts-trans i j k g h = ground arith

pub Interrupts-Advances : (j k : Job) → Interrupts j k → Advances j k
unfolding is_active can_transition
Interrupts-Advances j k h = ground arith

-- The row that the loop writes for a job that it read as `j`.
abbrev pub rewritten : ℕ → Job → Job → Job
rewritten t j k = record (interrupted j k) { updated_at = t }

pub rewritten-Interrupts : (t : ℕ) (j k : Job) → is_active k ≡ true → Interrupts k (rewritten t j k)
unfolding interrupted
rewritten-Interrupts t j k h = ground arith

pub rewritten_active : (t : ℕ) (j k : Job) → is_active (rewritten t j k) ≡ true
unfolding interrupted is_active
rewritten_active t j k = ground arith

pub interrupted_id : (j k : Job) → (interrupted j k).id ≡ k.id
unfolding interrupted
interrupted_id j k = ground arith

-- The table holds an active row under the job's ID.
abbrev pub Live : List Job → Job → Type 0
Live ys j = (k : Job) × (find (has_id j.id) ys ≡ some k) × (is_active k ≡ true)

pub Live-rewritten :
    (t : ℕ) (j i : Job) (ys : List Job)
    → Live ys i
    → Live (update_row (has_id j.id) (rewritten t j) ys) i
unfolding find update_row
Live-rewritten t j i [] (k, found, act) = cc
Live-rewritten t j i (y ∷ ys) (k, found, act) = elim (Bool-cases (has_id j.id y)) [
  | inl e ↦ elim (Bool-cases (has_id i.id y)) [
    | inl hit ↦ (rewritten t j y, ground (arith, interrupted_id j y), rewritten_active t j y)
    | inr miss ↦ (k, ground (arith, interrupted_id j y), act)
  ]
  | inr e ↦ elim (Bool-cases (has_id i.id y)) [
    | inl hit ↦ (y, ground arith, ground arith)
    | inr miss ↦
        let (k', found', act') = Live-rewritten t j i ys (k, ground arith, act) in
        (k', ground arith, act')
  ]
]

pub Live-All :
    (t : ℕ) (j : Job) (ys js : List Job)
    → All (Live ys) js
    → All (Live (update_row (has_id j.id) (rewritten t j) ys)) js
Live-All t j ys js = All-mono _ _ (λ i. Live-rewritten t j i ys) js

-- What the loop keeps of the table that `Recover` has found.
abbrev pub Recovers : List Job → List Job → Type 0
Recovers xs ys = Evolves Interrupts xs ys × Distinct ys

pub Recovers-rewritten :
    (t : ℕ) (j : Job) (xs ys : List Job)
    → Recovers xs ys
    → Live ys j
    → Recovers xs (update_row (has_id j.id) (rewritten t j) ys)
Recovers-rewritten t j xs ys (g, d) (k, found, act) =
    let row : (i : Job) → find (has_id j.id) ys ≡ some i → Interrupts i (rewritten t j i) =
      λ i q. rewritten-Interrupts t j i (ground arith) in
    (
      Evolves-trans Interrupts Interrupts-trans xs ys _ g
          (Evolves-update_row Interrupts Interrupts-refl _ _ ys row),
      Distinct-update_row _ _ ys (λ i q. (row i q).same_id) d,
    )

-- A job that the loop has seen to, or need not.
abbrev pub Settled : Job → Type 0
Settled k = (is_active k ≡ false) ⊎ (awaits_review k ≡ true)

pub interrupted_shape :
    (j k : Job)
    → ((interrupted j k).state ≡ cleaning) × ((interrupted j k).cleanup_error ≡ interruption)
unfolding interrupted
interrupted_shape j k = ground arith

pub rewritten-Settled : (t : ℕ) (j k : Job) → awaits_review (rewritten t j k) ≡ true
unfolding awaits_review
rewritten-Settled t j k = let (state, error) = interrupted_shape j k in rw (state, error)

-- Each row is settled, or is one of the jobs that the loop still has to see.
abbrev pub Pending : List Job → Job → Type 0
Pending js k = Settled k ⊎ Elem k js

pub Pending-skip :
    (j : Job) (js : List Job) (k : Job) → awaits_review j ≡ true → Pending (j ∷ js) k → Pending js k
Pending-skip j js k seen (inl s) = inl s
Pending-skip j js k seen (inr (inl e)) = inl (inr (rw e seen))
Pending-skip j js k seen (inr (inr m)) = inr m

pub Pending-other :
    (j : Job) (js : List Job) (k : Job) → has_id j.id k ≡ false → Pending (j ∷ js) k → Pending js k
Pending-other j js k ne (inl s) = inl s
Pending-other j js k ne (inr (inl e)) = ground (arith, eq_refl j.id)
Pending-other j js k ne (inr (inr m)) = inr m

pub others :
    (j : Job) (js ys : List Job)
    → All (λ k. has_id j.id k ≡ false) ys
    → All (Pending (j ∷ js)) ys
    → All (Pending js) ys
others j js [] h p = tt
others j js (y ∷ ys) (h, hs) (p, ps) = (Pending-other j js y h p, others j js ys hs ps)

pub Pending-rewritten :
    (t : ℕ) (j : Job) (js ys : List Job)
    → Distinct ys
    → All (Pending (j ∷ js)) ys
    → All (Pending js) (update_row (has_id j.id) (rewritten t j) ys)
unfolding update_row
Pending-rewritten t j js [] d h = tt
Pending-rewritten t j js (y ∷ ys) (new, d) (p, ps) = elim (Bool-cases (has_id j.id y)) [
  | inl e ↦
      rw (e, if◌then◌else◌)
        (
          inl (inr (rewritten-Settled t j y)),
          others j js ys
              (subst (λ i. All (λ k. has_id i k ≡ false) ys) ((eq_iff y.id j.id).0 e) new) ps,
        )
  | inr e ↦ rw (e, if◌then◌else◌) (Pending-other j js y e p, Pending-rewritten t j js ys d ps)
]
