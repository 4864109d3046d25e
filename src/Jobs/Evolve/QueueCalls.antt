-- ===== src/Jobs/Evolve/QueueCalls.antt =====
-- Every call of the job store moves every job along the edges of `CanTransition`.
use ipa_now.Common.{
  ℕ, String, ◌≡◌, inl, inr, arith, List, [], ◌∷◌, eq_iff, find, find-sat, none, some, Option,
  Option-cases,
}
use ipa_now.Jobs.Model.{State, Job, Db}
use ipa_now.Jobs.Tx.{Disk, Tx, ok}
use ipa_now.Jobs.Rules.{
  read_then, clock_then, refuse_then, statement_last, update_last, update_keeps, transaction_keeps,
}
use ipa_now.Jobs.Rows.{has_id, first_job, found, Field, phase, set_field, set_fields}
use ipa_now.Jobs.Queue.{insert_job, admitted, enqueue, change, progress, cancel, retry, metadata}
use ipa_now.Jobs.Evolve.Rows.{Distinct, Good, Good-refl, Good-update_row, Good-append}

abbrev pub Keeps : {A : Type 0} → Tx A → Type 0
Keeps m = (d : Disk) → Distinct d.db.jobs → Good d.db.jobs (m d).1.db.jobs

pub found-find : (o : Option Job) (j : Job) → found o ≡ ok j → o ≡ some j
found-find none j h = ground arith
found-find (some k) j h = ground arith

-- What no field of `Field` is.
record SameCore (j k : Job) : Type 0 where
  same_id : j.id ≡ k.id
  same_target : j.target ≡ k.target
  same_source : j.source ≡ k.source
  same_creation : j.created_at ≡ k.created_at
  same_state : j.state ≡ k.state
  same_cancel : j.cancel_requested ≡ k.cancel_requested
  same_attempts : j.attempts ≡ k.attempts

SameCore-trans : {i j k : Job} → SameCore i j → SameCore j k → SameCore i k
SameCore-trans g h = ground arith

set_field-SameCore : (f : Field) (j : Job) → SameCore j (set_field f j)
unfolding set_field
set_field-SameCore (phase v) j = ground arith
set_field-SameCore _ j = ground arith

set_fields-SameCore : (fs : List Field) (j : Job) → SameCore j (set_fields fs j)
unfolding set_fields
set_fields-SameCore [] j = ground arith
set_fields-SameCore (f ∷ fs) j =
    SameCore-trans (set_field-SameCore f j) (set_fields-SameCore fs (set_field f j))

-- A row that is found twice by its ID is one row.
pub same_row :
    (id : String) (xs : List Job) (j k : Job)
    → found (find (has_id id) xs) ≡ ok j
    → find (has_id j.id) xs ≡ some k
    → k ≡ j
same_row id xs j k e q =
    ground (arith, found-find (find (has_id id) xs) j e, eq_iff j.id id, find-sat (has_id id) xs j)

insert-Good : (j : Job) (db : Db) → Distinct db.jobs → Good db.jobs (insert_job j db).1.jobs
unfolding insert_job
insert-Good j db h = elim (Option-cases (find (has_id j.id) db.jobs)) [
  | inl e ↦ rw (e, insert_job) (Good-append db.jobs j h e)
  | inr (k, e) ↦ rw (e, insert_job) (Good-refl db.jobs h)
]

pub set_fields_state : (fs : List Field) (j : Job) → j.state ≡ (set_fields fs j).state
set_fields_state fs j = (set_fields-SameCore fs j).same_state

pub set_fields_id : (fs : List Field) (j : Job) → j.id ≡ (set_fields fs j).id
set_fields_id fs j = (set_fields-SameCore fs j).same_id

pub enqueue-Keeps : (j : Job) (limit : ℕ) → Keeps (enqueue j limit)
unfolding enqueue
enqueue-Keeps j limit d h =
    transaction_keeps (λ db. Good d.db.jobs db.jobs) d _ (Good-refl _ h)
      (read_then _ _ _ _ λ n e. refuse_then _ _ _ _ _ λ room. clock_then _ _ _ (
        statement_last (λ db. Good d.db.jobs db.jobs) _ _
          λ b done. insert-Good (admitted d.now j) d.db h))

pub change-Keeps : (id : String) (to : State) (fields : List Field) → Keeps (change id to fields)
unfolding change first_job
change-Keeps id to fields d h =
    transaction_keeps (λ db. Good d.db.jobs db.jobs) d _ (Good-refl _ h)
      (read_then _ _ _ _ λ j e. refuse_then _ _ _ _ _ λ live.
        update_last (λ db. Good d.db.jobs db.jobs) _ _ _
          (Good-update_row _ _ _ h
            λ k q. ground (arith, set_fields-SameCore fields k, same_row id d.db.jobs j k e)))

pub progress-Keeps :
    (id label : String) (current total : ℕ) → Keeps (progress id label current total)
unfolding progress
progress-Keeps id label current total d h =
    update_keeps (λ db. Good d.db.jobs db.jobs) d _ _ (Good-refl _ h)
      (Good-update_row _ _ _ h λ k q. ground arith)

pub cancel-Keeps : (id : String) → Keeps (cancel id)
unfolding cancel first_job
cancel-Keeps id d h =
    transaction_keeps (λ db. Good d.db.jobs db.jobs) d _ (Good-refl _ h)
      (read_then _ _ _ _ λ j e. refuse_then _ _ _ _ _ λ live.
        update_last (λ db. Good d.db.jobs db.jobs) _ _ _
          (Good-update_row _ _ _ h λ k q. ground arith))

pub retry-Keeps : (id : String) → Keeps (retry id)
unfolding retry
retry-Keeps id d h =
    update_keeps (λ db. Good d.db.jobs db.jobs) d _ _ (Good-refl _ h)
      (Good-update_row _ _ _ h λ k q. ground arith)

pub metadata-Keeps : (id : String) (fields : List Field) → Keeps (metadata id fields)
unfolding metadata
metadata-Keeps id fields d h =
    update_keeps (λ db. Good d.db.jobs db.jobs) d _ _ (Good-refl _ h)
      (Good-update_row _ _ _ h λ k q. ground (arith, set_fields-SameCore fields k))
