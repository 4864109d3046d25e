-- ===== src/Jobs/Evolve/CleanupCalls.antt =====
-- The claim, and the calls that end a job, move the jobs along the edges of `CanTransition`.
use ipa_now.Common.{ℕ, String, ◌≡◌, refl, Bool, true, false, arith, List, find, none, some, Option}
use ipa_now.Jobs.Model.{State, queued, Job, Operation, Db, can_transition}
use ipa_now.Jobs.Tx.{Disk, Result, ok, err, not_found, conflict, queue_full, storage}
use ipa_now.Jobs.Rules.{
  Leaves, read_then, statement_then, clock_then, refuse_then, update_then, device_then, device_last,
  device_keeps, transaction_keeps, Holds-pure,
}
use ipa_now.Jobs.Rows.{has_id, first_job, found}
use ipa_now.Jobs.Queue.{oldest, claimed, is_claimable, claim, claim_tx, unless_not_found}
use ipa_now.Jobs.Cleanup.{release, quarantine, clear_quarantine, resolve_as, begin_cleanup}
use ipa_now.Jobs.Journal.{has_op, insert_unless, insert_operation, start_operation}
use ipa_now.Jobs.Evolve.Rows.{Advances, Distinct, Good, Good-refl, Good-update_row}
use ipa_now.Jobs.Evolve.Elem.{find-Elem, oldest-Elem}
use ipa_now.Jobs.Evolve.QueueCalls.{Keeps, same_row, found-find}

-- The row that `Claim` saves is the row that it read, which was queued.
pub claimed_row :
    (t : ℕ) (xs : List Job) (out k : Job)
    → Distinct xs
    → found (oldest (is_claimable t) xs) ≡ ok out
    → find (has_id out.id) xs ≡ some k
    → (k ≡ out) × (k.state ≡ queued)
unfolding is_claimable
claimed_row t xs out k h p q =
    let (m, due) = oldest-Elem (is_claimable t) xs out (found-find _ out p) in
    ground (arith, find-Elem xs out h m)

claimed-Advances :
    (t : ℕ) (xs : List Job) (out k : Job)
    → Distinct xs
    → found (oldest (is_claimable t) xs) ≡ ok out
    → find (has_id out.id) xs ≡ some k
    → Advances k (record (claimed out) { updated_at = t })
unfolding can_transition
claimed-Advances t xs out k h p q = ground (arith, claimed_row t xs out k h p q)

claim_tx-Keeps : Keeps claim_tx
unfolding claim_tx
claim_tx-Keeps d h =
    transaction_keeps (λ db. Good d.db.jobs db.jobs) d _ (Good-refl _ h)
      (read_then _ _ _ _ λ dev e. refuse_then _ _ _ _ _ λ free. clock_then _ _ _ (
        read_then _ _ _ _ λ out p. update_then _ _ _ _ _ (
          device_then _ _ _ _ (
            Holds-pure _ _ _
              (Good-update_row _ _ _ h λ k q. claimed-Advances d.now d.db.jobs out k h p q)))))

pub unless_not_found-db : (r : Result Job × Disk) → (unless_not_found r).1 ≡ r.1
unless_not_found-db (ok j, d) = refl
unless_not_found-db (err not_found, d) = refl
unless_not_found-db (err conflict, d) = refl
unless_not_found-db (err queue_full, d) = refl
unless_not_found-db (err storage, d) = refl

pub claim-Keeps : Keeps claim
unfolding claim
claim-Keeps d h = rw unless_not_found-db (claim_tx-Keeps d h)

pub release-Keeps : (id : String) → Keeps (release id)
unfolding release
release-Keeps id d h =
    device_keeps (λ db. Good d.db.jobs db.jobs) d _ (Good-refl _ h) (Good-refl _ h)

pub quarantine-Keeps : (id reason : String) (desired : State) → Keeps (quarantine id reason desired)
unfolding quarantine
quarantine-Keeps id reason desired d h =
    transaction_keeps (λ db. Good d.db.jobs db.jobs) d _ (Good-refl _ h)
      (update_then _ _ _ _ _ (
        device_last (λ db. Good d.db.jobs db.jobs) _ _
          (Good-update_row _ _ _ h λ k q. ground arith)))

pub clear_quarantine-Leaves :
    (G : List Job → Type 0) (b : Bool) (d : Disk)
    → G d.db.jobs
    → Leaves (λ db. G db.jobs) (clear_quarantine b d)
unfolding clear_quarantine
clear_quarantine-Leaves G true d h = Holds-pure _ _ _ h
clear_quarantine-Leaves G false d h = device_last _ _ _ h

pub resolve_as-Keeps : (id label : String) → Keeps (resolve_as id label)
unfolding resolve_as first_job can_transition
resolve_as-Keeps id label d h =
    transaction_keeps (λ db. Good d.db.jobs db.jobs) d _ (Good-refl _ h)
      (read_then _ _ _ _ λ j e. refuse_then _ _ _ _ _ λ due. update_then _ _ _ _ _ (
        read_then _ _ _ _ λ n _.
          clear_quarantine-Leaves (Good d.db.jobs) _ _
            (Good-update_row _ _ _ h λ k q. ground (arith, same_row id d.db.jobs j k e))))

pub begin_cleanup-Keeps :
    (id : String) (desired : State) (code message : String)
    → Keeps (begin_cleanup id desired code message)
unfolding begin_cleanup first_job
begin_cleanup-Keeps id desired code message d h =
    transaction_keeps (λ db. Good d.db.jobs db.jobs) d _ (Good-refl _ h)
      (read_then _ _ _ _ λ j e. refuse_then _ _ _ _ _ λ live. update_then _ _ _ _ _ (
        Holds-pure _ _ _
          (Good-update_row _ _ _ h λ k q. ground (arith, same_row id d.db.jobs j k e))))

insert_unless-jobs :
    (x : Option Operation) (o : Operation) (db : Db) → (insert_unless x o db).1.jobs ≡ db.jobs
insert_unless-jobs none o db = refl
insert_unless-jobs (some x) o db = refl

pub insert_operation-jobs : (o : Operation) (db : Db) → (insert_operation o db).1.jobs ≡ db.jobs
unfolding insert_operation
insert_operation-jobs o db = insert_unless-jobs (find (has_op o.id) db.operations) o db

pub start_operation-Keeps : (op id : String) → Keeps (start_operation op id)
unfolding start_operation first_job
start_operation-Keeps op id d h =
    transaction_keeps (λ db. Good d.db.jobs db.jobs) d _ (Good-refl _ h)
      (read_then _ _ _ _ λ j e. read_then _ _ _ _ λ dev _. refuse_then _ _ _ _ _ λ live.
        clock_then _ _ _ (
          statement_then _ _ _ _
            λ b done. Holds-pure _ _ _ (rw (insert_operation-jobs) (Good-refl _ h))))
