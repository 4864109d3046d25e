-- ===== src/Jobs/Review/Calls.antt =====
-- Each call of the job store keeps the quarantine of the jobs under review.
use ipa_now.Common.{
  ℕ, String, ◌≡◌, refl, ◌⊎◌, inl, inr, Bool, true, false, arith, List, [], ◌∷◌, ltb, All-mono,
  All-append, All-update_row, find, count, some, none, Option, Option-cases, sym,
}
use ipa_now.Jobs.Model.{State, cleaning, Job, Db, Operation, can_transition}
use ipa_now.Jobs.Tx.{Disk, Tx, ok}
use ipa_now.Jobs.Rules.{
  Leaves, read_then, statement_then, clock_then, refuse_then, update_then, device_then,
  statement_last, update_last, device_last, update_keeps, device_keeps, transaction_keeps,
  Holds-pure,
}
use ipa_now.Jobs.Rows.{has_id, first_job, awaits_review, found, Field}
use ipa_now.Jobs.Queue.{
  insert_job, admitted, oldest, is_claimable, claimed, enqueue, claim, claim_tx, change, progress,
  cancel, retry, metadata,
}
use ipa_now.Jobs.Cleanup.{
  release, quarantine, clear_quarantine, resolve_as, recover_device, recover, begin_cleanup,
}
use ipa_now.Jobs.Journal.{insert_unless, insert_operation, has_op, start_operation}
use ipa_now.Jobs.Evolve.Rows.{Distinct}
use ipa_now.Jobs.Evolve.QueueCalls.{same_row, set_fields_state}
use ipa_now.Jobs.Evolve.CleanupCalls.{unless_not_found-db, claimed_row}
use ipa_now.Jobs.Evolve.Interrupted.{rewritten-Settled}
use ipa_now.Jobs.Evolve.Recovery.{recover_keeps}
use ipa_now.Jobs.Review.{
  has_error, Okay, unmarked, held, Reviewed, Okay-quarantined, Okay-same, Okay-moved, none_awaits,
  set_fields_error,
}

abbrev pub HoldsReview : {A : Type 0} → Tx A → Type 0
HoldsReview m = (d : Disk) → Reviewed d.db → Reviewed (m d).1.db

insert-Reviewed :
    (j : Job) (db : Db) → has_error j ≡ false → Reviewed db → Reviewed (insert_job j db).1
unfolding insert_job
insert-Reviewed j db e h = elim (Option-cases (find (has_id j.id) db.jobs)) [
  | inl free ↦ rw (free, insert_job) (All-append _ db.jobs (j ∷ []) h (unmarked e, tt))
  | inr (k, taken) ↦ rw (taken, insert_job) h
]

pub enqueue-Reviewed : (j : Job) (limit : ℕ) → has_error j ≡ false → HoldsReview (enqueue j limit)
unfolding enqueue
enqueue-Reviewed j limit new d h = transaction_keeps Reviewed d _ h (
    read_then _ _ _ _ λ n e. refuse_then _ _ _ _ _ λ room.
      clock_then _ _ _
        (statement_last Reviewed _ _ λ b done. insert-Reviewed (admitted d.now j) d.db new h))

pub change-Reviewed :
    (id : String) (to : State) (fields : List Field) → HoldsReview (change id to fields)
unfolding change first_job
change-Reviewed id to fields d h = transaction_keeps Reviewed d _ h (
    read_then _ _ _ _ λ j e. refuse_then _ _ _ _ _ λ live. update_last Reviewed _ _ _ (
      All-update_row _ _ _ d.db.jobs
        (λ k q.
          Okay-moved d.db.device.quarantined k _ (sym (set_fields_error fields k))
            (ground (arith, same_row id d.db.jobs j k e)))
        h))

pub progress-Reviewed :
    (id label : String) (current total : ℕ) → HoldsReview (progress id label current total)
unfolding progress
progress-Reviewed id label current total d h =
    update_keeps Reviewed d _ _ h
      (All-update_row _ _ _ d.db.jobs (λ k q. Okay-same _ k _ refl refl) h)

pub cancel-Reviewed : (id : String) → HoldsReview (cancel id)
unfolding cancel first_job
cancel-Reviewed id d h = transaction_keeps Reviewed d _ h (
    read_then _ _ _ _ λ j e. refuse_then _ _ _ _ _ λ live.
      update_last Reviewed _ _ _
        (All-update_row _ _ _ d.db.jobs (λ k q. Okay-same _ k _ refl refl) h))

pub retry-Reviewed : (id : String) → HoldsReview (retry id)
unfolding retry
retry-Reviewed id d h =
    update_keeps Reviewed d _ _ h
      (All-update_row _ _ _ d.db.jobs (λ k q. Okay-same _ k _ refl refl) h)

pub metadata-Reviewed : (id : String) (fields : List Field) → HoldsReview (metadata id fields)
unfolding metadata
metadata-Reviewed id fields d h = update_keeps Reviewed d _ _ h (
    All-update_row _ _ _ d.db.jobs
      (λ k q. Okay-same _ k _ (sym (set_fields_error fields k)) (set_fields_state fields k)) h)

claimed-Okay :
    (q : Bool) (t : ℕ) (xs : List Job) (out k : Job)
    → Distinct xs
    → found (oldest (is_claimable t) xs) ≡ ok out
    → find (has_id out.id) xs ≡ some k
    → Okay q k
    → Okay q (record (claimed out) { updated_at = t })
unfolding can_transition
claimed-Okay q t xs out k distinct p f =
    let (same, state) = claimed_row t xs out k distinct p f in
    Okay-moved q k _ (ground arith) (ground arith)

claim_tx-Reviewed : (d : Disk) → Distinct d.db.jobs → Reviewed d.db → Reviewed (claim_tx d).1.db
unfolding claim_tx
claim_tx-Reviewed d distinct h = transaction_keeps Reviewed d _ h (
    read_then _ _ _ _ λ dev e. refuse_then _ _ _ _ _ λ free. clock_then _ _ _ (
      read_then _ _ _ _ λ out p. update_then _ _ _ _ _ (
        device_then _ _ _ _ (
          Holds-pure _ _ _ (
            All-update_row _ _ _ d.db.jobs
              (λ k q. claimed-Okay _ d.now d.db.jobs out k distinct p q) h)))))

pub claim-Reviewed : (d : Disk) → Distinct d.db.jobs → Reviewed d.db → Reviewed (claim d).1.db
unfolding claim
claim-Reviewed d distinct h = rw unless_not_found-db (claim_tx-Reviewed d distinct h)

pub release-Reviewed : (id : String) → HoldsReview (release id)
unfolding release
release-Reviewed id d h = device_keeps Reviewed d _ h h

-- The worker quarantines a job only after `BeginCleanup`.
pub quarantine-Reviewed :
    (id reason : String) (desired : State) (d : Disk)
    → ((j : Job) → find (has_id id) d.db.jobs ≡ some j → j.state ≡ cleaning)
    → Reviewed d.db
    → Reviewed (quarantine id reason desired d).1.db
unfolding quarantine
quarantine-Reviewed id reason desired d begun h = transaction_keeps Reviewed d _ h (
    update_then _ _ _ _ _ (
      device_last Reviewed _ _ (
        All-update_row _ _ _ d.db.jobs (λ k q _. held (begun k q) refl)
          (All-mono _ _ (Okay-quarantined d.db.device.quarantined) d.db.jobs h))))

pub begin_cleanup-Reviewed :
    (id : String) (desired : State) (code message : String)
    → HoldsReview (begin_cleanup id desired code message)
unfolding begin_cleanup first_job
begin_cleanup-Reviewed id desired code message d h = transaction_keeps Reviewed d _ h (
    read_then _ _ _ _ λ j e. refuse_then _ _ _ _ _ λ live. update_then _ _ _ _ _ (
      Holds-pure _ _ _ (
        All-update_row _ _ _ d.db.jobs
          (λ k q. Okay-moved _ k _ refl (ground (arith, same_row id d.db.jobs j k e))) h)))

clear_quarantine-Reviewed :
    (b : Bool) (d : Disk)
    → (b ≡ false → count awaits_review d.db.jobs ≡ 0)
    → Reviewed d.db
    → Leaves Reviewed (clear_quarantine b d)
unfolding clear_quarantine
clear_quarantine-Reviewed true d e h = Holds-pure _ _ _ h
clear_quarantine-Reviewed false d e h =
    device_last Reviewed _ _ (none_awaits d.db.device.quarantined d.db.jobs (e refl) h)

pub resolve_as-Reviewed : (id label : String) → HoldsReview (resolve_as id label)
unfolding resolve_as first_job
resolve_as-Reviewed id label d h = transaction_keeps Reviewed d _ h (
    read_then _ _ _ _ λ j e. refuse_then _ _ _ _ _ λ due. update_then _ _ _ _ _ (
      read_then _ _ _ _ λ n c.
        clear_quarantine-Reviewed (ltb 0 n) _ (λ z. ground arith)
          (All-update_row _ _ _ d.db.jobs (λ k q _. unmarked refl) h)))

insert_unless-Reviewed :
    (x : Option Operation) (o : Operation) (db : Db)
    → Reviewed db
    → Reviewed (insert_unless x o db).1
insert_unless-Reviewed none o db h = h
insert_unless-Reviewed (some x) o db h = h

insert_operation-Reviewed :
    (o : Operation) (db : Db) → Reviewed db → Reviewed (insert_operation o db).1
unfolding insert_operation
insert_operation-Reviewed o db h = insert_unless-Reviewed (find (has_op o.id) db.operations) o db h

pub start_operation-Reviewed : (op id : String) → HoldsReview (start_operation op id)
unfolding start_operation first_job
start_operation-Reviewed op id d h = transaction_keeps Reviewed d _ h (
    read_then _ _ _ _ λ j e. read_then _ _ _ _ λ dev _. refuse_then _ _ _ _ _ λ live.
      clock_then _ _ _
        (statement_then _ _ _ _ λ b done. Holds-pure _ _ _ (insert_operation-Reviewed _ d.db h)))

-- During a recovery: as before it, or under review.
abbrev Between : Bool → Job → Type 0
Between q k = Okay q k ⊎ (awaits_review k ≡ true)

Between-Okay : (q : Bool) (k : Job) → Between q k → Okay true k
unfolding awaits_review
Between-Okay q k (inl h) = Okay-quarantined q k h
Between-Okay q k (inr a) = held (ground arith) refl

pub recover-Reviewed : (d : Disk) → Distinct d.db.jobs → Reviewed d.db → Reviewed (recover d).1.db
unfolding recover_device
recover-Reviewed d distinct h =
    recover_keeps (Between d.db.device.quarantined) (λ t j k _. inr (rewritten-Settled t j k))
      Reviewed d distinct (All-mono _ _ (λ k o. inl o) d.db.jobs h) h (λ _. h)
      (λ db j rest r. All-mono _ _ (Between-Okay d.db.device.quarantined) db.jobs r.2)
