-- ===== src/Jobs/Tests.antt =====
-- Runs of the job store on small databases, and the theorems at them.
use ipa_now.Common.{
  count, ℕ, String, ◌≡◌, ◌≢◌, refl, inl, inr, true, false, List, [], ◌∷◌, none, some, find, arith,
  update_row, nat_eq,
}
use ipa_now.Jobs.Model.{
  State, unset, queued, running, cleaning, completed, cancelled, failed, Job, terminal,
  can_transition,
}
use ipa_now.Jobs.Tx.{
  Disk, ok, err, storage, ◌>>=◌, pure, fail, statement, transaction, read, write, clock, refuse,
}
use ipa_now.Jobs.Rows.{
  is_unfinished, has_id, first_job, update_jobs, update_device, is_active, awaits_review, select,
}
use ipa_now.Jobs.Queue.{enqueue, insert_job, claim, claim_tx, cancel, oldest, is_claimable}
use ipa_now.Jobs.Cleanup.{
  resolve, resolve_as, clear_quarantine, begin_cleanup, quarantine, recover, recover_each,
  recover_device, interrupted, release,
}
use ipa_now.Jobs.Journal.{start_operation, insert_operation}
use ipa_now.Jobs.Calls.{
  Call, claims, recovers, cancels, quarantines, begins_cleanup, resolves, releases, exec, run,
}
use ipa_now.Jobs.Atomic.{exec_atomic}
use ipa_now.Jobs.Evolve.Table.{Evolves}
use ipa_now.Jobs.Evolve.Rows.{Distinct, Good}
use ipa_now.Jobs.Evolve.History.{Later, exec-Good, run-Later, run-terminal}
use ipa_now.Jobs.Review.{unmarked, Reviewed}
use ipa_now.Jobs.Review.History.{exec-Reviewed, review_blocks_claim}
use ipa_now.Jobs.Admission.{Admitted, enqueue-Admitted}
use ipa_now.Jobs.Resolution.{Resolved, resolve-Resolved}
use ipa_now.Jobs.Claim.{Claimed, claim-Claimed}
use ipa_now.Jobs.Cancellation.{Row, cancellation_wins}
use ipa_now.Jobs.Startup.{Started, recover-Started, Leased, start_operation-Leased}

abbrev job : String → State → ℕ → Job
job id state created = record {
  id = id;
  target = "com.example.app";
  source = "installed";
  state = state;
  phase = "";
  attempts = 0;
  cancel_requested = false;
  error_code = "";
  error_message = "";
  failure_reason = "";
  cleanup_error = "";
  pending_state = unset;
  installed = false;
  replaced = false;
  uninstalled = false;
  current = 0;
  total = 0;
  bytes = 0;
  sha256 = "";
  bundle_id = [];
  version = [];
  created_at = created;
  updated_at = created;
  available_at = created;
  expires_at = none;
  artifact_expired = false;
}

abbrev disk : String → List Job → Disk
disk owner jobs = record {
  db = record {
    jobs = jobs;
    device = record { owner = owner; quarantined = false; reason = "" };
    operations = [];
  };
  now = 100;
  fails = λ _. false;
  done = 0;
}

abbrev waiting : Disk
waiting = disk "" (job "b" queued 20 ∷ job "a" queued 10 ∷ job "c" completed 5 ∷ [])

abbrev busy : Disk
busy = disk "b" (job "b" running 20 ∷ job "a" queued 10 ∷ [])

waiting-Distinct : Distinct waiting.db.jobs
waiting-Distinct = ((refl, (refl, tt)), ((refl, tt), (tt, tt)))

busy-Distinct : Distinct busy.db.jobs
busy-Distinct = ((refl, tt), (tt, tt))

claims_oldest : (claim waiting).1.db.device.owner ≡ "a"
unfolding claim claim_tx transaction ◌>>=◌ pure fail statement read write clock refuse update_jobs
    update_device oldest is_claimable find
claims_oldest = refl

waiting-Reviewed : Reviewed waiting.db
waiting-Reviewed = (unmarked refl, (unmarked refl, (unmarked refl, tt)))

-- The commit of the cancellation fails.
abbrev failing : Disk
failing = record waiting { fails = λ n. nat_eq n 2 }

cancel_fails : (exec (cancels "a") failing).0 ≡ err storage
unfolding exec cancel transaction ◌>>=◌ pure fail statement read write clock refuse update_jobs
    update_device first_job find
cancel_fails = refl

exec_atomic_example : (exec (cancels "a") failing).1.db ≡ failing.db
exec_atomic_example = exec_atomic (cancels "a") failing storage cancel_fails

exec-Good_example : Good waiting.db.jobs (exec claims waiting).1.db.jobs
exec-Good_example = exec-Good claims waiting waiting-Distinct

abbrev history : List (ℕ × Call)
history = (101, claims) ∷ (102, cancels "a") ∷ (103, recovers) ∷ (104, resolves "a") ∷ []

run-Later_example :
    Evolves Later waiting.db.jobs (run waiting history).db.jobs
    × Distinct (run waiting history).db.jobs
run-Later_example = run-Later waiting history waiting-Distinct

run-terminal_example :
    (k : Job) × (find (has_id "c") (run waiting history).db.jobs ≡ some k) × (completed ≡ k.state)
unfolding find terminal
run-terminal_example =
    run-terminal waiting history "c" (job "c" completed 5) waiting-Distinct refl refl

claim-Claimed_example :
    Claimed waiting
      (record (job "a" queued 10) {
        state = running;
        phase = "starting";
        attempts = 1;
        updated_at = 100;
      })
      (claim waiting).1.db
unfolding claim claim_tx transaction ◌>>=◌ pure fail statement read write clock refuse update_jobs
    update_device oldest is_claimable find
claim-Claimed_example = claim-Claimed waiting _ refl

exec-Reviewed_example : Reviewed (exec claims waiting).1.db
exec-Reviewed_example = exec-Reviewed claims waiting tt waiting-Distinct waiting-Reviewed

abbrev doomed : List (ℕ × Call)
doomed =
    (101, claims)
    ∷ (102, begins_cleanup "a" failed "timeout" "late")
    ∷ (103, quarantines "a" "unconfirmed" failed)
    ∷ []

doomed_job : Job
doomed_job = record (job "a" queued 10) {
  state = cleaning;
  phase = "cleaning";
  attempts = 1;
  pending_state = failed;
  error_code = "timeout";
  error_message = "late";
  failure_reason = "timeout";
  cleanup_error = "unconfirmed";
  updated_at = 103;
}

review_blocks_claim_example :
    ((run waiting doomed).db.device.quarantined ≡ true)
    × ((claim (run waiting doomed)).0 ≢ ok (some (job "b" running 20)))
unfolding doomed_job run exec claim claim_tx begin_cleanup quarantine transaction ◌>>=◌ pure fail
    statement read write clock refuse update_jobs update_device first_job oldest is_claimable find
    update_row can_transition awaits_review
review_blocks_claim_example =
    review_blocks_claim waiting doomed doomed_job (job "b" running 20)
      (tt, (tt, ((λ j e. ground (arith, e)), tt))) waiting-Distinct waiting-Reviewed
      (inr (inl refl)) refl

cancellation_wins_example :
    (cancelled ≡ cancelled)
    × Row "b"
        (λ k. (k.state ≡ cleaning) × (k.pending_state ≡ cancelled) × (k.error_code ≡ "cancelled"))
        (begin_cleanup "b" completed "" ""
          (run (cancel "b" busy).1 ((101, releases "b") ∷ []))).1.db
unfolding run exec cancel release begin_cleanup transaction ◌>>=◌ pure fail statement read write
    clock refuse update_jobs update_device first_job find update_row can_transition terminal
cancellation_wins_example =
    cancellation_wins "b" busy ((101, releases "b") ∷ []) completed cancelled "" "" busy-Distinct
      refl refl

recover-Started_example : Started busy.db (recover busy).1.db
unfolding recover transaction ◌>>=◌ pure fail statement read write clock refuse update_jobs
    update_device recover_each recover_device select is_active awaits_review interrupted update_row
recover-Started_example = recover-Started busy busy-Distinct refl

start_operation-Leased_example :
    (◌≡◌ {A = String} "op" "op") × Leased busy "op" "b" (start_operation "op" "b" busy).1.db
unfolding start_operation transaction ◌>>=◌ pure fail statement read write clock refuse first_job
    insert_operation find
start_operation-Leased_example = start_operation-Leased "op" "b" "op" busy refl

newcomer : (enqueue (job "z" unset 0) 3 waiting).0 ≡ ok tt
unfolding enqueue insert_job transaction ◌>>=◌ pure fail statement read write clock refuse
    is_unfinished count find
newcomer = refl

enqueue-Admitted_example :
    Admitted waiting (job "z" unset 0) 3 (enqueue (job "z" unset 0) 3 waiting).1.db
enqueue-Admitted_example = enqueue-Admitted (job "z" unset 0) 3 waiting newcomer

abbrev reviewed : Disk
reviewed = run waiting doomed

review_ends : (resolve "a" reviewed).0 ≡ ok tt
unfolding run exec claim claim_tx begin_cleanup quarantine resolve resolve_as clear_quarantine
    transaction ◌>>=◌ pure fail statement read write clock refuse update_jobs update_device
    first_job oldest is_claimable find update_row can_transition awaits_review terminal count
review_ends = refl

resolve-Resolved_example : Resolved "a" reviewed.db (resolve "a" reviewed).1.db
resolve-Resolved_example = resolve-Resolved "a" reviewed review_ends
