-- ===== src/Jobs/Review/History.antt =====
-- After any history of lawful calls, a job under review blocks the device.
use ipa_now.Common.{ℕ, ◌≡◌, ◌≢◌, true, false, List, [], ◌∷◌, some, find}
use ipa_now.Jobs.Model.{cleaning, Job, Db}
use ipa_now.Jobs.Tx.{Disk, ok}
use ipa_now.Jobs.Rows.{has_id, awaits_review}
use ipa_now.Jobs.Queue.{claim}
use ipa_now.Jobs.Cleanup.{resolve, resolve_automatic}
use ipa_now.Jobs.Calls.{
  Call, enqueues, claims, recovers, changes, progresses, cancels, releases, resolves,
  resolves_automatic, retries, quarantines, writes_metadata, begins_cleanup, starts_operation, exec,
  run,
}
use ipa_now.Jobs.Evolve.Rows.{Distinct}
use ipa_now.Jobs.Evolve.Elem.{Elem, All-Elem}
use ipa_now.Jobs.Evolve.History.{exec-Good, drop-db}
use ipa_now.Jobs.Claim.{claim-Claimed}
use ipa_now.Jobs.Review.{has_error, Reviewed, Okay-awaits}
use ipa_now.Jobs.Review.Calls.{
  enqueue-Reviewed, change-Reviewed, progress-Reviewed, cancel-Reviewed, retry-Reviewed,
  metadata-Reviewed, claim-Reviewed, release-Reviewed, quarantine-Reviewed, begin_cleanup-Reviewed,
  resolve_as-Reviewed, start_operation-Reviewed, recover-Reviewed,
}

-- How the service makes its calls: a new job has no cleanup error, and only a cleaning job is
-- quarantined.
abbrev pub Lawful : Call → Db → Type 0
Lawful (enqueues j limit) db = has_error j ≡ false
Lawful (quarantines id reason desired) db =
    (j : Job) → find (has_id id) db.jobs ≡ some j → j.state ≡ cleaning
Lawful _ db = Unit

-- A lawful call keeps this: a job with a cleanup error is over, or it is cleaning and the device is
-- quarantined.
pub exec-Reviewed :
    (c : Call) (d : Disk)
    → Lawful c d.db
    → Distinct d.db.jobs
    → Reviewed d.db
    → Reviewed (exec c d).1.db
unfolding exec resolve resolve_automatic
exec-Reviewed (enqueues j limit) d l _ h = enqueue-Reviewed j limit l d h
exec-Reviewed claims d l u h = rw drop-db (claim-Reviewed d u h)
exec-Reviewed recovers d l u h = recover-Reviewed d u h
exec-Reviewed (changes id to fields) d l _ h = change-Reviewed id to fields d h
exec-Reviewed (progresses id label current total) d l _ h =
    progress-Reviewed id label current total d h
exec-Reviewed (cancels id) d l _ h = cancel-Reviewed id d h
exec-Reviewed (releases id) d l _ h = release-Reviewed id d h
exec-Reviewed (resolves id) d l _ h = resolve_as-Reviewed id _ d h
exec-Reviewed (resolves_automatic id) d l _ h = resolve_as-Reviewed id _ d h
exec-Reviewed (retries id) d l _ h = retry-Reviewed id d h
exec-Reviewed (quarantines id reason desired) d l _ h = quarantine-Reviewed id reason desired d l h
exec-Reviewed (writes_metadata id fields) d l _ h = metadata-Reviewed id fields d h
exec-Reviewed (begins_cleanup id desired code message) d l _ h =
    rw drop-db (begin_cleanup-Reviewed id desired code message d h)
exec-Reviewed (starts_operation op id) d l _ h = rw drop-db (start_operation-Reviewed op id d h)

abbrev pub LawfulRun : Disk → List (ℕ × Call) → Type 0
LawfulRun d [] = Unit
LawfulRun d ((t, c) ∷ cs) = Lawful c d.db × LawfulRun (exec c (record d { now = t })).1 cs

run-Reviewed :
    (d : Disk) (cs : List (ℕ × Call))
    → LawfulRun d cs
    → Distinct d.db.jobs
    → Reviewed d.db
    → Reviewed (run d cs).db
unfolding run
run-Reviewed d [] l u h = h
run-Reviewed d ((t, c) ∷ cs) (l, ls) u h =
    run-Reviewed (exec c (record d { now = t })).1 cs ls (exec-Good c (record d { now = t }) u).1
      (exec-Reviewed c (record d { now = t }) l u h)

quarantined-claim :
    (d : Disk) → d.db.device.quarantined ≡ true → (out : Job) → (claim d).0 ≢ ok (some out)
quarantined-claim d q out e =
    let free : d.db.device.quarantined ≡ false = (claim-Claimed d out e).not_quarantined in
    cc (q, free)

-- As long as a job waits for a review of its cleanup, the device is quarantined, and no job is
-- claimed: this holds after any lawful history, whatever statements failed.
pub review_blocks_claim :
    (d : Disk) (cs : List (ℕ × Call)) (j out : Job)
    → LawfulRun d cs
    → Distinct d.db.jobs
    → Reviewed d.db
    → Elem j (run d cs).db.jobs
    → awaits_review j ≡ true
    → ((run d cs).db.device.quarantined ≡ true) × ((claim (run d cs)).0 ≢ ok (some out))
review_blocks_claim d cs j out l u h m a =
    let q = Okay-awaits _ j a (All-Elem _ _ j (run-Reviewed d cs l u h) m) in
    (q, quarantined-claim (run d cs) q out)
