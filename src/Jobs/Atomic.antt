-- ===== src/Jobs/Atomic.antt =====
-- A call of the job store that fails leaves the rows as they were.
use ipa_now.Common.{Bool, ◌≡◌, refl, arith}
use ipa_now.Jobs.Rows.{update_jobs, update_device, with_update, with_device}
use ipa_now.Jobs.Model.{Device, Job, Db}
use ipa_now.Jobs.Tx.{
  Error, Result, ok, err, not_found, conflict, queue_full, storage, Disk, Tx, transaction, write,
  finish,
}
use ipa_now.Jobs.Queue.{
  enqueue, claim, claim_tx, unless_not_found, change, progress, cancel, retry, metadata,
}
use ipa_now.Jobs.Cleanup.{release, quarantine, resolve, resolve_automatic, recover, begin_cleanup}
use ipa_now.Jobs.Journal.{start_operation}
use ipa_now.Jobs.Calls.{
  Call, drop, enqueues, claims, recovers, changes, progresses, cancels, releases, resolves,
  resolves_automatic, retries, quarantines, writes_metadata, begins_cleanup, starts_operation, exec,
}

finish_atomic :
    {A : Type 0} (d : Disk) (r : Result A) (d' : Disk) (e : Error)
    → (finish d.db (r, d')).0 ≡ err e
    → (finish d.db (r, d')).1.db ≡ d.db
finish_atomic d (ok a) d' e h = ground arith
finish_atomic d (err x) d' e h = refl

pub transaction_atomic :
    {A : Type 0} (m : Tx A) (d : Disk) (e : Error)
    → (transaction m d).0 ≡ err e
    → (transaction m d).1.db ≡ d.db
unfolding transaction
transaction_atomic m d e h = let (r, d') = m d in finish_atomic d r d' e h

abbrev Atomic : {A : Type 0} → Db → Result A × Disk → Type 0
Atomic db r = (e : Error) → r.0 ≡ err e → r.1.db ≡ db

drop-Atomic : {A : Type 0} (db : Db) (r : Result A × Disk) → Atomic db r → Atomic db (drop r)
drop-Atomic db (ok a, d) h e p = cc
drop-Atomic db (err x, d) h e p = h x refl

unless_not_found-Atomic :
    (db : Db) (r : Result Job × Disk) → Atomic db r → Atomic db (unless_not_found r)
unless_not_found-Atomic db (ok a, d) h e p = cc
unless_not_found-Atomic db (err not_found, d) h e p = cc
unless_not_found-Atomic db (err conflict, d) h e p = h conflict refl
unless_not_found-Atomic db (err queue_full, d) h e p = h queue_full refl
unless_not_found-Atomic db (err storage, d) h e p = h storage refl

write-Atomic : (g : Db → Db) (d : Disk) → Atomic d.db (write g d)
unfolding write
write-Atomic g d e h = ground arith

update_jobs-Atomic : (p : Job → Bool) (f : Job → Job) (d : Disk) → Atomic d.db (update_jobs p f d)
unfolding update_jobs
update_jobs-Atomic p f d = write-Atomic (with_update p f d.now) d

update_device-Atomic : (f : Device → Device) (d : Disk) → Atomic d.db (update_device f d)
unfolding update_device
update_device-Atomic f d = write-Atomic (with_device f) d

-- A call that returns an error, of whatever kind and from whichever of its statements, leaves all
-- three tables as they were.
pub exec_atomic : (c : Call) (d : Disk) (e : Error) → (exec c d).0 ≡ err e → (exec c d).1.db ≡ d.db
unfolding exec enqueue claim claim_tx change progress cancel retry metadata release quarantine
    resolve resolve_automatic recover begin_cleanup start_operation
exec_atomic (enqueues j limit) d e h = transaction_atomic _ d e h
exec_atomic claims d e h =
    drop-Atomic d.db (claim d)
      (unless_not_found-Atomic d.db (claim_tx d) (λ x p. transaction_atomic _ d x p)) e h
exec_atomic recovers d e h = transaction_atomic _ d e h
exec_atomic (changes id to fields) d e h = transaction_atomic _ d e h
exec_atomic (progresses id label current total) d e h = update_jobs-Atomic _ _ d e h
exec_atomic (cancels id) d e h = transaction_atomic _ d e h
exec_atomic (releases id) d e h = update_device-Atomic _ d e h
exec_atomic (resolves id) d e h = transaction_atomic _ d e h
exec_atomic (resolves_automatic id) d e h = transaction_atomic _ d e h
exec_atomic (retries id) d e h = update_jobs-Atomic _ _ d e h
exec_atomic (quarantines id reason desired) d e h = transaction_atomic _ d e h
exec_atomic (writes_metadata id fields) d e h = update_jobs-Atomic _ _ d e h
exec_atomic (begins_cleanup id desired code message) d e h =
    drop-Atomic d.db (begin_cleanup id desired code message d) (λ x p. transaction_atomic _ d x p) e
      h
exec_atomic (starts_operation op id) d e h =
    drop-Atomic d.db (start_operation op id d) (λ x p. transaction_atomic _ d x p) e h
