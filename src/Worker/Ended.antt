-- ===== src/Worker/Ended.antt =====
-- A job whose run is over: what the callers beside the worker leave of it.
pub mod Rules
pub mod Closing
pub mod Conclusion
pub mod Run
use ipa_now.Common.{
  ◌∙◌, ℕ, String, ◌≡◌, refl, inl, inr, Bool, true, false, not, ◌&&◌, ◌||◌, arith, List, [], ◌∷◌,
  ◌==◌, find, some, none, if◌then◌else◌, Option-cases,
}
use ipa_now.Jobs.Trace.{Trace, over, calls}
use ipa_now.Jobs.Model.{State, cleaning, Job, Db, terminal, can_transition}
use ipa_now.Jobs.Tx.{Disk, Tx}
use ipa_now.Jobs.Rules.{
  read_then, clock_then, refuse_then, statement_then, statement_last, update_then, update_last,
  update_keeps, device_keeps, transaction_keeps, Holds-pure,
}
use ipa_now.Jobs.Rows.{Field, phase, set_field, set_fields, has_id, awaits_review, first_job, found}
use ipa_now.Jobs.Queue.{metadata, enqueue, insert_job, admitted, cancel, progress}
use ipa_now.Jobs.Cleanup.{release, resolve, resolve_as}
use ipa_now.Jobs.Journal.{start_operation}
use ipa_now.Jobs.Calls.{
  Call, enqueues, claims, recovers, changes, progresses, cancels, releases, resolves,
  resolves_automatic, retries, quarantines, writes_metadata, begins_cleanup, starts_operation, exec,
  run, drop,
}
use ipa_now.Jobs.Evolve.Table.{
  Evolves, Evolves-refl, Evolves-trans, Evolves-append, Evolves-update_row,
}
use ipa_now.Jobs.Evolve.QueueCalls.{set_fields_id, same_row}
use ipa_now.Jobs.Evolve.CleanupCalls.{clear_quarantine-Leaves, insert_operation-jobs}
use ipa_now.Jobs.Evolve.History.{drop-db}

-- The job is terminal, or its cleanup is under review.
abbrev pub is_ended : Job → Bool
is_ended j = terminal j.state || awaits_review j

-- A later row of the job, which is ended if this one is.
pub record Stays (j k : Job) : Type 0 where
  pub same_id : j.id ≡ k.id
  pub still : is_ended j ≡ true → is_ended k ≡ true

Stays-refl : (j : Job) → Stays j j
Stays-refl j = record { same_id = refl; still = λ h. h }

Stays-trans : (i j k : Job) → Stays i j → Stays j k → Stays i k
Stays-trans i j k g h = ground arith

set_field_ended : (f : Field) (j : Job) → is_ended j ≡ is_ended (set_field f j)
unfolding set_field awaits_review terminal
set_field_ended (phase v) j = refl
set_field_ended _ j = refl

set_fields_ended : (fs : List Field) (j : Job) → is_ended j ≡ is_ended (set_fields fs j)
unfolding set_fields
set_fields_ended [] j = refl
set_fields_ended (f ∷ fs) j = set_field_ended f j ∙ set_fields_ended fs (set_field f j)

abbrev Ends : List Job → List Job → Type 0
Ends = Evolves Stays

Ends-refl : (xs : List Job) → Ends xs xs
Ends-refl = Evolves-refl Stays Stays-refl

abbrev pub Stayed : {A : Type 0} → Tx A → Type 0
Stayed m = (d : Disk) → Ends d.db.jobs (m d).1.db.jobs

insert-Ends : (j : Job) (d : Disk) → Ends d.db.jobs (insert_job j d.db).1.jobs
unfolding insert_job
insert-Ends j d = elim (Option-cases (find (has_id j.id) d.db.jobs)) [
  | inl e ↦ rw (e, insert_job) (Evolves-append Stays Stays-refl d.db.jobs (j ∷ []))
  | inr (k, e) ↦ rw (e, insert_job) (Ends-refl d.db.jobs)
]

enqueue-Stayed : (j : Job) (limit : ℕ) → Stayed (enqueue j limit)
unfolding enqueue
enqueue-Stayed j limit d =
    transaction_keeps (λ db. Ends d.db.jobs db.jobs) d _ (Ends-refl _)
      (read_then _ _ _ _ λ n e. refuse_then _ _ _ _ _ λ room. clock_then _ _ _ (
        statement_last (λ db. Ends d.db.jobs db.jobs) _ _
          λ b done. insert-Ends (admitted d.now j) d))

progress-Stayed : (id label : String) (current total : ℕ) → Stayed (progress id label current total)
unfolding progress terminal awaits_review
progress-Stayed id label current total d =
    update_keeps (λ db. Ends d.db.jobs db.jobs) d _ _ (Ends-refl _)
      (Evolves-update_row Stays Stays-refl _ _ _ λ k q. ground arith)

cancel-Stayed : (id : String) → Stayed (cancel id)
unfolding cancel first_job terminal awaits_review
cancel-Stayed id d =
    transaction_keeps (λ db. Ends d.db.jobs db.jobs) d _ (Ends-refl _)
      (read_then _ _ _ _ λ j e. refuse_then _ _ _ _ _ λ live.
        update_last (λ db. Ends d.db.jobs db.jobs) _ _ _
          (Evolves-update_row Stays Stays-refl _ _ _ λ k q. ground arith))

pub release-Stayed : (id : String) → Stayed (release id)
unfolding release
release-Stayed id d = device_keeps (λ db. Ends d.db.jobs db.jobs) d _ (Ends-refl _) (Ends-refl _)

resolve-Stayed : (id : String) → Stayed (resolve id)
unfolding resolve resolve_as first_job
resolve-Stayed id d =
    transaction_keeps (λ db. Ends d.db.jobs db.jobs) d _ (Ends-refl _)
      (read_then _ _ _ _ λ j e. refuse_then _ _ _ _ _ λ due. update_then _ _ _ _ _ (
        read_then _ _ _ _ λ n _. clear_quarantine-Leaves (Ends d.db.jobs) _ _ (
          Evolves-update_row Stays Stays-refl _ _ _
            λ k q. record { same_id = refl; still = λ h. ground arith })))

start_operation-Stayed : (op id : String) → Stayed (start_operation op id)
unfolding start_operation first_job
start_operation-Stayed op id d =
    transaction_keeps (λ db. Ends d.db.jobs db.jobs) d _ (Ends-refl _)
      (read_then _ _ _ _ λ j e. read_then _ _ _ _ λ dev _. refuse_then _ _ _ _ _ λ live.
        clock_then _ _ _ (
          statement_then _ _ _ _
            λ b done. Holds-pure _ _ _ (rw (insert_operation-jobs) (Ends-refl _))))

metadata-Stayed : (id : String) (fields : List Field) → Stayed (metadata id fields)
unfolding metadata terminal awaits_review
metadata-Stayed id fields d =
    update_keeps (λ db. Ends d.db.jobs db.jobs) d _ _ (Ends-refl _)
      (Evolves-update_row Stays Stays-refl _ _ _ λ k q. written k)
  where
    written : (k : Job) → Stays k (record (set_fields fields k) { updated_at = d.now })
    written k = ground (arith, set_fields_id fields k, set_fields_ended fields k)

-- The calls that are made beside the worker: those of the HTTP handlers, the review of an operator with
-- its expiry of artifacts among them, of the monitor and of the engine.
abbrev pub IsBeside : Call → Type 0
IsBeside (enqueues j limit) = Unit
IsBeside (cancels id) = Unit
IsBeside (resolves id) = Unit
IsBeside (progresses id label current total) = Unit
IsBeside (starts_operation op id) = Unit
IsBeside (writes_metadata id fields) = Unit
IsBeside _ = ⊥

abbrev pub AreBeside : List (ℕ × Call) → Type 0
AreBeside [] = Unit
AreBeside ((t, c) ∷ cs) = IsBeside c × AreBeside cs

exec-Ends : (c : Call) (d : Disk) → IsBeside c → Ends d.db.jobs (exec c d).1.db.jobs
unfolding exec
exec-Ends (enqueues j limit) d h = enqueue-Stayed j limit d
exec-Ends (cancels id) d h = cancel-Stayed id d
exec-Ends (resolves id) d h = resolve-Stayed id d
exec-Ends (progresses id label current total) d h = progress-Stayed id label current total d
exec-Ends (starts_operation op id) d h = rw drop-db (start_operation-Stayed op id d)
exec-Ends (writes_metadata id fields) d h = metadata-Stayed id fields d
exec-Ends claims d h = elim h [ ]
exec-Ends recovers d h = elim h [ ]
exec-Ends (changes id to fields) d h = elim h [ ]
exec-Ends (releases id) d h = elim h [ ]
exec-Ends (resolves_automatic id) d h = elim h [ ]
exec-Ends (retries id) d h = elim h [ ]
exec-Ends (quarantines id reason desired) d h = elim h [ ]
exec-Ends (begins_cleanup id desired code message) d h = elim h [ ]

-- An ended job stays ended, whatever is called beside the worker.
pub run-Ends : (d : Disk) (cs : List (ℕ × Call)) → AreBeside cs → Ends d.db.jobs (run d cs).db.jobs
unfolding run
run-Ends d [] h = Ends-refl _
run-Ends d ((t, c) ∷ cs) (h, hs) =
    Evolves-trans Stays Stays-trans _ _ _ (exec-Ends c (record d { now = t }) h)
      (run-Ends (exec c (record d { now = t })).1 cs hs)
