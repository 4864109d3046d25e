-- ===== src/Scheduler/Idle.antt =====
-- No job is left without an end but the one that is run: what the calls of a run, and those beside it,
-- do to the other jobs.
use ipa_now.Common.{
  ◌+◌, ◌∙◌, ℕ, String, ◌≡◌, refl, sym, inl, inr, ◌⊎◌, Bool, true, ◌&&◌, ◌||◌, arith, List, [], ◌∷◌,
  find, update_row, some, if◌then◌else◌, Option-cases, All, All-append, All-update_row, find-sat,
  eq_iff,
}
use ipa_now.Jobs.Model.{
  State, unset, cancelled, queued, running, verifying, state_eq, Job, Db, terminal,
}
use ipa_now.Jobs.Tx.{ok, Disk, Tx}
use ipa_now.Jobs.Rules.{
  read_then, clock_then, refuse_then, statement_then, statement_last, update_then, update_last,
  update_keeps, device_keeps, device_last, transaction_keeps, Holds-pure,
}
use ipa_now.Jobs.Rows.{Field, phase, set_field, set_fields, has_id, awaits_review, first_job, found}
use ipa_now.Jobs.Queue.{metadata, enqueue, insert_job, admitted, cancel, progress, change, retry}
use ipa_now.Jobs.Cleanup.{release, resolve, resolve_as, begin_cleanup, quarantine, cleaned}
use ipa_now.Jobs.Journal.{start_operation}
use ipa_now.Jobs.Calls.{
  Call, enqueues, claims, recovers, changes, progresses, cancels, releases, resolves,
  resolves_automatic, retries, quarantines, writes_metadata, begins_cleanup, starts_operation, exec,
  run,
}
use ipa_now.Jobs.Evolve.QueueCalls.{set_fields_id, found-find}
use ipa_now.Jobs.Evolve.CleanupCalls.{clear_quarantine-Leaves, insert_operation-jobs}
use ipa_now.Jobs.Evolve.History.{drop-db}
use ipa_now.Worker.Ended.{is_ended, IsBeside, AreBeside}
use ipa_now.Worker.Course.{IsOfRun, Course, over, beside, own}

-- The job waits in the queue, is terminal, or its cleanup is under review.
abbrev pub is_idle : Job → Bool
is_idle j = state_eq j.state queued || is_ended j

abbrev pub IsIdleBut : String → Job → Type 0
IsIdleBut id k = (k.id ≡ id) ⊎ (is_idle k ≡ true)

-- Every job but one is idle.
abbrev pub Idle : String → Db → Type 0
Idle id db = All (IsIdleBut id) db.jobs

set_field_idle : (f : Field) (j : Job) → is_idle j ≡ is_idle (set_field f j)
unfolding set_field awaits_review terminal
set_field_idle (phase v) j = refl
set_field_idle _ j = refl

set_fields_idle : (fs : List Field) (j : Job) → is_idle j ≡ is_idle (set_fields fs j)
unfolding set_fields
set_fields_idle [] j = refl
set_fields_idle (f ∷ fs) j = set_field_idle f j ∙ set_fields_idle fs (set_field f j)

module _ (id : String) where
  abbrev Stays : {A : Type 0} → Tx A → Type 0
  Stays m = (d : Disk) → Idle id d.db → Idle id (m d).1.db

  module _ (p : Job → Bool) (f : Job → Job) (same : (k : Job) → k.id ≡ (f k).id) (t : ℕ)
      (xs : List Job) where
    abbrev written : Job → Job
    written k = record (f k) { updated_at = t }

    -- An update of an idle job that leaves it idle
    kept :
        ((k : Job) → find p xs ≡ some k → is_idle k ≡ true → is_idle (written k) ≡ true)
        → All (IsIdleBut id) xs
        → All (IsIdleBut id) (update_row p written xs)
    kept keep h = All-update_row (IsIdleBut id) p written xs (λ k e. moved k (keep k e)) h
      where
        moved :
            (k : Job)
            → (is_idle k ≡ true → is_idle (written k) ≡ true)
            → IsIdleBut id k
            → IsIdleBut id (written k)
        moved k g (inl e) = inl (sym (same k) ∙ e)
        moved k g (inr e) = inr (g e)

    -- The job itself may become anything.
    owned :
        ((k : Job) → find p xs ≡ some k → k.id ≡ id)
        → All (IsIdleBut id) xs
        → All (IsIdleBut id) (update_row p written xs)
    owned at h = All-update_row (IsIdleBut id) p written xs (λ k e _. inl (sym (same k) ∙ at k e)) h

  insert-Idle : (j : Job) (d : Disk) → Idle id d.db → Idle id (insert_job (admitted d.now j) d.db).1
  unfolding insert_job terminal awaits_review
  insert-Idle j d h = elim (Option-cases (find (has_id j.id) d.db.jobs)) [
    | inl e ↦
        rw (e, insert_job)
          (All-append (IsIdleBut id) d.db.jobs (admitted d.now j ∷ []) h (inr refl, tt))
    | inr (k, e) ↦ rw (e, insert_job) h
  ]

  enqueue-Stays : (j : Job) (limit : ℕ) → Stays (enqueue j limit)
  unfolding enqueue
  enqueue-Stays j limit d h = transaction_keeps (Idle id) d _ h (
      read_then _ _ _ _ λ n e.
        refuse_then _ _ _ _ _
          λ room. clock_then _ _ _ (statement_last (Idle id) _ _ λ b done. insert-Idle j d h))

  progress-Stays : (i label : String) (current total : ℕ) → Stays (progress i label current total)
  unfolding progress terminal awaits_review
  progress-Stays i label current total d h = update_keeps (Idle id) d _ _ h (
      kept (λ j. has_id i j && (state_eq j.state running || state_eq j.state verifying))
        (λ j. record j { phase = label; current = current; total = total }) (λ k. refl) d.now
        d.db.jobs (λ k q x. ground arith) h)

  cancel-Stays : (i : String) → Stays (cancel i)
  unfolding cancel first_job terminal awaits_review
  cancel-Stays i d h = transaction_keeps (Idle id) d _ h (
      read_then _ _ _ _ λ j e. refuse_then _ _ _ _ _ λ live. update_last (Idle id) _ _ _ (
        kept (has_id j.id) (λ k. record k { cancel_requested = true }) (λ k. refl) d.now d.db.jobs
          (λ k q x. ground arith) h))

  resolve-Stays : (i : String) → Stays (resolve i)
  unfolding resolve resolve_as first_job
  resolve-Stays i d h = transaction_keeps (Idle id) d _ h (
      read_then _ _ _ _ λ j e. refuse_then _ _ _ _ _ λ due. update_then _ _ _ _ _ (
        read_then _ _ _ _ λ n _. clear_quarantine-Leaves (All (IsIdleBut id)) _ _ (
          kept (has_id j.id)
            (λ k. record k {
              cleanup_error = "";
              state = j.pending_state;
              pending_state = unset;
              phase = "operator-confirmed cleanup";
            })
            (λ k. refl) d.now d.db.jobs (λ k q x. ground arith) h)))

  start_operation-Stays : (op i : String) → Stays (start_operation op i)
  unfolding start_operation first_job
  start_operation-Stays op i d h = transaction_keeps (Idle id) d _ h (
      read_then _ _ _ _ λ j e. read_then _ _ _ _ λ dev _. refuse_then _ _ _ _ _ λ live.
        clock_then _ _ _
          (statement_then _ _ _ _ λ b done. Holds-pure _ _ _ (rw (insert_operation-jobs) h)))

  metadata-Stays : (i : String) (fields : List Field) → Stays (metadata i fields)
  unfolding metadata terminal awaits_review
  metadata-Stays i fields d h = update_keeps (Idle id) d _ _ h (
      kept (has_id i) (set_fields fields) (set_fields_id fields) d.now d.db.jobs
        (λ k q x. ground (arith, set_fields_idle fields k)) h)

  exec_beside-Idle : (c : Call) (d : Disk) → IsBeside c → Idle id d.db → Idle id (exec c d).1.db
  unfolding exec
  exec_beside-Idle (enqueues j limit) d p h = enqueue-Stays j limit d h
  exec_beside-Idle (cancels i) d p h = cancel-Stays i d h
  exec_beside-Idle (resolves i) d p h = resolve-Stays i d h
  exec_beside-Idle (progresses i label current total) d p h =
      progress-Stays i label current total d h
  exec_beside-Idle (starts_operation op i) d p h = rw drop-db (start_operation-Stays op i d h)
  exec_beside-Idle (writes_metadata i fields) d p h = metadata-Stays i fields d h
  exec_beside-Idle claims d p h = elim p [ ]
  exec_beside-Idle recovers d p h = elim p [ ]
  exec_beside-Idle (changes i to fields) d p h = elim p [ ]
  exec_beside-Idle (releases i) d p h = elim p [ ]
  exec_beside-Idle (resolves_automatic i) d p h = elim p [ ]
  exec_beside-Idle (retries i) d p h = elim p [ ]
  exec_beside-Idle (quarantines i reason desired) d p h = elim p [ ]
  exec_beside-Idle (begins_cleanup i desired code message) d p h = elim p [ ]

  found_id : (xs : List Job) (k : Job) → find (has_id id) xs ≡ some k → k.id ≡ id
  found_id xs k e = (eq_iff k.id id).0 (find-sat (has_id id) xs k e)

  -- The row that was read, found again by its ID
  read_id :
      (xs : List Job) (j k : Job)
      → found (find (has_id id) xs) ≡ ok j
      → find (has_id j.id) xs ≡ some k
      → k.id ≡ id
  read_id xs j k e q =
      (eq_iff k.id j.id).0 (find-sat (has_id j.id) xs k q) ∙ found_id xs j (found-find _ j e)

  change-Stays : (to : State) (fields : List Field) → Stays (change id to fields)
  unfolding change first_job
  change-Stays to fields d h = transaction_keeps (Idle id) d _ h (
      read_then _ _ _ _ λ j e. refuse_then _ _ _ _ _ λ live. update_last (Idle id) _ _ _ (
        owned (has_id j.id) (λ x. record (set_fields fields x) { state = to })
          (set_fields_id fields) d.now d.db.jobs (λ k q. read_id d.db.jobs j k e q) h))

  begin_cleanup-Stays :
      (desired : State) (code message : String) → Stays (begin_cleanup id desired code message)
  unfolding begin_cleanup first_job
  begin_cleanup-Stays desired code message d h = transaction_keeps (Idle id) d _ h (
      read_then _ _ _ _ λ j e. refuse_then _ _ _ _ _ λ live. update_then _ _ _ _ _ (
        Holds-pure _ _ _ (
          owned (has_id j.id)
            (cleaned (if j.cancel_requested then cancelled else desired)
              (if j.cancel_requested then "cancelled" else code)
              (if j.cancel_requested then "The job was cancelled." else message))
            (λ k. refl) d.now d.db.jobs (λ k q. read_id d.db.jobs j k e q) h)))

  quarantine-Stays : (reason : String) (desired : State) → Stays (quarantine id reason desired)
  unfolding quarantine
  quarantine-Stays reason desired d h = transaction_keeps (Idle id) d _ h (
      update_then _ _ _ _ _ (
        device_last (Idle id) _ _ (
          owned (has_id id) (λ x. record x { cleanup_error = reason; pending_state = desired })
            (λ k. refl) d.now d.db.jobs (found_id d.db.jobs) h)))

  release-Stays : Stays (release id)
  unfolding release
  release-Stays d h = device_keeps (Idle id) d _ h h

  retry-Stays : Stays (retry id)
  unfolding retry terminal awaits_review
  retry-Stays d h = update_keeps (Idle id) d _ _ h (
      kept (λ j. has_id id j && state_eq j.state running)
        (λ j. record j { attempts = j.attempts + 1; phase = "retry-wait" }) (λ k. refl) d.now
        d.db.jobs (λ k q x. ground arith) h)

  exec_own-Idle : (c : Call) (d : Disk) → IsOfRun id c → Idle id d.db → Idle id (exec c d).1.db
  unfolding exec
  exec_own-Idle (changes i to fields) d p h = rw p (change-Stays to fields d h)
  exec_own-Idle (begins_cleanup i desired code message) d p h =
      rw drop-db (rw p (begin_cleanup-Stays desired code message d h))
  exec_own-Idle (quarantines i reason desired) d p h = rw p (quarantine-Stays reason desired d h)
  exec_own-Idle (releases i) d p h = rw p (release-Stays d h)
  exec_own-Idle (retries i) d p h = rw p (retry-Stays d h)
  exec_own-Idle (writes_metadata i fields) d p h = metadata-Stays i fields d h
  exec_own-Idle (enqueues j limit) d p h = elim p [ ]
  exec_own-Idle (cancels i) d p h = elim p [ ]
  exec_own-Idle (resolves i) d p h = elim p [ ]
  exec_own-Idle (progresses i label current total) d p h = elim p [ ]
  exec_own-Idle (starts_operation op i) d p h = elim p [ ]
  exec_own-Idle claims d p h = elim p [ ]
  exec_own-Idle recovers d p h = elim p [ ]
  exec_own-Idle (resolves_automatic i) d p h = elim p [ ]

  -- A run, with whatever is called beside it, leaves every other job idle that was idle.
  pub Course-Idle : (n : ℕ) (a b : Db) → Course IsBeside id n a b → Idle id a → Idle id b
  Course-Idle n _ _ (over _ db) h = h
  Course-Idle n _ _ (beside c d _ e p g) h = Course-Idle n _ e g (exec_beside-Idle c d p h)
  Course-Idle n _ _ (own c d m _ e p le g) h = Course-Idle m _ e g (exec_own-Idle c d p h)

  pub run-Idle :
      (d : Disk) (cs : List (ℕ × Call)) → AreBeside cs → Idle id d.db → Idle id (run d cs).db
  unfolding run
  run-Idle d [] p h = h
  run-Idle d ((t, c) ∷ cs) (p, ps) h =
      run-Idle (exec c (record d { now = t })).1 cs ps
        (exec_beside-Idle c (record d { now = t }) p h)
