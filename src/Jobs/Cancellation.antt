-- ===== src/Jobs/Cancellation.antt =====
-- A cancellation that is accepted before `BeginCleanup` decides the outcome of the job.
use ipa_now.Common.{
  ℕ, String, ◌≡◌, refl, sym, true, arith, List, some, find, find-sat, find-update_row, update_row,
  eq_iff, eq_refl, if◌then◌else◌, subst,
}
use ipa_now.Jobs.Model.{State, cleaning, cancelled, Job, Db, can_transition}
use ipa_now.Jobs.Tx.{Disk, ok}
use ipa_now.Jobs.Rules.{
  Holds, read_then, refuse_then, update_then, update_last, Holds-pure, transaction-Holds, Holds-ok,
}
use ipa_now.Jobs.Rows.{has_id, found, first_job, with_update}
use ipa_now.Jobs.Queue.{cancel}
use ipa_now.Jobs.Cleanup.{cleaned, begin_cleanup}
use ipa_now.Jobs.Calls.{Call, run}
use ipa_now.Jobs.Evolve.Table.{find-Evolves}
use ipa_now.Jobs.Evolve.Rows.{Distinct}
use ipa_now.Jobs.Evolve.QueueCalls.{found-find, cancel-Keeps}
use ipa_now.Jobs.Evolve.History.{Later, run-Later}

-- The row of a job, as a table has it.
abbrev pub Row : String → (Job → Type 0) → Db → Type 0
Row id P db = (k : Job) × (find (has_id id) db.jobs ≡ some k) × P k

-- An update of the row that `First` has found.
pub updated-Row :
    (id : String) (db : Db) (j : Job) (f : Job → Job) (t : ℕ) (P : Job → Type 0)
    → found (find (has_id id) db.jobs) ≡ ok j
    → (f j).id ≡ j.id
    → P (record (f j) { updated_at = t })
    → Row id P (with_update (has_id j.id) f t db)
updated-Row id db j f t P e same h =
    let at_id : find (has_id id) db.jobs ≡ some j = found-find _ j e in
    let i : j.id ≡ id = (eq_iff j.id id).0 (find-sat (has_id id) db.jobs j at_id) in
    (
      record (f j) { updated_at = t },
      subst
          (λ x.
            find (has_id id) (update_row (has_id x) (λ k. record (f k) { updated_at = t }) db.jobs)
            ≡ some (record (f j) { updated_at = t }))
          (sym i) (find-update_row (has_id id) _ db.jobs j at_id (ground (arith, eq_refl id))),
      h,
    )

cancel-Holds :
    (id : String) (d : Disk) → Holds (λ _. Row id (λ k. k.cancel_requested ≡ true)) (cancel id d)
unfolding cancel first_job
cancel-Holds id d = transaction-Holds _ _ d (
    read_then _ _ _ _ λ j e. refuse_then _ _ _ _ _ λ live.
      update_last _ _ _ _
        (updated-Row id d.db j (λ k. record k { cancel_requested = true }) d.now _ e refl refl))

-- What `BeginCleanup` has made of the job, if it succeeds with the outcome `s`.
pub record Begun (j k : Job) (desired : State) (code : String) (s : State) : Type 0 where
  pub outcome : s ≡ (if j.cancel_requested then cancelled else desired)
  pub was_live : can_transition j.state cleaning ≡ true
  pub state : k.state ≡ cleaning
  pub pending : k.pending_state ≡ s
  pub error_code : k.error_code ≡ (if j.cancel_requested then "cancelled" else code)

pub begin_cleanup-Holds :
    (id : String) (desired : State) (code message : String) (d : Disk)
    → Holds
        (λ s db.
          (j : Job) × (find (has_id id) d.db.jobs ≡ some j)
          × Row id (λ k. Begun j k desired code s) db)
        (begin_cleanup id desired code message d)
unfolding begin_cleanup first_job
begin_cleanup-Holds id desired code message d = transaction-Holds _ _ d (
    read_then _ _ _ _ λ j e. refuse_then _ _ _ _ _ λ live. update_then _ _ _ _ _ (
      Holds-pure _ _ _
        (j, found-find _ j e, updated-Row id d.db j (outcome_row j) d.now _ e refl (ground arith))))
  where
    outcome_row : Job → Job → Job
    outcome_row j =
        cleaned (if j.cancel_requested then cancelled else desired)
          (if j.cancel_requested then "cancelled" else code)
          (if j.cancel_requested then "The job was cancelled." else message)

-- After an accepted cancellation, whatever calls and failures come between, a cleanup that begins
-- ends in `cancelled`, and saves that with the error code.
pub cancellation_wins :
    (id : String) (d : Disk) (cs : List (ℕ × Call)) (desired s : State) (code message : String)
    → Distinct d.db.jobs
    → (cancel id d).0 ≡ ok tt
    → (begin_cleanup id desired code message (run (cancel id d).1 cs)).0 ≡ ok s
    → (s ≡ cancelled)
      × Row id
          (λ k. (k.state ≡ cleaning) × (k.pending_state ≡ cancelled) × (k.error_code ≡ "cancelled"))
          (begin_cleanup id desired code message (run (cancel id d).1 cs)).1.db
cancellation_wins id d cs desired s code message u c b =
    let (j, there, asked) = Holds-ok _ (cancel id d) tt (cancel-Holds id d) c in
    let distinct : Distinct (cancel id d).1.db.jobs = (cancel-Keeps id d u).1 in
    let (i, there', later) =
      find-Evolves Later (λ x y g. g.same_id) id (cancel id d).1.db.jobs _ j
        (run-Later (cancel id d).1 cs distinct).0 there in
    let e : Disk = run (cancel id d).1 cs in
    let (i', found', result) =
      Holds-ok _ (begin_cleanup id desired code message e) s
        (begin_cleanup-Holds id desired code message e) b in
    let (k, saved, begun) = result in
    let still : i'.cancel_requested ≡ true = ground (arith, later.cancel_stays asked) in
    (ground arith, (k, saved, (ground arith, ground arith, ground arith)))
