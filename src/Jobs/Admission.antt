-- ===== src/Jobs/Admission.antt =====
-- What `Enqueue` promises when it succeeds (internal/jobs/store.go).
use ipa_now.Common.{
  ℕ, ◌<◌, ◌≡◌, refl, arith, inl, inr, [], ◌∷◌, ◌++◌, none, some, Option-cases, Bool-cases, Bool,
  sym, eq_refl, true, List, if◌then◌else◌, find, count,
}
use ipa_now.Jobs.Model.{queued, Job, Db}
use ipa_now.Jobs.Tx.{Disk, Result, ok, err, Done}
use ipa_now.Jobs.Rules.{
  read_then, refuse_then, clock_then, statement_last, transaction-Holds, Holds-ok,
}
use ipa_now.Jobs.Rows.{is_unfinished, has_id}
use ipa_now.Jobs.Queue.{insert_job, admitted, enqueue, leaving, enqueued}

-- The job is new, there was room for it, and it is the last row, queued and due at once.
pub record Admitted (d : Disk) (j : Job) (limit : ℕ) (db : Db) : Type 0 where
  pub room : count is_unfinished d.db.jobs < limit
  pub is_new : find (has_id j.id) d.db.jobs ≡ none
  pub jobs : db.jobs ≡ d.db.jobs ++ admitted d.now j ∷ []
  pub same_device : db.device ≡ d.db.device
  pub same_operations : db.operations ≡ d.db.operations

inserted :
    (d : Disk) (j : Job) (limit : ℕ) (b : Done)
    → count is_unfinished d.db.jobs < limit
    → (insert_job (admitted d.now j) d.db).0 ≡ ok b
    → Admitted d j limit (insert_job (admitted d.now j) d.db).1
unfolding insert_job
inserted d j limit b room done = elim (Option-cases (find (has_id j.id) d.db.jobs)) [
  | inl e ↦
      rw (e, insert_job)
        (record {
          room = room;
          is_new = e;
          jobs = refl;
          same_device = refl;
          same_operations = refl;
        })
  | inr (k, e) ↦ absurd (taken k e)
]
  where
    taken : (k : Job) → find (has_id j.id) d.db.jobs ≡ some k → ⊥
    taken k e = ground arith

-- An accepted job is new, and comes last, queued and due at once; the unfinished jobs were fewer than
-- the limit. Nothing else changes.
pub enqueue-Admitted :
    (j : Job) (limit : ℕ) (d : Disk)
    → (enqueue j limit d).0 ≡ ok tt
    → Admitted d j limit (enqueue j limit d).1.db
unfolding enqueue
enqueue-Admitted j limit d h =
    Holds-ok _ (enqueue j limit d) tt
      (transaction-Holds _ _ d (
        read_then _ _ _ _ λ n e. refuse_then _ _ _ _ _ λ room. clock_then _ _ _ (
          statement_last (Admitted d j limit) _ _
            λ b done. inserted d j limit b (ground arith) done)))
      h

find-append :
    (p : Job → Bool) (xs : List Job) (x : Job)
    → find p xs ≡ none
    → p x ≡ true
    → find p (xs ++ x ∷ []) ≡ some x
unfolding find
find-append p [] x e h = rw (h, if◌then◌else◌) refl
find-append p (y ∷ ys) x e h = elim (Bool-cases (p y)) [
  | inl t ↦ ground arith
  | inr f ↦ rw (f, if◌then◌else◌) (find-append p ys x (rw (f, if◌then◌else◌) at e) h)
]

-- The job that an accepted `Enqueue` leaves with its caller is the row of the table, and it is queued.
pub enqueued-Row :
    (j k : Job) (limit : ℕ) (d : Disk)
    → (enqueued j limit d).0 ≡ ok k
    → (find (has_id j.id) (enqueued j limit d).1.db.jobs ≡ some k)
      × (k.id ≡ j.id)
      × (k.state ≡ queued)
unfolding enqueued
enqueued-Row j k limit d h = stored (enqueue j limit d) (enqueue-Admitted j limit d) h
  where
    stored :
        (r : Result Done × Disk)
        → (r.0 ≡ ok tt → Admitted d j limit r.1.db)
        → (leaving (admitted d.now j) r).0 ≡ ok k
        → (find (has_id j.id) (leaving (admitted d.now j) r).1.db.jobs ≡ some k)
          × (k.id ≡ j.id)
          × (k.state ≡ queued)
    stored (ok done, e) f h =
        let added = f refl in
        let same : admitted d.now j ≡ k = ground arith in
        (
          rw (added.jobs, sym same)
              (find-append (has_id j.id) d.db.jobs (admitted d.now j) added.is_new (eq_refl j.id)),
          rw (sym same) refl,
          rw (sym same) refl,
        )
    stored (err x, e) f h = cc
