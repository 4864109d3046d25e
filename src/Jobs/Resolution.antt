-- ===== src/Jobs/Resolution.antt =====
-- What a review of a job's cleanup does when it is accepted (internal/jobs/store.go, `resolve`).
use ipa_now.Common.{
  String, ◌≡◌, refl, ◌⊎◌, inl, inr, arith, Bool, true, false, List, find, some, subst, sym,
  update_row, count, ltb,
}
use ipa_now.Jobs.Model.{unset, Job, Db, Device, terminal}
use ipa_now.Jobs.Tx.{Disk, Result, ok, err, Done}
use ipa_now.Jobs.Rules.{
  Holds, Leaves, read_then, refuse_then, update_then, device_last, transaction-Holds, Holds-ok,
  Holds-pure,
}
use ipa_now.Jobs.Rows.{has_id, found, first_job, awaits_review}
use ipa_now.Jobs.Cleanup.{clear_quarantine, resolve_as, resolve}
use ipa_now.Jobs.Cancellation.{Row, updated-Row}
use ipa_now.Jobs.Evolve.QueueCalls.{found-find}

-- The row `k` has the outcome that was pending in the row `j`, and is no longer under review.
pub record HasOutcome (j k : Job) : Type 0 where
  pub state : k.state ≡ j.pending_state
  pub no_error : k.cleanup_error ≡ ""
  pub nothing_pending : k.pending_state ≡ unset

-- The job was under review and has its pending outcome. The device stays as it was while another job
-- awaits a review, and is free after the last.
pub record Resolved (id : String) (before after : Db) : Type 0 where
  pub job : Job
  pub is_row : find (has_id id) before.jobs ≡ some job
  pub was_review : awaits_review job ≡ true
  pub was_pending : terminal job.pending_state ≡ true
  pub row : Row id (HasOutcome job) after
  pub device :
      ((ltb 0 (count awaits_review after.jobs) ≡ true) × (after.device ≡ before.device))
      ⊎ ((ltb 0 (count awaits_review after.jobs) ≡ false)
          × (after.device.quarantined ≡ false)
          × (after.device.owner ≡ ""))

clear_quarantine-Resolved :
    (b : Bool) (d : Disk) (before : Device) (xs : List Job)
    → d.db.device ≡ before
    → d.db.jobs ≡ xs
    → ltb 0 (count awaits_review xs) ≡ b
    → Leaves
        (λ db.
          (db.jobs ≡ xs)
          × (((ltb 0 (count awaits_review db.jobs) ≡ true) × (db.device ≡ before))
              ⊎ ((ltb 0 (count awaits_review db.jobs) ≡ false)
                  × (db.device.quarantined ≡ false)
                  × (db.device.owner ≡ ""))))
        (clear_quarantine b d)
unfolding clear_quarantine
clear_quarantine-Resolved true d before xs e s n = Holds-pure _ _ _ (s, inl (rw s n, e))
clear_quarantine-Resolved false d before xs e s n = device_last _ _ _ (s, inr (rw s n, refl, refl))

mono-Leaves :
    (P Q : Db → Type 0) (r : Result Done × Disk)
    → ((db : Db) → P db → Q db)
    → Leaves P r
    → Leaves Q r
unfolding Holds
mono-Leaves P Q (ok a, d) f h = f d.db h
mono-Leaves P Q (err e, d) f h = tt

-- The update that `resolve` makes for a job that it read as `j`
abbrev settled : String → Job → Job → Job
settled label j k = record k {
  cleanup_error = "";
  state = j.pending_state;
  pending_state = unset;
  phase = label;
}

resolve_as-Resolved :
    (id label : String) (d : Disk) → Leaves (Resolved id d.db) (resolve_as id label d)
unfolding resolve_as first_job awaits_review
resolve_as-Resolved id label d = transaction-Holds _ _ d (
    read_then _ _ _ _ λ j e. refuse_then _ _ _ _ _ λ due. update_then _ _ _ _ _ (
      read_then _ _ _ _ λ n c.
        mono-Leaves _ (Resolved id d.db) _
          (λ db q. record {
            job = j;
            is_row = found-find _ j e;
            was_review = ground arith;
            was_pending = ground arith;
            row = moved db j e q.0;
            device = q.1;
          })
          (clear_quarantine-Resolved (ltb 0 n) _ d.db.device _ refl refl (ground (arith, c)))))
  where
    moved :
        (db : Db) (j : Job)
        → found (find (has_id id) d.db.jobs) ≡ ok j
        → db.jobs
          ≡ update_row
              (has_id j.id)
              (λ k. record (settled label j k) { updated_at = d.now })
              d.db.jobs
        → Row id (HasOutcome j) db
    moved db j e q =
        subst (λ xs. (k : Job) × (find (has_id id) xs ≡ some k) × HasOutcome j k) (sym q)
          (updated-Row id d.db j (settled label j) d.now _ e refl
            (record { state = refl; no_error = refl; nothing_pending = refl }))

-- A review that is accepted was of a cleaning job with a cleanup error, which gets its pending outcome.
-- The device stays as it was while another job awaits a review; after the last it is neither
-- quarantined nor owned.
pub resolve-Resolved :
    (id : String) (d : Disk) → (resolve id d).0 ≡ ok tt → Resolved id d.db (resolve id d).1.db
unfolding resolve
resolve-Resolved id d h = Holds-ok _ (resolve id d) tt (resolve_as-Resolved id _ d) h
