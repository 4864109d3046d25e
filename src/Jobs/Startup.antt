-- ===== src/Jobs/Startup.antt =====
-- What `Recover` leaves for the first claim after a start, and who may start an operation.
use ipa_now.Common.{
  String, ◌≡◌, refl, ◌⊎◌, inl, inr, true, false, not, ◌||◌, ◌==◌, arith, [], ◌∷◌, none, some, find,
  All, All-mono, All-All, eq_iff, ◌++◌, Option-cases,
}
use ipa_now.Jobs.Model.{running, Job, Db, Device, Operation, state_eq}
use ipa_now.Jobs.Tx.{Disk, Result, ok}
use ipa_now.Jobs.Rules.{
  Leaves, Holds, read_then, refuse_then, clock_then, statement_then, Holds-pure, transaction-Holds,
  Holds-ok,
}
use ipa_now.Jobs.Rows.{has_id, found, first_job, is_active}
use ipa_now.Jobs.Cleanup.{recover, recover_device}
use ipa_now.Jobs.Journal.{has_op, insert_operation, start_operation}
use ipa_now.Jobs.Evolve.Rows.{Distinct}
use ipa_now.Jobs.Evolve.QueueCalls.{found-find}
use ipa_now.Jobs.Evolve.Interrupted.{Settled}
use ipa_now.Jobs.Evolve.Recovery.{recover-Holds}

-- No job is left running or verifying, every cleaning job is under review, and nobody owns the
-- device, which is quarantined if any job was active.
pub record Started (before after : Db) : Type 0 where
  pub settled : All Settled after.jobs
  pub unowned : after.device.owner ≡ ""
  pub guarded :
      (All (λ j. is_active j ≡ false) before.jobs
        × (after.device.quarantined ≡ before.device.quarantined))
      ⊎ (after.device.quarantined ≡ true)

recover-Leaves : (d : Disk) → Distinct d.db.jobs → Leaves (Started d.db) (recover d)
unfolding recover_device
recover-Leaves d h =
    recover-Holds (λ _. Unit) (λ t j k u. tt) (Started d.db) d h (All-All (λ _. tt) d.db.jobs)
      (λ idle. record {
        settled = All-mono _ _ (λ j e. inl e) d.db.jobs idle;
        unowned = refl;
        guarded = inl (idle, refl);
      })
      (λ db j rest r. record { settled = r.1; unowned = refl; guarded = inr refl })

-- A recovery that succeeds leaves no job running or verifying, and every cleaning job under review.
-- The device has no owner. If a job was active it is quarantined; else the quarantine is as it was.
pub recover-Started :
    (d : Disk) → Distinct d.db.jobs → (recover d).0 ≡ ok tt → Started d.db (recover d).1.db
recover-Started d h e = Holds-ok _ (recover d) tt (recover-Leaves d h) e

-- The lease under which an operation may start, and its durable record.
pub record Leased (d : Disk) (op id : String) (db : Db) : Type 0 where
  pub row : Job
  pub is_row : find (has_id id) d.db.jobs ≡ some row
  pub is_running : row.state ≡ running
  pub owner : d.db.device.owner ≡ id
  pub not_quarantined : d.db.device.quarantined ≡ false
  pub is_new : find (has_op op) d.db.operations ≡ none
  pub saved : db ≡ record d.db {
    operations = d.db.operations ++ record { id = op; job_id = id; created_at = d.now } ∷ [];
  }

insert_saves :
    (o : Operation) (db : Db)
    → (insert_operation o db).0 ≡ ok tt
    → (find (has_op o.id) db.operations ≡ none)
      × ((insert_operation o db).1 ≡ record db { operations = db.operations ++ o ∷ [] })
unfolding insert_operation
insert_saves o db e = elim (Option-cases (find (has_op o.id) db.operations)) [
  | inl free ↦ (free, rw free)
  | inr (x, taken) ↦ ground arith
]

leased :
    (op id : String) (d : Disk) (j : Job) (dev : Device)
    → found (find (has_id id) d.db.jobs) ≡ ok j
    → ◌≡◌ {A = Result Device} (ok d.db.device) (ok dev)
    → not (state_eq j.state running) || not (dev.owner == id) || dev.quarantined ≡ false
    → {db : Db}
    → (find (has_op op) d.db.operations ≡ none)
      × (db ≡ record d.db {
        operations = d.db.operations ++ record { id = op; job_id = id; created_at = d.now } ∷ [];
      })
    → Leased d op id db
leased op id d j dev e f live (free, saved) = record {
  row = j;
  is_row = found-find _ j e;
  is_running = ground arith;
  owner = (eq_iff d.db.device.owner id).0 (ground arith);
  not_quarantined = ground arith;
  is_new = free;
  saved = saved;
}

start_operation-Holds :
    (op id : String) (d : Disk)
    → Holds (λ a db. (a ≡ op) × Leased d op id db) (start_operation op id d)
unfolding start_operation first_job
start_operation-Holds op id d = transaction-Holds _ _ d (
    read_then _ _ _ _ λ j e. read_then _ _ _ _ λ dev f. refuse_then _ _ _ _ _ λ live.
      clock_then _ _ _ (
        statement_then _ _ _ _ λ b done.
          Holds-pure _ _ _ (refl, leased op id d j dev e f live (insert_saves _ d.db done))))

-- An operation starts only for the running job that owns the device, outside a quarantine, under an
-- ID that was never used. Its record is added, and nothing else changes.
pub start_operation-Leased :
    (op id a : String) (d : Disk)
    → (start_operation op id d).0 ≡ ok a
    → (a ≡ op) × Leased d op id (start_operation op id d).1.db
start_operation-Leased op id a d e =
    Holds-ok _ (start_operation op id d) a (start_operation-Holds op id d) e
