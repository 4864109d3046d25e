-- ===== src/Worker/Tests.antt =====
-- Runs of the worker on small worlds, and the theorems at them.
use ipa_now.Common.{
  ◌⊎◌, ℕ, ◌-◌, String, ◌≡◌, refl, true, false, List, [], ◌∷◌, none, find, update_row, length, ◌≤◌,
  all_of, same,
}
use ipa_now.Jobs.Model.{State, failed, unset, queued, running, Job, terminal, can_transition}
use ipa_now.Jobs.Tx.{Disk, ok, statement, transaction, read, write, clock, refuse}
use ipa_now.Jobs.Tx as Tx
use ipa_now.Jobs.Rows.{
  select, is_active, get, all, first_job, update_jobs, update_device, awaits_review, set_field,
  set_fields,
}
use ipa_now.Jobs.Queue.{claim, claim_tx, oldest, is_claimable, cancel, change, metadata}
use ipa_now.Jobs.Cleanup.{
  recover, recover_each, recover_device, interrupted, begin_cleanup, release, quarantine,
}
use ipa_now.Jobs.Calls.{run, exec, cancels}
use ipa_now.Jobs.Evolve.Rows.{Distinct}
use ipa_now.Storage.{workspace, remove, contains, without}
use ipa_now.Storage.Ids.{valid_id, is_hex}
use ipa_now.Storage.Temp.{cleanup_temp, cleanup_entries, allowed, digits_then_ipa}
use ipa_now.Worker.Startup.{
  recover_service, recover_files, reconcile, reconcile_entries, read_dir, resolve_each, keeps_entry,
}
use ipa_now.Worker.Reconciled.Recovered.{Restored, recovered_jobs, recover-Restored}
use ipa_now.Worker.World.{Env, World, ◌>>=◌, pure, fail, attempt, call, file, require, ask}
use ipa_now.Worker.Metadata.{
  bounded_metadata, to_valid_from, longest_valid, is_valid, is_valid_from, rune_size, first_info,
  continued,
}
use ipa_now.Worker.Metadata.Valid.{bounded_metadata-valid}
use ipa_now.Worker.Cleared.{Cleared, begins, finish-Cleared}
use ipa_now.Worker.Device.{safe_message, cleanup_device}
use ipa_now.Worker.Finish.{
  expire, expire_each, is_due, clear_files, settle, drop_artifact, review_device, conclude, finish,
}
use ipa_now.Worker.Attempts.{no_reply, decrypt, attempt_loop, after_attempt}
use ipa_now.Worker.Run.{
  at_deadline, run_job, job_body, decrypt_job, outcome, by_fault, publication, check_monitor,
  request,
}
use ipa_now.Worker.Ended.Conclusion.{Over}
use ipa_now.Worker.Ended.Run.{run_job-Over}
use ipa_now.Worker.Ended.{IsBeside}
use ipa_now.Scheduler.{serve, round, dispatch}
use ipa_now.Scheduler.Rounds.{AreIdle, serve-AreIdle}
use ipa_now.Worker.Course.{Course}
use ipa_now.Worker.Course.Run.{run_job-Course}

abbrev an_id : String
an_id = "0123456789abcdef0123456789abcdef"

abbrev a_job : Job
a_job = record {
  id = an_id;
  target = "com.example.app";
  source = "installed";
  state = running;
  phase = "starting";
  attempts = 1;
  cancel_requested = false;
  error_code = "";
  error_message = "";
  failure_reason = "";
  cleanup_error = "";
  pending_state = unset;
  installed = false;
  replaced = false;
  uninstalled = false;
  current = 0;
  total = 0;
  bytes = 0;
  sha256 = "";
  bundle_id = [];
  version = [];
  created_at = 10;
  updated_at = 10;
  available_at = 10;
  expires_at = none;
  artifact_expired = false;
}

abbrev a_world : World
a_world = record {
  disk = record {
    db = record {
      jobs = a_job ∷ [];
      device = record { owner = an_id; quarantined = false; reason = "" };
      operations = [];
    };
    now = 100;
    fails = λ _. false;
    done = 0;
  };
  files = record {
    work = [];
    outputs = [];
    inputs = [];
    artifacts = [];
    tmp = [];
    fails = λ _. false;
    done = 0;
  };
  step = 0;
}

-- The engine fails for good, and the job's cancellation comes at once.
abbrev an_env : Env
an_env = record {
  others = λ n. (n, cancels an_id) ∷ [];
  time = λ n. n;
  expired = λ _. false;
  monitored = none;
  decrypts = λ n r. record { reply = no_reply; fault = none; output = true; temporary = [] };
  is_cleaner = false;
  cleans = λ n id. record { late = false; failed = false; confirmed = true; uninstalled = false };
  archive = λ _. none;
  lower = λ s. s;
  verifies = λ _. true;
  digest = λ _. (5, "00");
  max_attempts = 2;
  retention = 1000;
}

a_world-Distinct : Distinct a_world.disk.db.jobs
a_world-Distinct = (tt, tt)

run_ends : (run_job an_env a_job a_world).0 ≡ ok tt
unfolding run_job job_body decrypt_job finish conclude review_device drop_artifact clear_files
    settle expire expire_each cleanup_device attempt_loop after_attempt decrypt check_monitor
    outcome by_fault publication ◌>>=◌ pure fail attempt call file require ask workspace remove
    cleanup_temp cleanup_entries valid_id all_of contains without run exec cancel change metadata
    begin_cleanup release quarantine get all first_job update_jobs update_device set_fields
    set_field statement transaction read write clock refuse find update_row terminal can_transition
    is_due safe_message Tx.◌>>=◌ Tx.pure Tx.fail request awaits_review is_hex at_deadline
run_ends = refl

run_job-Over_example : Over an_id (run_job an_env a_job a_world).1.disk.db
run_job-Over_example = run_job-Over an_env a_job a_world (λ n. (tt, tt)) a_world-Distinct run_ends

run_job-Course_example :
    Course IsBeside an_id (2 - 1) a_world.disk.db (run_job an_env a_job a_world).1.disk.db
run_job-Course_example = run_job-Course IsBeside an_env (λ n. (tt, tt)) a_job a_world

-- The job waits in the queue, for a device that is free.
abbrev a_queue : World
a_queue = record a_world {
  disk = record a_world.disk {
    db = record a_world.disk.db {
      jobs = record a_job { state = queued } ∷ [];
      device = record { owner = ""; quarantined = false; reason = "" };
    };
  };
}

serves : (serve an_env (λ _. false) 2 a_queue).0 ≡ ok true
unfolding serve round dispatch claim claim_tx oldest is_claimable run_job job_body decrypt_job
    finish conclude review_device drop_artifact clear_files settle expire expire_each cleanup_device
    attempt_loop after_attempt decrypt check_monitor outcome by_fault publication ◌>>=◌ pure fail
    attempt call file require ask workspace remove cleanup_temp cleanup_entries valid_id all_of
    contains without run exec cancel change metadata begin_cleanup release quarantine get all
    first_job update_jobs update_device set_fields set_field statement transaction read write clock
    refuse find update_row terminal can_transition is_due safe_message Tx.◌>>=◌ Tx.pure Tx.fail
    request awaits_review is_hex at_deadline
serves = refl

serve-AreIdle_example : AreIdle (serve an_env (λ _. false) 2 a_queue).1.disk.db.jobs
unfolding awaits_review terminal
serve-AreIdle_example =
    serve-AreIdle an_env (λ n. (tt, tt)) (λ _. false) 2 true a_queue (tt, tt) (refl, tt) serves

-- The process stopped in the middle of the job, which left its workspace and a temporary file.
abbrev a_crash : World
a_crash = record a_world {
  files = record a_world.files {
    work = an_id ∷ [];
    artifacts = an_id ∷ [];
    tmp = record { name = "ipadecrypt-patched-17.ipa"; is_directory = false } ∷ [];
  };
}

recovery_ends : (recover_service an_env a_crash).0 ≡ ok tt
unfolding recover_service recover_files reconcile reconcile_entries read_dir resolve_each expire
    expire_each cleanup_device ◌>>=◌ pure fail attempt call file require ask remove cleanup_temp
    cleanup_entries allowed digits_then_ipa same valid_id is_hex all_of without run exec cancel
    recover recover_each recover_device interrupted select is_active all first_job update_jobs
    update_device statement transaction read write clock refuse find update_row terminal is_due
    Tx.◌>>=◌ Tx.pure Tx.fail awaits_review keeps_entry
recovery_ends = refl

recover-Restored_example :
    Restored (recovered_jobs an_env a_crash) (recover_service an_env a_crash).1.files
recover-Restored_example = recover-Restored an_env a_crash recovery_ends

-- A text that ends within a rune
abbrev a_text : List ℕ
a_text = 65 ∷ 195 ∷ 164 ∷ 255 ∷ 226 ∷ 130 ∷ 172 ∷ 240 ∷ []

cut_text : bounded_metadata a_text 4 ≡ 65 ∷ 195 ∷ 164 ∷ []
unfolding bounded_metadata to_valid_from longest_valid is_valid_from rune_size first_info continued
cut_text = refl

bounded_metadata-valid_example :
    (is_valid (bounded_metadata a_text 4) ≡ true) × (length (bounded_metadata a_text 4) ≤ 4)
bounded_metadata-valid_example = bounded_metadata-valid a_text 4

finish_ends : (finish an_env a_job failed "timeout" false a_crash).0 ≡ ok tt
unfolding finish conclude review_device drop_artifact clear_files settle expire expire_each ◌>>=◌
    pure fail call file require ask remove cleanup_temp cleanup_entries allowed digits_then_ipa same
    valid_id is_hex all_of without run exec cancel change begin_cleanup get all first_job
    update_jobs set_fields set_field statement transaction read write clock refuse find update_row
    terminal can_transition is_due safe_message Tx.◌>>=◌ Tx.pure Tx.fail
finish_ends = refl

finish-Cleared_example :
    (s : State) × ((begins an_env a_job failed "timeout" a_crash).0 ≡ ok s)
    × (Cleared an_id s (finish an_env a_job failed "timeout" false a_crash).1.files
        ⊎ ((finish an_env a_job failed "timeout" false a_crash).1.disk.db.device.quarantined
            ≡ true))
finish-Cleared_example = finish-Cleared an_env a_job failed "timeout" false a_crash finish_ends
