-- ===== src/Jobs/Cleanup.antt =====
-- The end of a job: cleanup, quarantine, review and recovery (internal/jobs/store.go).
use ipa_now.Common.{
  String, Bool, true, false, not, ◌||◌, List, [], ◌∷◌, ◌==◌, ltb, if◌then◌else◌, count,
}
use ipa_now.Jobs.Model.{
  State, unset, cleaning, failed, cancelled, state_eq, terminal, can_transition, Job, Device,
}
use ipa_now.Jobs.Tx.{ok, conflict, Tx, Done, ◌>>=◌, ◌>>◌, pure, refuse, transaction, read}
use ipa_now.Jobs.Rows.{
  is_active, awaits_review, has_id, first_job, update_jobs, update_device, select,
}

unfoldable pub release : String → Tx Done
release id = update_device λ d. record d { owner = if d.owner == id then "" else d.owner }

unfoldable pub quarantine : String → String → State → Tx Done
quarantine id reason desired = transaction do
  update_jobs (has_id id) λ j. record j { cleanup_error = reason; pending_state = desired }
  update_device λ _. record { owner = ""; quarantined = true; reason = reason }

-- The quarantine ends with the last review.
unfoldable pub clear_quarantine : Bool → Tx Done
clear_quarantine true = pure tt
clear_quarantine false = update_device λ _. record { owner = ""; quarantined = false; reason = "" }

-- `resolve`, which `Resolve` and `ResolveAutomatic` call
unfoldable pub resolve_as : String → String → Tx Done
unfolding terminal awaits_review clear_quarantine
resolve_as id label = transaction do
  j ← first_job id
  refuse
      (not (state_eq j.state cleaning) || (j.cleanup_error == "") || not (terminal j.pending_state))
      conflict
  update_jobs (has_id j.id) λ k. record k {
    cleanup_error = "";
    state = j.pending_state;
    pending_state = unset;
    phase = label;
  }
  n ← read λ db. ok (count awaits_review db.jobs)
  clear_quarantine (ltb 0 n)

unfoldable pub resolve : String → Tx Done
unfolding resolve_as
resolve id = resolve_as id "operator-confirmed cleanup"

unfoldable pub resolve_automatic : String → Tx Done
unfolding resolve_as
resolve_automatic id = resolve_as id "automatically confirmed cleanup"

abbrev pub interruption : String
interruption = "Interrupted job: automatic cleanup recovery is required."

-- The update of the row `k` that `Recover` makes for a job that it read as `j`.
unfoldable pub interrupted : Job → Job → Job
unfolding terminal
interrupted j k =
    if not (state_eq j.state cleaning) || not (terminal j.pending_state)
    then record k {
      state = cleaning;
      cleanup_error = interruption;
      pending_state = if j.cancel_requested then cancelled else failed;
      error_code = "interrupted";
      error_message = "The service stopped before cleanup was confirmed.";
      failure_reason = "process-recovery";
    }
    else record k { state = cleaning; cleanup_error = interruption }

-- The loop over the active jobs; the first test is the `continue`.
unfoldable pub recover_each : List Job → Tx Done
unfolding awaits_review
recover_each [] = pure tt
recover_each (j ∷ js) =
    let rest = recover_each js in
    if awaits_review j then rest else (update_jobs (has_id j.id) (interrupted j) >> rest)

-- The device after the loop: `len(active) > 0`
unfoldable pub recover_device : List Job → Device → Device
recover_device [] d = record d { owner = "" }
recover_device (_ ∷ _) d = record {
  owner = "";
  quarantined = true;
  reason = "Interrupted or unconfirmed cleanup requires operator review.";
}

unfoldable pub recover : Tx Done
unfolding is_active select recover_each recover_device
recover = transaction do
  active ← read λ db. ok (select is_active db.jobs)
  recover_each active
  update_device (recover_device active)

-- What `BeginCleanup` writes to the row.
abbrev pub cleaned : State → String → String → Job → Job
cleaned desired code message k = record k {
  state = cleaning;
  phase = "cleaning";
  pending_state = desired;
  error_code = code;
  error_message = message;
  failure_reason = code;
}

-- Cancellation that is accepted before this transaction wins. The source's `BeginCleanup` returns
-- its `desired` beside the error; every caller drops it then.
unfoldable pub begin_cleanup : String → State → String → String → Tx State
unfolding can_transition
begin_cleanup id desired code message = transaction do
  j ← first_job id
  refuse (not (can_transition j.state cleaning)) conflict
  let desired' = if j.cancel_requested then cancelled else desired
  let code' = if j.cancel_requested then "cancelled" else code
  let message' = if j.cancel_requested then "The job was cancelled." else message
  update_jobs (has_id j.id) (cleaned desired' code' message')
  pure desired'
