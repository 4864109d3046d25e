-- ===== src/Worker/Startup.antt =====
-- The recovery at a start and the review by an operator (internal/worker/worker.go).
use ipa_now.Common.{
  suc, String, Bool, false, not, ◌&&◌, ◌||◌, Option, none, some, List, [], ◌∷◌, if◌then◌else◌, find,
}
use ipa_now.Jobs.Model.{queued, cleaning, completed, state_eq, Job}
use ipa_now.Jobs.Tx.{conflict, storage, ok, err, Done}
use ipa_now.Jobs.Rows.{has_id, awaits_review, all, get}
use ipa_now.Jobs.Cleanup.{recover, resolve, resolve_automatic}
use ipa_now.Storage.{Kind, work, inputs, artifacts, entries, tick, remove}
use ipa_now.Storage.Ids.{valid_id}
use ipa_now.Storage.Temp.{cleanup_temp}
use ipa_now.Worker.World.{Env, Work, ◌>>=◌, ◌>>◌, pure, fail, call, file, require}
use ipa_now.Worker.Device.{cleanup_device}
use ipa_now.Worker.Finish.{expire, clear_files}

-- `os.ReadDir` of one of the three directories
unfoldable pub read_dir : Kind → Work (List String)
read_dir kind w =
    let f = w.files in
    (
      if f.fails f.done then err storage else ok (entries kind f),
      record w { files = tick f; step = suc w.step },
    )

-- The job in whose state its entry is kept.
unfoldable pub keeps_entry : Kind → Job → Bool
keeps_entry work j = false
keeps_entry inputs j = state_eq j.state queued
keeps_entry artifacts j =
    state_eq j.state completed || (state_eq j.state cleaning && state_eq j.pending_state completed)

abbrev pub keeps : Kind → Option Job → Bool
keeps kind none = false
keeps kind (some j) = keeps_entry kind j

unfoldable pub reconcile_entries : Kind → List Job → List String → Work Done
unfolding keeps_entry find
reconcile_entries kind jobs [] = pure tt
reconcile_entries kind jobs (id ∷ ids) =
    let rest = reconcile_entries kind jobs ids in
    if not (valid_id id)
    then fail storage
    else if keeps kind (find (has_id id) jobs)
    then rest
    else (file (remove kind id) >>= require >> rest)

unfoldable pub reconcile : Kind → List Job → Work Done
reconcile kind jobs = read_dir kind >>= reconcile_entries kind jobs

-- The jobs under review, as they were read before the files were reconciled
unfoldable pub resolve_each : Env → List Job → Work Done
unfolding awaits_review
resolve_each env [] = pure tt
resolve_each env (j ∷ js) =
    let rest = resolve_each env js in
    if awaits_review j
    then (cleanup_device env j.id >>= λ clean.
        if clean then (call env (resolve_automatic j.id) >> rest) else rest)
    else rest

unfoldable pub recover_files : Env → List Job → Work Done
recover_files env jobs = do
  reconcile work jobs
  reconcile inputs jobs
  reconcile artifacts jobs
  cleaned ← file cleanup_temp
  require cleaned

unfoldable pub recover_service : Env → Work Done
recover_service env = do
  call env recover
  jobs ← call env all
  recover_files env jobs
  expire env
  resolve_each env jobs

-- The operator's confirmation
unfoldable pub resolve_job : Env → String → Work Done
unfolding awaits_review
resolve_job env id = do
  j ← call env (get id)
  if not (awaits_review j)
      then fail conflict
      else (do cleared ← clear_files id; require cleared; expire env; call env (resolve id))
