-- ===== src/Worker/Finish.antt =====
-- How the run of a job ends, and the retention of artifacts (internal/worker/worker.go).
use ipa_now.Common.{
  ℕ, String, Bool, true, false, not, ◌&&◌, ◌==◌, none, some, List, [], ◌∷◌, ltb, if◌then◌else◌,
}
use ipa_now.Jobs.Model.{
  State, unset, queued, running, verifying, cleaning, completed, failed, cancelled, state_eq, Job,
}
use ipa_now.Jobs.Tx.{Done}
use ipa_now.Jobs.Rows.{
  all, get, Field, phase, artifact_expired, pending_state, error_code, error_message,
}
use ipa_now.Jobs.Queue.{change, metadata}
use ipa_now.Jobs.Cleanup.{begin_cleanup, quarantine}
use ipa_now.Storage.{remove, work, inputs, artifacts}
use ipa_now.Storage.Temp.{cleanup_temp}
use ipa_now.Worker.World.{Env, Work, ◌>>=◌, ◌>>◌, pure, call, file, require, ask}
use ipa_now.Worker.Device.{safe_message, cleanup_device}

unfoldable pub expiry_fields : Job → List Field
expiry_fields j =
    artifact_expired true
    ∷ (if state_eq j.state cleaning
        then pending_state failed
          ∷ error_code "artifact_expired"
          ∷ error_message "Artifact retention elapsed during cleanup review."
          ∷ []
        else [])

unfoldable pub is_due : Job → ℕ → Bool
is_due j now = elim j.expires_at [
  | none ↦ false
  | some t ↦ not j.artifact_expired && not (ltb now t)
]

unfoldable pub expire_each : Env → List Job → Work Done
expire_each env [] = pure tt
expire_each env (j ∷ js) =
    let rest = expire_each env js in
    ask env.time >>= λ now.
    (if is_due j now
      then (file (remove artifacts j.id)
          >>= require
          >> call env (metadata j.id (expiry_fields j))
          >> rest)
      else rest)

unfoldable pub expire : Env → Work Done
expire env = call env all >>= expire_each env

-- `Remove("work")`, `Remove("inputs")` and `CleanupTemp`, each of them whatever the others do
unfoldable pub clear_files : String → Work Bool
clear_files id = do
  a ← file (remove work id)
  b ← file (remove inputs id)
  c ← file cleanup_temp
  pure (a && b && c)

abbrev pub state_name : State → String
state_name unset = ""
state_name queued = "queued"
state_name running = "running"
state_name verifying = "verifying"
state_name cleaning = "cleaning"
state_name completed = "completed"
state_name failed = "failed"
state_name cancelled = "cancelled"

abbrev pub server_reason : String
server_reason =
    "Server cleanup failed. Resolve filesystem access and restart before confirming cleanup."

abbrev pub device_reason : String
device_reason =
    "Device cleanup could not be confirmed automatically. Inspect job-owned staging, helper files, and installed/replaced apps; confirm cleanup before continuing."

-- The end of `finish`, once the files and the device are clean: the state that was saved by
-- `BeginCleanup`, or by an expiry since, becomes the job's.
unfoldable pub settle : Env → String → Work Done
settle env id = do
  expire env
  current ← call env (get id)
  call env (change id current.pending_state (phase (state_name current.pending_state) ∷ []))

-- A failed run keeps no artifact.
unfoldable pub drop_artifact : String → State → Bool → Work Bool
drop_artifact id desired cleared =
    if state_eq desired completed
    then pure cleared
    else (file (remove artifacts id) >>= λ removed. pure (cleared && removed))

unfoldable pub review_device : Env → String → Bool → Work Bool
review_device env id review =
    if review then (cleanup_device env id >>= λ clean. pure (not clean)) else pure false

unfoldable pub conclude : Env → String → State → Bool → Bool → Work Done
conclude env id desired cleared review =
    if not cleared
    then call env (quarantine id server_reason desired)
    else if review
    then call env (quarantine id device_reason desired)
    else settle env id

unfoldable pub finish : Env → Job → State → String → Bool → Work Done
finish env j wanted code review = do
  desired ← call env (begin_cleanup j.id wanted code (if code == "" then "" else safe_message code))
  files ← clear_files j.id
  cleared ← drop_artifact j.id desired files
  unclean ← review_device env j.id review
  conclude env j.id desired cleared unclean
