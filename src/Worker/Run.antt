-- ===== src/Worker/Run.antt =====
-- The run of a claimed job (internal/worker/worker.go).
use ipa_now.Common.{
  ◌+◌, ◌*◌, ◌^◌, String, Bool, true, false, not, ◌||◌, ◌==◌, Option, none, some, List, [], ◌∷◌,
  if◌then◌else◌,
}
use ipa_now.Jobs.Model.{State, verifying, completed, failed, cancelled, state_eq, Job}
use ipa_now.Jobs.Tx.{Error, Result, ok, err, Done}
use ipa_now.Jobs.Rows.{
  get, Field, installed, replaced, uninstalled, bytes, sha256, bundle_id, version, expires_at,
}
use ipa_now.Jobs.Queue.{change, metadata}
use ipa_now.Jobs.Cleanup.{release}
use ipa_now.Storage.{workspace, publish}
use ipa_now.Storage.Ids.{valid_id}
use ipa_now.Storage.Ipa.{validate_ipa}
use ipa_now.Worker.World.{
  Request, Reply, failure, other, Env, Work, ◌>>=◌, ◌>>◌, pure, fail, call, file, require, ask,
}
use ipa_now.Worker.Finish.{finish}
use ipa_now.Worker.Metadata.{bounded_metadata}
use ipa_now.Worker.Attempts.{Tried, no_reply, attempt_loop}

-- The target of an upload is its file among the inputs, which the ID names.
unfoldable pub request : Job → Request
request j = record {
  id = j.id;
  target = if j.source == "upload" then (if valid_id j.id then j.id else "") else j.target;
  source = if j.source == "upload" then "auto" else j.source;
}

pub record Outcome : Type 0 where
  pub desired : State
  pub code : String
  pub review : Bool

-- What the attempts say
unfoldable pub by_fault : Tried → Outcome
by_fault (reply, none) = record { desired = completed; code = ""; review = reply.needs_review }
by_fault (reply, some other) = record {
  desired = failed;
  code = "decryption_failed";
  review = true;
}
by_fault (reply, some (failure code retryable review)) = record {
  desired = failed;
  code = code;
  review = reply.needs_review || review;
}

-- and what a cancellation or the deadline make of it
unfoldable pub outcome : Tried → (cancel_requested expired : Bool) → Outcome
unfolding by_fault
outcome tried cancel_requested expired =
    if cancel_requested
    then record (by_fault tried) { desired = cancelled; code = "cancelled" }
    else if expired
    then record (by_fault tried) { desired = failed; code = "timeout" }
    else by_fault tried

abbrev pub device_fields : Reply → List Field
device_fields r = installed r.installed ∷ replaced r.replaced ∷ uninstalled r.uninstalled ∷ []

-- `ValidateIPA(output, 32<<30)`, and then the engine's `Verify`
unfoldable pub verify_output : Env → Work Bool
verify_output env = ask env.archive >>= λ archive.
    if validate_ipa env.lower (32 * 2 ^ 30) archive then ask env.verifies else pure false

-- The error code, if the output is not published.
unfoldable pub publish_output : Env → Job → Reply → Work String
publish_output env j reply = do
  call env (change j.id verifying [])
  good ← verify_output env
  if not good then pure "verification_failed" else (do
    moved ← file (publish j.id)
    if not moved then pure "storage_failed" else (do
      (size, hash) ← ask env.digest
      now ← ask env.time
      call env (
          metadata j.id (
            bytes size
            ∷ sha256 hash
            ∷ bundle_id (bounded_metadata reply.bundle_id 255)
            ∷ version (bounded_metadata reply.version 64)
            ∷ expires_at (now + env.retention)
            ∷ device_fields reply))
      pure ""))

-- The outcome after the publication, if there is one
unfoldable pub publication : Env → Job → Reply → Outcome → Work Outcome
publication env j reply o =
    if state_eq o.desired completed
    then (publish_output env j reply >>= λ code.
        pure (if code == "" then o else record o { desired = failed; code = code }))
    else pure o

-- The context is looked at once more at the end.
unfoldable pub at_deadline : Bool → Outcome → Outcome
at_deadline expired o = if expired then record o { desired = failed; code = "timeout" } else o

-- `monitorErr`, after the monitor has ended
unfoldable pub check_monitor : Option Error → Work Done
check_monitor none = pure tt
check_monitor (some e) = fail e

unfoldable pub decrypt_job : Env → Job → Work Done
decrypt_job env j = do
  made ← file (workspace j.id)
  require made
  (reply, fault) ← attempt_loop env (request j) env.max_attempts (no_reply, none)
  check_monitor env.monitored
  current ← call env (get j.id)
  expired ← ask env.expired
  let o = outcome (reply, fault) current.cancel_requested expired
  call env (metadata j.id (device_fields reply))
  o' ← publication env j reply o
  late ← ask env.expired
  let o'' = at_deadline late o'
  finish env j o''.desired o''.code o''.review

unfoldable pub job_body : Env → Job → Work Done
job_body env j = if j.cancel_requested then finish env j cancelled "" false else decrypt_job env j

-- `errors.Join`
abbrev pub join : Result Done → Result Done → Result Done
join (ok _) r = r
join (err e) r = err e

-- The device is released last, whatever the body returned.
unfoldable pub run_job : Env → Job → Work Done
run_job env j w =
    let (r, w') = job_body env j w in let (s, w'') = call env (release j.id) w' in (join r s, w'')
