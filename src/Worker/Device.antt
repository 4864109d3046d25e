-- ===== src/Worker/Device.antt =====
-- What the worker asks of the device at the end of a job, and what it tells the user
-- (internal/worker/worker.go).
use ipa_now.Common.{String, Bool, true, false, not, ◌||◌, ◌==◌, [], ◌∷◌, if◌then◌else◌}
use ipa_now.Jobs.Tx.{Result, ok, err, Done}
use ipa_now.Jobs.Rows.{uninstalled}
use ipa_now.Jobs.Queue.{metadata}
use ipa_now.Worker.World.{Env, Work, ◌>>=◌, pure, attempt, call, ask}

unfoldable pub safe_message : String → String
safe_message code =
    if code == "verification_failed"
    then "The output did not pass IPA verification."
    else if code == "device_locked"
    then "The device could not be unlocked. Check RemoteCompanion and the configured unlock PIN, or unlock it manually."
    else if code == "device_unavailable"
    then "The configured device could not be reached."
    else if (code == "authentication_failed") || (code == "account_unavailable")
    then "Apple account authentication needs operator attention."
    else if code == "cancelled"
    then "The job was cancelled."
    else if code == "timeout"
    then "The job exceeded its execution deadline."
    else if code == "storage_failed"
    then "The artifact could not be stored."
    else "The job could not be completed. Inspect the device before retrying."

abbrev pub succeeded : Result Done → Work Bool
succeeded (ok _) = pure true
succeeded (err _) = pure false

-- Whether the device is known to be clean. An uninstallation that cannot be saved is not.
unfoldable pub cleanup_device : Env → String → Work Bool
cleanup_device env id = if not env.is_cleaner then pure false else (do
  result ← ask λ n. env.cleans n id
  if result.late || result.failed || not result.confirmed
      then pure false
      else if result.uninstalled
      then attempt succeeded (call env (metadata id (uninstalled true ∷ [])))
      else pure true)
