-- ===== src/Worker/Attempts.antt =====
-- The attempts of a job at the engine (internal/worker/worker.go). How long the worker waits between
-- two attempts is not modelled: the wait ends by its timer or by the end of the job's context.
use ipa_now.Common.{
  ℕ, zero, suc, String, Bool, true, false, not, ◌||◌, Option, none, some, [], ◌∷◌, nat_eq,
  if◌then◌else◌,
}
use ipa_now.Jobs.Tx.{Result, ok, err, Done}
use ipa_now.Jobs.Queue.{retry}
use ipa_now.Storage.{Files, without}
use ipa_now.Worker.World.{
  Request, Reply, Fault, failure, other, Decryption, Env, Work, ◌>>=◌, pure, attempt, call, ask,
}
use ipa_now.Worker.Device.{cleanup_device}

-- `result` and `err` of the loop
abbrev pub Tried : Type 0
Tried = Reply × Option Fault

abbrev pub no_reply : Reply
no_reply = record {
  installed = false;
  replaced = false;
  uninstalled = false;
  needs_review = false;
  bundle_id = [];
  version = [];
}

-- The files after the engine has worked for the job.
abbrev pub worked : String → Decryption → Files → Files
worked id x f = record f {
  outputs = if x.output then id ∷ without id f.outputs else without id f.outputs;
  tmp = x.temporary;
}

unfoldable pub decrypt : Env → Request → Work Tried
unfolding without
decrypt env r w =
    let x = env.decrypts w.step r in
    (ok (x.reply, x.fault), record w { files = worked r.id x w.files; step = suc w.step })

-- After a retry is saved: the wait, and what the context says at its end.
unfoldable pub after_wait : Env → Tried → (Tried → Work Tried) → Result Done → Work Tried
after_wait env (reply, fault) again (err _) = pure (reply, some other)
after_wait env (reply, fault) again (ok _) = ask env.expired >>= λ interrupted.
    if interrupted
    then pure (reply, some other)
    else (ask env.expired >>= λ late. if late then pure (reply, fault) else again (reply, fault))

-- The device is cleaned between two attempts if the first may have left something on it.
unfoldable pub between : Env → String → Bool → Work Bool
between env id review = if review then cleanup_device env id else pure true

unfoldable pub after_attempt :
    Env → String → (last expired : Bool) → (Tried → Work Tried) → Tried → Work Tried
after_attempt env id last expired again (reply, none) = pure (reply, none)
after_attempt env id last expired again (reply, some other) = pure (reply, some other)
after_attempt env id last expired again (reply, some (failure code retryable review)) =
    let tried : Tried = (reply, some (failure code retryable review)) in
    if not retryable || last || expired
    then pure tried
    else (between env id (review || reply.needs_review) >>= λ clean.
        if clean then attempt (after_wait env tried again) (call env (retry id)) else pure tried)

-- By the attempts that are left; `MaxAttempts` that is 0 makes none.
unfoldable pub attempt_loop : Env → Request → ℕ → Tried → Work Tried
attempt_loop env r zero tried = pure tried
attempt_loop env r (suc n) _ =
    let again = attempt_loop env r n in
    decrypt env r >>= λ tried.
    (ask env.expired >>= λ expired. after_attempt env r.id (nat_eq n 0) expired again tried)
