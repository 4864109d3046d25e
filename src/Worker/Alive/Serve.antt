-- ===== src/Worker/Alive/Serve.antt =====
-- The run of a job lets the jobs only move forward.
use ipa_now.Common.{ℕ, zero, suc, String, Bool, Option, none, some}
use ipa_now.Jobs.Model.{Job}
use ipa_now.Jobs.Tx.{Error, Result, ok, err, Done}
use ipa_now.Jobs.Evolve.QueueCalls.{change-Keeps, metadata-Keeps, retry-Keeps}
use ipa_now.Jobs.Evolve.CleanupCalls.{release-Keeps}
use ipa_now.Jobs.Cleanup.{release}
use ipa_now.Worker.World.{call, Request, Reply, failure, other, Env, Work}
use ipa_now.Worker.Attempts.{Tried, decrypt, after_wait, between, after_attempt, attempt_loop}
use ipa_now.Worker.Run.{
  Outcome, verify_output, publish_output, publication, check_monitor, decrypt_job, job_body,
  run_job,
}
use ipa_now.Worker.Alive.{
  Lives-trans, Lives-refl, Alive, bind-Alive, attempt-Alive, pure-Alive, fail-Alive, ask-Alive,
  if-Alive, call-Alive, file-Alive, require-Alive,
}
use ipa_now.Worker.Alive.Parts.{get-Keeps, cleanup_device-Alive, finish-Alive}

decrypt-Alive : (env : Env) (r : Request) → Alive (decrypt env r)
unfolding Alive decrypt
decrypt-Alive env r w = Lives-refl w

between-Alive : (env : Env) (id : String) (b : Bool) → Alive (between env id b)
unfolding between
between-Alive env id b = if-Alive _ _ _ (cleanup_device-Alive env id) (pure-Alive _)

after_wait-Alive :
    (env : Env) (t : Tried) (again : Tried → Work Tried) (r : Result Done)
    → ((u : Tried) → Alive (again u))
    → Alive (after_wait env t again r)
unfolding after_wait
after_wait-Alive env (reply, fault) again (err e) h = pure-Alive _
after_wait-Alive env (reply, fault) again (ok a) h = bind-Alive _ _ (ask-Alive _) λ interrupted.
    if-Alive _ _ _ (pure-Alive _)
      (bind-Alive _ _ (ask-Alive _) λ late. if-Alive _ _ _ (pure-Alive _) (h _))

after_attempt-Alive :
    (env : Env) (id : String) (last expired : Bool) (again : Tried → Work Tried) (t : Tried)
    → ((u : Tried) → Alive (again u))
    → Alive (after_attempt env id last expired again t)
unfolding after_attempt
after_attempt-Alive env id last expired again (reply, none) h = pure-Alive _
after_attempt-Alive env id last expired again (reply, some other) h = pure-Alive _
after_attempt-Alive env id last expired again (reply, some (failure code retryable review)) h =
    if-Alive _ _ _ (pure-Alive _) (
      bind-Alive _ _ (between-Alive env id _) λ clean.
        if-Alive _ _ _
          (attempt-Alive _ _ (call-Alive env _ (retry-Keeps id))
            λ r. after_wait-Alive env _ again r h)
          (pure-Alive _))

pub attempt_loop-Alive :
    (env : Env) (r : Request) (n : ℕ) (t : Tried) → Alive (attempt_loop env r n t)
unfolding attempt_loop
attempt_loop-Alive env r zero t = pure-Alive _
attempt_loop-Alive env r (suc n) t = bind-Alive _ _ (decrypt-Alive env r) λ tried.
    bind-Alive _ _ (ask-Alive _)
      λ expired. after_attempt-Alive env r.id _ expired _ tried (attempt_loop-Alive env r n)

verify_output-Alive : (env : Env) → Alive (verify_output env)
unfolding verify_output
verify_output-Alive env =
    bind-Alive _ _ (ask-Alive _) λ a. if-Alive _ _ _ (ask-Alive _) (pure-Alive _)

publish_output-Alive : (env : Env) (j : Job) (r : Reply) → Alive (publish_output env j r)
unfolding publish_output
publish_output-Alive env j r = bind-Alive _ _ (call-Alive env _ (change-Keeps _ _ _)) λ _.
    bind-Alive _ _ (verify_output-Alive env) λ good. if-Alive _ _ _ (pure-Alive _) (
      bind-Alive _ _ (file-Alive _) λ moved. if-Alive _ _ _ (pure-Alive _) (
        bind-Alive _ _ (ask-Alive _) λ sh.
          bind-Alive _ _ (ask-Alive _)
            λ now. bind-Alive _ _ (call-Alive env _ (metadata-Keeps _ _)) λ _. pure-Alive _))

pub publication-Alive :
    (env : Env) (j : Job) (r : Reply) (o : Outcome) → Alive (publication env j r o)
unfolding publication
publication-Alive env j r o =
    if-Alive _ _ _ (bind-Alive _ _ (publish_output-Alive env j r) λ code. pure-Alive _)
      (pure-Alive _)

pub check_monitor-Alive : (o : Option Error) → Alive (check_monitor o)
unfolding check_monitor
check_monitor-Alive none = pure-Alive _
check_monitor-Alive (some e) = fail-Alive _ _

decrypt_job-Alive : (env : Env) (j : Job) → Alive (decrypt_job env j)
unfolding decrypt_job
decrypt_job-Alive env j = bind-Alive _ _ (file-Alive _) λ made.
    bind-Alive _ _ (require-Alive _) λ _. bind-Alive _ _ (attempt_loop-Alive env _ _ _) λ tried.
      bind-Alive _ _ (check_monitor-Alive _) λ _.
        bind-Alive _ _ (call-Alive env _ (get-Keeps _)) λ current.
          bind-Alive _ _ (ask-Alive _) λ expired.
            bind-Alive _ _ (call-Alive env _ (metadata-Keeps _ _)) λ _.
              bind-Alive _ _ (publication-Alive env j _ _)
                λ o. bind-Alive _ _ (ask-Alive _) λ late. finish-Alive env j _ _ _

pub job_body-Alive : (env : Env) (j : Job) → Alive (job_body env j)
unfolding job_body
job_body-Alive env j = if-Alive _ _ _ (finish-Alive env j _ _ _) (decrypt_job-Alive env j)

pub run_job-Alive : (env : Env) (j : Job) → Alive (run_job env j)
unfolding Alive run_job
run_job-Alive env j w =
    Lives-trans w (job_body env j w).1 (call env (release j.id) (job_body env j w).1).1
      (job_body-Alive env j w) (call-Alive env (release j.id) (release-Keeps j.id) _)
