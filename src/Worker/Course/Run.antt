-- ===== src/Worker/Course/Run.antt =====
-- The run of a job makes at most `MaxAttempts - 1` retries, and only its own calls.
use ipa_now.Common.{
  All, arith, ℕ, zero, suc, ◌+◌, ◌-◌, ◌≤◌, ◌≡◌, nat_eq, not, ◌||◌, true, false, String, Bool,
  Option, none, some, refl,
}
use ipa_now.Jobs.Model.{Job}
use ipa_now.Jobs.Tx.{Error, Result, ok, err, Done}
use ipa_now.Jobs.Queue.{retry}
use ipa_now.Jobs.Cleanup.{release}
use ipa_now.Jobs.Calls.{Call, retries, releases, exec}
use ipa_now.Worker.World.{call, Request, Reply, failure, other, Env, World, Work}
use ipa_now.Worker.Attempts.{Tried, decrypt, after_wait, between, after_attempt, attempt_loop}
use ipa_now.Worker.Run.{
  Outcome, request, verify_output, publish_output, publication, check_monitor, decrypt_job,
  job_body, run_job,
}
use ipa_now.Worker.Course.{
  Course, over, Course-mono, Course-trans, Costs, bind_both-Costs, bind-Costs, attempt-Costs,
  pure-Costs, fail-Costs, ask-Costs, if-Costs, if_false-Costs, file-Costs, require-Costs,
  exec-Costs,
}
use ipa_now.Worker.Course.Parts.{
  metadata-Costs, change-Costs, get-Costs, cleanup_device-Costs, finish-Costs,
}

module _ (Others : Call → Type 0) (id : String) (env : Env)
    (others : (n : ℕ) → All (λ x. Others x.1) (env.others n)) where
  decrypt-Costs : (r : Request) → Costs Others id 0 (decrypt env r)
  unfolding Costs decrypt
  decrypt-Costs r w = over 0 _

  between-Costs : (b : Bool) → Costs Others id 0 (between env id b)
  unfolding between
  between-Costs b =
      if-Costs Others id 0 _ _ _ (cleanup_device-Costs Others id env others)
        (pure-Costs Others id 0 _)

  retry-Costs : Costs Others id 1 (call env (retry id))
  unfolding exec
  retry-Costs = exec-Costs Others id env others (retries id) refl

  module _ (n : ℕ) (again : Tried → Work Tried)
      (h : (u : Tried) → Costs Others id n (again u)) where
    after_wait-Costs : (t : Tried) (r : Result Done) → Costs Others id n (after_wait env t again r)
    unfolding after_wait
    after_wait-Costs (reply, fault) (err e) = pure-Costs Others id n _
    after_wait-Costs (reply, fault) (ok a) =
        bind-Costs Others id n _ _ (ask-Costs Others id 0 _) λ interrupted.
          if-Costs Others id n _ _ _ (pure-Costs Others id n _) (
            bind-Costs Others id n _ _ (ask-Costs Others id 0 _)
              λ late. if-Costs Others id n _ _ _ (pure-Costs Others id n _) (h _))

    -- The last attempt is not tried again.
    after_attempt-Costs :
        (k : ℕ) (last expired : Bool) (t : Tried)
        → (last ≡ false → 1 + n ≤ k)
        → Costs Others id k (after_attempt env id last expired again t)
    unfolding after_attempt
    after_attempt-Costs k last expired (reply, none) le = pure-Costs Others id k _
    after_attempt-Costs k last expired (reply, some other) le = pure-Costs Others id k _
    after_attempt-Costs k last expired (reply, some (failure code retryable review)) le =
        if_false-Costs Others id k (not retryable || last || expired) _ _ (pure-Costs Others id k _)
          λ e. bind-Costs Others id k _ _ (between-Costs _) λ clean.
            if-Costs Others id k _ _ _
              (attempt-Costs Others id 1 n k (le (going_on retryable last expired e)) _ _
                retry-Costs (after_wait-Costs _))
              (pure-Costs Others id k _)
      where
        going_on : (a b c : Bool) → (not a || b || c) ≡ false → b ≡ false
        going_on a false c e = refl
        going_on true true c e = e
        going_on false true c e = e

module _ (Others : Call → Type 0) (env : Env)
    (others : (n : ℕ) → All (λ x. Others x.1) (env.others n)) where
  not_last : (n : ℕ) → nat_eq n 0 ≡ false → 1 + (n - 1) ≤ n
  not_last zero e = grind arith
  not_last (suc n) e = omega arith

  attempt_loop-Costs :
      (r : Request) (n : ℕ) (t : Tried) → Costs Others r.id (n - 1) (attempt_loop env r n t)
  unfolding attempt_loop Costs
  attempt_loop-Costs r zero t w = pure-Costs Others r.id _ _ w
  attempt_loop-Costs r (suc n) t w = Course-mono Others r.id n _ _ _ (omega arith) (
      (bind-Costs Others r.id n _ _ (decrypt-Costs Others r.id env others r) λ tried.
          bind-Costs Others r.id n _ _ (ask-Costs Others r.id 0 _) λ expired.
            after_attempt-Costs Others r.id env others (n - 1) _ (attempt_loop-Costs r n) n _
              expired tried (not_last n))
        w)

  module _ (j : Job) where
    verify_output-Costs : Costs Others j.id 0 (verify_output env)
    unfolding verify_output
    verify_output-Costs =
        bind-Costs Others j.id 0 _ _ (ask-Costs Others j.id 0 _)
          λ a. if-Costs Others j.id 0 _ _ _ (ask-Costs Others j.id 0 _) (pure-Costs Others j.id 0 _)

    publish_output-Costs : (r : Reply) → Costs Others j.id 0 (publish_output env j r)
    unfolding publish_output
    publish_output-Costs r =
        bind-Costs Others j.id 0 _ _ (change-Costs Others j.id env others _ _) λ _.
          bind-Costs Others j.id 0 _ _ verify_output-Costs λ good.
            if-Costs Others j.id 0 _ _ _ (pure-Costs Others j.id 0 _) (
              bind-Costs Others j.id 0 _ _ (file-Costs Others j.id _) λ moved.
                if-Costs Others j.id 0 _ _ _ (pure-Costs Others j.id 0 _) (
                  bind-Costs Others j.id 0 _ _ (ask-Costs Others j.id 0 _) λ sh.
                    bind-Costs Others j.id 0 _ _ (ask-Costs Others j.id 0 _) λ now.
                      bind-Costs Others j.id 0 _ _ (metadata-Costs Others j.id env others _)
                        λ _. pure-Costs Others j.id 0 _))

    publication-Costs : (r : Reply) (o : Outcome) → Costs Others j.id 0 (publication env j r o)
    unfolding publication
    publication-Costs r o =
        if-Costs Others j.id 0 _ _ _
          (bind-Costs Others j.id 0 _ _ (publish_output-Costs r) λ code. pure-Costs Others j.id 0 _)
          (pure-Costs Others j.id 0 _)

    check_monitor-Costs : (o : Option Error) → Costs Others j.id 0 (check_monitor o)
    unfolding check_monitor
    check_monitor-Costs none = pure-Costs Others j.id 0 _
    check_monitor-Costs (some e) = fail-Costs Others j.id Done 0 _

    -- After the attempts
    decrypt_job-Costs : Costs Others j.id (env.max_attempts - 1) (decrypt_job env j)
    unfolding decrypt_job request
    decrypt_job-Costs = bind-Costs Others j.id _ _ _ (file-Costs Others j.id _) λ made.
        bind-Costs Others j.id _ _ _ (require-Costs Others j.id _) λ _.
          bind_both-Costs Others j.id _ 0 _ (omega arith) _ _
            (attempt_loop-Costs (request j) env.max_attempts _)
            λ tried. bind-Costs Others j.id 0 _ _ (check_monitor-Costs _) λ _.
              bind-Costs Others j.id 0 _ _ (get-Costs Others j.id env others j.id) λ current.
                bind-Costs Others j.id 0 _ _ (ask-Costs Others j.id 0 _) λ expired.
                  bind-Costs Others j.id 0 _ _ (metadata-Costs Others j.id env others _) λ _.
                    bind-Costs Others j.id 0 _ _ (publication-Costs _ _) λ o.
                      bind-Costs Others j.id 0 _ _ (ask-Costs Others j.id 0 _)
                        λ late. finish-Costs Others j env others _ _ _

    job_body-Costs : Costs Others j.id (env.max_attempts - 1) (job_body env j)
    unfolding job_body Costs
    job_body-Costs =
        if-Costs Others j.id _ _ _ _
          (λ w.
            Course-mono Others j.id 0 _ _ _ (omega arith)
              (finish-Costs Others j env others _ _ _ w))
          decrypt_job-Costs

    release-Costs : Costs Others j.id 0 (call env (release j.id))
    unfolding exec
    release-Costs = exec-Costs Others j.id env others (releases j.id) refl

    -- Whatever the engine, the clock, the failures and the callers beside it are, the calls of the store
    -- between the tables before a run and those after it are calls of others, and the run's own: changes,
    -- metadata, the cleanup, retries and the release of its own job, at most `MaxAttempts - 1` of them
    -- retries, and the metadata of other jobs only as an expiry of artifacts writes them.
    pub run_job-Course :
        (w : World)
        → Course Others j.id (env.max_attempts - 1) w.disk.db (run_job env j w).1.disk.db
    unfolding run_job Costs
    run_job-Course w =
        Course-mono Others j.id (env.max_attempts - 1 + 0) _ _ _ (omega arith)
          (Course-trans Others j.id _ 0 _ _ _ (job_body-Costs w) (release-Costs _))
