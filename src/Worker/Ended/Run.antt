-- ===== src/Worker/Ended/Run.antt =====
-- The run of a claimed job ends it (internal/worker/worker.go, `Run`).
use ipa_now.Common.{ℕ, String, ◌≡◌, refl, false}
use ipa_now.Jobs.Model.{cancelled, Job, Db}
use ipa_now.Jobs.Tx.{Result, ok, err, Done}
use ipa_now.Jobs.Cleanup.{release}
use ipa_now.Jobs.Evolve.Table.{Evolves, find-Evolves}
use ipa_now.Jobs.Evolve.Rows.{Distinct}
use ipa_now.Worker.World.{Env, World, Work, ◌>>=◌, before, call}
use ipa_now.Worker.Finish.{finish}
use ipa_now.Worker.Run.{decrypt_job, job_body, run_job, join}
use ipa_now.Worker.Alive.{Alive}
use ipa_now.Worker.Alive.Parts.{get-Keeps}
use ipa_now.Worker.Alive.{call-Alive, file-Alive, require-Alive, ask-Alive}
use ipa_now.Worker.Alive.Serve.{attempt_loop-Alive, publication-Alive, check_monitor-Alive}
use ipa_now.Jobs.Evolve.QueueCalls.{metadata-Keeps}
use ipa_now.Worker.Ended.{Stays, AreBeside, run-Ends, release-Stayed}
use ipa_now.Worker.Ended.Rules.{Yields, Yields-ok, bind-Yields, any-Yields, if-Yields}
use ipa_now.Worker.Ended.Conclusion.{Over, finish-Over}

module _ {A B : Type 0} where
  -- A part that comes before the cleanup.
  Distinct-then :
      (Q : B → World → Type 0) (m : Work A) (k : A → Work B) (w : World)
      → Alive m
      → Distinct w.disk.db.jobs
      → ((a : A) (v : World) → Distinct v.disk.db.jobs → Yields Q (k a v))
      → Yields Q ((m >>= k) w)
  unfolding Alive
  Distinct-then Q m k w live u h =
      bind-Yields Q (λ _ v. Distinct v.disk.db.jobs) m k w
        (any-Yields (λ v. Distinct v.disk.db.jobs) (m w) (live w u).1) h

decrypt_job-Over :
    (env : Env) (j : Job) (w : World)
    → Distinct w.disk.db.jobs
    → Yields (λ _ v. Over j.id v.disk.db) (decrypt_job env j w)
unfolding decrypt_job
decrypt_job-Over env j w u = Distinct-then _ _ _ w (file-Alive _) u λ made w1 u1.
    Distinct-then _ _ _ w1 (require-Alive made) u1 λ _ w2 u2.
      Distinct-then _ _ _ w2 (attempt_loop-Alive env _ _ _) u2 λ tried w3 u3.
        Distinct-then _ _ _ w3 (check_monitor-Alive _) u3 λ _ w4 u4.
          Distinct-then _ _ _ w4 (call-Alive env _ (get-Keeps j.id)) u4 λ current w5 u5.
            Distinct-then _ _ _ w5 (ask-Alive _) u5 λ expired w6 u6.
              Distinct-then _ _ _ w6 (call-Alive env _ (metadata-Keeps j.id _)) u6 λ _ w7 u7.
                Distinct-then _ _ _ w7 (publication-Alive env j _ _) u7 λ o w8 u8.
                  Distinct-then _ _ _ w8 (ask-Alive _) u8
                    λ late w9 u9. finish-Over env j _ _ _ w9 u9

job_body-Over :
    (env : Env) (j : Job) (w : World)
    → Distinct w.disk.db.jobs
    → Yields (λ _ v. Over j.id v.disk.db) (job_body env j w)
unfolding job_body
job_body-Over env j w u =
    if-Yields _ j.cancel_requested (finish env j cancelled "" false) (decrypt_job env j) w
      (λ _. finish-Over env j cancelled "" false w u) λ _. decrypt_job-Over env j w u

join-ok : (r s : Result Done) → join r s ≡ ok tt → r ≡ ok tt
join-ok (ok a) s h = refl
join-ok (err e) s h = cc

Over-Stays : (id : String) (a b : Db) → Evolves Stays a.jobs b.jobs → Over id a → Over id b
Over-Stays id a b e (j, there, over) =
    let (k, there', stays) = find-Evolves Stays (λ x y g. g.same_id) id a.jobs b.jobs j e there in
    (k, there', stays.still over)

-- If the run of a job succeeds then, whatever the callers beside it did meanwhile, the job is completed,
-- failed or cancelled, or it waits for a review of its cleanup.
pub run_job-Over :
    (env : Env) (j : Job) (w : World)
    → ((n : ℕ) → AreBeside (env.others n))
    → Distinct w.disk.db.jobs
    → (run_job env j w).0 ≡ ok tt
    → Over j.id (run_job env j w).1.disk.db
unfolding run_job call
run_job-Over env j w beside u h =
    let v = (job_body env j w).1 in
    let over : Over j.id v.disk.db =
      Yields-ok _ (job_body env j w) tt (job_body-Over env j w u) (join-ok _ _ h) in
    Over-Stays j.id (before env v).db (release j.id (before env v)).1.db
      (release-Stayed j.id (before env v))
      (Over-Stays j.id v.disk.db (before env v).db
        (run-Ends v.disk (env.others v.step) (beside v.step)) over)
