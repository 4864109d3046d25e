-- ===== src/Worker/Course/Parts.antt =====
-- The end of a run and its expiry of artifacts make no retry, and only the calls of the run.
use ipa_now.Common.{
  All, arith, inl, inr, true, ◌≡◌, ℕ, not, String, refl, subst, Bool, List, [], ◌∷◌,
}
use ipa_now.Jobs.Model.{State, Job}
use ipa_now.Jobs.Tx.{Result, ok, err, Disk, Done}
use ipa_now.Jobs.Rows.{all, get, first_job, Field}
use ipa_now.Jobs.Queue.{metadata, change}
use ipa_now.Jobs.Cleanup.{quarantine, begin_cleanup}
use ipa_now.Jobs.Calls.{Call, changes, quarantines, writes_metadata, begins_cleanup, exec}
use ipa_now.Jobs.Evolve.History.{drop-db}
use ipa_now.Worker.World.{Env, call}
use ipa_now.Worker.Device.{succeeded, cleanup_device}
use ipa_now.Worker.Finish.{
  server_reason, device_reason, is_due, expiry_fields, expire_each, expire, clear_files, settle,
  drop_artifact, review_device, conclude, finish,
}
use ipa_now.Worker.Course.{
  Costs, bind-Costs, attempt-Costs, pure-Costs, ask-Costs, if-Costs, if_true-Costs, file-Costs,
  require-Costs, call-Costs, exec-Costs, read-Costs, Course, over, own,
}

module _ (Others : Call → Type 0) (id : String) (env : Env)
    (others : (n : ℕ) → All (λ x. Others x.1) (env.others n)) where
  pub metadata-Costs : (fields : List Field) → Costs Others id 0 (call env (metadata id fields))
  unfolding exec
  metadata-Costs fields = exec-Costs Others id env others (writes_metadata id fields) (inl refl)

  expiry-Costs :
      (j : Job) (now : ℕ)
      → is_due j now ≡ true
      → Costs Others id 0 (call env (metadata j.id (expiry_fields j)))
  unfolding exec
  expiry-Costs j now due =
      exec-Costs Others id env others (writes_metadata j.id (expiry_fields j))
        (inr (j, now, refl, due, refl))

  pub change-Costs :
      (to : State) (fields : List Field) → Costs Others id 0 (call env (change id to fields))
  unfolding exec
  change-Costs to fields = exec-Costs Others id env others (changes id to fields) refl

  pub get-Costs : (i : String) → Costs Others id 0 (call env (get i))
  unfolding get first_job
  get-Costs i = read-Costs Others id env others _

  succeeded-Costs : (r : Result Done) → Costs Others id 0 (succeeded r)
  succeeded-Costs (ok a) = pure-Costs Others id 0 _
  succeeded-Costs (err e) = pure-Costs Others id 0 _

  pub cleanup_device-Costs : Costs Others id 0 (cleanup_device env id)
  unfolding cleanup_device
  cleanup_device-Costs = if-Costs Others id 0 _ _ _ (pure-Costs Others id 0 _) (
      bind-Costs Others id 0 _ _ (ask-Costs Others id 0 _) λ result.
        if-Costs Others id 0 _ _ _ (pure-Costs Others id 0 _) (
          if-Costs Others id 0 _ _ _
            (attempt-Costs Others id 0 0 0 (omega arith) _ _ (metadata-Costs _) succeeded-Costs)
            (pure-Costs Others id 0 _)))

  expire_each-Costs : (js : List Job) → Costs Others id 0 (expire_each env js)
  unfolding expire_each
  expire_each-Costs [] = pure-Costs Others id 0 _
  expire_each-Costs (j ∷ js) = bind-Costs Others id 0 _ _ (ask-Costs Others id 0 _) λ now.
      if_true-Costs Others id 0 (is_due j now) _ _
        (λ due.
          bind-Costs Others id 0 _ _
            (bind-Costs Others id 0 _ _
              (bind-Costs Others id 0 _ _ (file-Costs Others id _) (require-Costs Others id))
              λ _. expiry-Costs j now due)
            λ _. expire_each-Costs js)
        (expire_each-Costs js)

  pub expire-Costs : Costs Others id 0 (expire env)
  unfolding expire all
  expire-Costs = bind-Costs Others id 0 _ _ (read-Costs Others id env others _) expire_each-Costs

  clear_files-Costs : Costs Others id 0 (clear_files id)
  unfolding clear_files
  clear_files-Costs = bind-Costs Others id 0 _ _ (file-Costs Others id _) λ a.
      bind-Costs Others id 0 _ _ (file-Costs Others id _)
        λ b. bind-Costs Others id 0 _ _ (file-Costs Others id _) λ c. pure-Costs Others id 0 _

  drop_artifact-Costs : (s : State) (b : Bool) → Costs Others id 0 (drop_artifact id s b)
  unfolding drop_artifact
  drop_artifact-Costs s b =
      if-Costs Others id 0 _ _ _ (pure-Costs Others id 0 _)
        (bind-Costs Others id 0 _ _ (file-Costs Others id _) λ _. pure-Costs Others id 0 _)

  review_device-Costs : (b : Bool) → Costs Others id 0 (review_device env id b)
  unfolding review_device
  review_device-Costs b =
      if-Costs Others id 0 _ _ _
        (bind-Costs Others id 0 _ _ cleanup_device-Costs λ _. pure-Costs Others id 0 _)
        (pure-Costs Others id 0 _)

  settle-Costs : Costs Others id 0 (settle env id)
  unfolding settle
  settle-Costs =
      bind-Costs Others id 0 _ _ expire-Costs
        λ _. bind-Costs Others id 0 _ _ (get-Costs id) λ current. change-Costs _ _

  quarantine-Costs :
      (reason : String) (s : State) → Costs Others id 0 (call env (quarantine id reason s))
  unfolding exec
  quarantine-Costs reason s = exec-Costs Others id env others (quarantines id reason s) refl

  conclude-Costs :
      (s : State) (cleared review : Bool) → Costs Others id 0 (conclude env id s cleared review)
  unfolding conclude
  conclude-Costs s cleared review =
      if-Costs Others id 0 (not cleared) _ _ (quarantine-Costs server_reason s)
        (if-Costs Others id 0 review _ _ (quarantine-Costs device_reason s) settle-Costs)

  begin_cleanup-Costs :
      (s : State) (code message : String)
      → Costs Others id 0 (call env (begin_cleanup id s code message))
  unfolding exec
  begin_cleanup-Costs s code message = call-Costs Others id env others 0 _ begun
    where
      begun : (d : Disk) → Course Others id 0 d.db (begin_cleanup id s code message d).1.db
      begun d =
          subst (λ x. Course Others id 0 d.db x.db) (drop-db (begin_cleanup id s code message d))
            (own (begins_cleanup id s code message) d 0 0 _ refl (omega arith) (over 0 _))

pub finish-Costs :
    (Others : Call → Type 0) (j : Job) (env : Env)
    (others : (n : ℕ) → All (λ x. Others x.1) (env.others n)) (s : State) (code : String)
    (review : Bool)
    → Costs Others j.id 0 (finish env j s code review)
unfolding finish
finish-Costs Others j env others s code review =
    bind-Costs Others j.id 0 _ _ (begin_cleanup-Costs Others j.id env others _ _ _) λ desired.
      bind-Costs Others j.id 0 _ _ (clear_files-Costs Others j.id env others) λ files.
        bind-Costs Others j.id 0 _ _ (drop_artifact-Costs Others j.id env others _ _) λ cleared.
          bind-Costs Others j.id 0 _ _ (review_device-Costs Others j.id env others _)
            λ unclean. conclude-Costs Others j.id env others _ _ _
