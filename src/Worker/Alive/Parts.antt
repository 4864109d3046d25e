-- ===== src/Worker/Alive/Parts.antt =====
-- Every part of the end of a job lets the jobs only move forward.
use ipa_now.Common.{not, String, Bool, List, [], ◌∷◌}
use ipa_now.Jobs.Model.{State, Job}
use ipa_now.Jobs.Tx.{Result, ok, err, Done}
use ipa_now.Jobs.Rows.{all, get, first_job}
use ipa_now.Jobs.Evolve.QueueCalls.{Keeps, change-Keeps, metadata-Keeps}
use ipa_now.Jobs.Evolve.CleanupCalls.{quarantine-Keeps, begin_cleanup-Keeps}
use ipa_now.Worker.World.{Env}
use ipa_now.Worker.Device.{succeeded, cleanup_device}
use ipa_now.Worker.Finish.{
  server_reason, device_reason, expire_each, expire, clear_files, settle, drop_artifact,
  review_device, conclude, finish,
}
use ipa_now.Worker.Alive.{
  Alive, bind-Alive, attempt-Alive, pure-Alive, ask-Alive, if-Alive, call-Alive, read-Keeps,
  file-Alive, require-Alive,
}

pub get-Keeps : (id : String) → Keeps (get id)
unfolding get first_job
get-Keeps id = read-Keeps _

pub all-Keeps : Keeps all
unfolding all
all-Keeps = read-Keeps _

succeeded-Alive : (r : Result Done) → Alive (succeeded r)
succeeded-Alive (ok a) = pure-Alive _
succeeded-Alive (err e) = pure-Alive _

pub cleanup_device-Alive : (env : Env) (id : String) → Alive (cleanup_device env id)
unfolding cleanup_device
cleanup_device-Alive env id = if-Alive _ _ _ (pure-Alive _) (
    bind-Alive _ _ (ask-Alive _) λ result. if-Alive _ _ _ (pure-Alive _) (
      if-Alive _ _ _ (attempt-Alive _ _ (call-Alive env _ (metadata-Keeps _ _)) succeeded-Alive)
        (pure-Alive _)))

expire_each-Alive : (env : Env) (js : List Job) → Alive (expire_each env js)
unfolding expire_each
expire_each-Alive env [] = pure-Alive _
expire_each-Alive env (j ∷ js) = bind-Alive _ _ (ask-Alive _) λ now.
    if-Alive _ _ _
      (bind-Alive _ _
        (bind-Alive _ _ (bind-Alive _ _ (file-Alive _) require-Alive)
          λ _. call-Alive env _ (metadata-Keeps _ _))
        λ _. expire_each-Alive env js)
      (expire_each-Alive env js)

pub expire-Alive : (env : Env) → Alive (expire env)
unfolding expire
expire-Alive env = bind-Alive _ _ (call-Alive env _ all-Keeps) (expire_each-Alive env)

pub clear_files-Alive : (id : String) → Alive (clear_files id)
unfolding clear_files
clear_files-Alive id =
    bind-Alive _ _ (file-Alive _)
      λ a. bind-Alive _ _ (file-Alive _) λ b. bind-Alive _ _ (file-Alive _) λ c. pure-Alive _

pub drop_artifact-Alive : (id : String) (s : State) (b : Bool) → Alive (drop_artifact id s b)
unfolding drop_artifact
drop_artifact-Alive id s b =
    if-Alive _ _ _ (pure-Alive _) (bind-Alive _ _ (file-Alive _) λ _. pure-Alive _)

pub review_device-Alive : (env : Env) (id : String) (b : Bool) → Alive (review_device env id b)
unfolding review_device
review_device-Alive env id b =
    if-Alive _ _ _ (bind-Alive _ _ (cleanup_device-Alive env id) λ _. pure-Alive _) (pure-Alive _)

settle-Alive : (env : Env) (id : String) → Alive (settle env id)
unfolding settle
settle-Alive env id = bind-Alive _ _ (expire-Alive env) λ _.
    bind-Alive _ _ (call-Alive env _ (get-Keeps id))
      λ current. call-Alive env _ (change-Keeps _ _ _)

conclude-Alive :
    (env : Env) (id : String) (s : State) (cleared review : Bool)
    → Alive (conclude env id s cleared review)
unfolding conclude
conclude-Alive env id s cleared review =
    if-Alive (not cleared) _ _ (call-Alive env _ (quarantine-Keeps id server_reason s)) (
      if-Alive review _ _ (call-Alive env _ (quarantine-Keeps id device_reason s))
        (settle-Alive env id))

pub finish-Alive :
    (env : Env) (j : Job) (s : State) (code : String) (review : Bool)
    → Alive (finish env j s code review)
unfolding finish
finish-Alive env j s code review =
    bind-Alive _ _ (call-Alive env _ (begin_cleanup-Keeps _ _ _ _)) λ desired.
      bind-Alive _ _ (clear_files-Alive _) λ files.
        bind-Alive _ _ (drop_artifact-Alive _ _ _) λ cleared.
          bind-Alive _ _ (review_device-Alive env _ _) λ unclean. conclude-Alive env _ _ _ _
