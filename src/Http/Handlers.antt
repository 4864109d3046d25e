-- ===== src/Http/Handlers.antt =====
-- The handlers of the API, but for the upload (internal/httpapi/server.go).
use ipa_now.Common.{
  ℕ, String, Bool, true, false, not, ◌&&◌, ◌||◌, Option, none, some, List, [], ltb, codes,
}
use ipa_now.Jobs.Model.{unset, completed, state_eq, Job}
use ipa_now.Jobs.Tx.{Error, Done}
use ipa_now.Jobs.Rows.{get, device}
use ipa_now.Jobs.Listing.{list}
use ipa_now.Jobs.NewId.{new_id}
use ipa_now.Jobs.Queue.{enqueued, cancel}
use ipa_now.Secrets.Broker.{pending, submit}
use ipa_now.Storage.{artifacts, look}
use ipa_now.Storage.Ids.{valid_id}
use ipa_now.Worker.Startup.{resolve_job}
use ipa_now.Http.Target.{Source, installed, app_store, another, validate_target}
use ipa_now.Http.Message.{
  Content, Order, a_job, some_jobs, a_status, cancel_requested, empty, an_artifact, Body, Response,
  refusal,
}
use ipa_now.Http.Service.{Service}
use ipa_now.Http.Name.{download_name}
use ipa_now.Http.Web.{
  Web, ◌>>=◌, ◌>>◌, pure, respond, on_world, on_files, on_broker, ask, refuse, store_error, or_stop,
  store_call, decode,
}

-- A job as a handler makes it: the other fields have their zero values.
abbrev pub new_job : String → String → String → Job
new_job i t s = record {
  id = i;
  target = t;
  source = s;
  state = unset;
  phase = "";
  attempts = 0;
  cancel_requested = false;
  error_code = "";
  error_message = "";
  failure_reason = "";
  cleanup_error = "";
  pending_state = unset;
  installed = false;
  replaced = false;
  uninstalled = false;
  current = 0;
  total = 0;
  bytes = 0;
  sha256 = "";
  bundle_id = [];
  version = [];
  created_at = 0;
  updated_at = 0;
  available_at = 0;
  expires_at = none;
  artifact_expired = false;
}

abbrev pub answer : ℕ → Body → Response
answer n b = record { status = n; body = b }

-- Whatever the error is
abbrev pub read_error : Error → Response
read_error e = refusal 500 "storage_error"

unfoldable pub validated : Option (List ℕ) → Web (List ℕ)
unfolding pure respond
validated none = respond (refusal 400 "invalid_target")
validated (some t) = pure t

abbrev pub is_app_store : Source → Bool
is_app_store app_store = true
is_app_store _ = false

abbrev pub source_name : Source → String
source_name installed = "installed"
source_name app_store = "app-store"
source_name another = ""

-- The artifact is there: `Lstat`, and then `Open`.
unfoldable pub open_artifact : String → Web Done
open_artifact id = do
  found ← on_files (look artifacts id)
  refuse (not found) 404 "artifact_unavailable"
  opened ← on_files (look artifacts id)
  refuse (not opened) 404 "artifact_unavailable"

-- `j.State != jobs.Completed || j.ArtifactExpired || j.ExpiresAt == nil || time.Now().After(*j.ExpiresAt)`
unfoldable pub is_retained : Job → ℕ → Bool
is_retained j now = elim j.expires_at [
  | none ↦ false
  | some t ↦ state_eq j.state completed && not j.artifact_expired && not (ltb t now)
]

module _ (s : Service) where
  unfoldable pub status : Web Done
  unfolding pending
  status = do
    d ← store_call s.env read_error device
    waiting ← on_broker (λ b. (pending b, b))
    respond (answer 200 (a_status d waiting))

  unfoldable pub list_jobs : Web Done
  list_jobs = do jobs ← store_call s.env read_error list; respond (answer 200 (some_jobs jobs))

  unfoldable pub enqueue_order : Content Order → Web Done
  unfolding validate_target
  enqueue_order content = do
    o ← decode content
    target ← validated (validate_target s.parse_target s.env.lower (codes o.target) o.source)
    refuse (is_app_store o.source && (not s.settings.is_apple_enabled || not o.allow_replacement))
        400 "app_store_unavailable"
    bytes ← ask s.fresh
    j ← store_call s.env store_error (
        enqueued (new_job (new_id bytes) (s.text target) (source_name o.source))
          s.settings.queue_limit)
    respond (answer 202 (a_job j))

  unfoldable pub lookup : String → Web Job
  unfolding valid_id
  lookup id = do refuse (not (valid_id id)) 404 "not_found"; store_call s.env store_error (get id)

  unfoldable pub get_job : String → Web Done
  get_job id = do j ← lookup id; respond (answer 200 (a_job j))

  unfoldable pub cancel_job : String → Content Unit → Web Done
  cancel_job id content = do
    decode content
    j ← lookup id
    store_call s.env store_error (cancel j.id)
    respond (answer 202 cancel_requested)

  unfoldable pub send_code : String → Content (List ℕ) → Web Done
  unfolding submit
  send_code id content = do
    j ← lookup id
    code ← decode content
    taken ← on_broker (submit j.id code)
    refuse (not taken) 409 "invalid_challenge"
    respond (answer 204 empty)

  unfoldable pub confirm_cleanup : String → Content Bool → Web Done
  unfolding resolve_job
  confirm_cleanup id content = do
    j ← lookup id
    confirmed ← decode content
    refuse (not confirmed) 400 "confirmation_required"
    done ← on_world (resolve_job s.env j.id)
    or_stop store_error done
    respond (answer 204 empty)

  unfoldable pub download : String → Web Done
  unfolding download_name
  download id = do
    j ← lookup id
    now ← ask s.env.time
    refuse (not (is_retained j now)) 409 "artifact_unavailable"
    open_artifact j.id
    respond (answer 200 (an_artifact j.id (download_name j)))
