-- ===== src/Http/Server.antt =====
-- The dispatch of a request (internal/httpapi/server.go, `Handler`). The mux matches the segments of a clean
-- path, and a `GET` pattern matches `HEAD` too. The logging of rejections, the headers of every response and
-- the writer that records the status for the log are left out.
use ipa_now.Common.{String, ◌&&◌, ◌==◌, Option, none, some, List, [], ◌∷◌, if◌then◌else◌}
use ipa_now.Jobs.Tx.{Done}
use ipa_now.Http.Message.{
  Method, get, head, options, post, another, Request, Response, empty, refusal,
}
use ipa_now.Http.Guard.{guard}
use ipa_now.Http.Service.{Service}
use ipa_now.Http.Web.{Web, Site, Outcome, go, stop, respond}
use ipa_now.Http.Handlers.{
  status, list_jobs, enqueue_order, get_job, cancel_job, send_code, confirm_cleanup, download,
  answer,
}
use ipa_now.Http.Upload.{upload}

pub data Endpoint : Type 0 where
  reads_status reads_jobs posts_job posts_upload missing pages : Endpoint
  reads_job posts_cancel posts_code posts_review reads_artifact : String → Endpoint

-- The paths below `/api/`, of a method that a `GET` pattern matches
unfoldable pub read_endpoint : List String → Endpoint
read_endpoint (a ∷ []) =
    if a == "status" then reads_status else if a == "jobs" then reads_jobs else missing
read_endpoint (a ∷ id ∷ []) = if a == "jobs" then reads_job id else missing
read_endpoint (a ∷ id ∷ b ∷ []) =
    if (a == "jobs") && (b == "artifact") then reads_artifact id else missing
read_endpoint _ = missing

abbrev pub job_action : String → String → Endpoint
job_action id b =
    if b == "cancel"
    then posts_cancel id
    else if b == "auth-code"
    then posts_code id
    else if b == "confirm-cleanup"
    then posts_review id
    else missing

-- The paths below `/api/`, of the method POST
unfoldable pub write_endpoint : List String → Endpoint
write_endpoint (a ∷ []) =
    if a == "jobs" then posts_job else if a == "uploads" then posts_upload else missing
write_endpoint (a ∷ id ∷ b ∷ []) = if a == "jobs" then job_action id b else missing
write_endpoint _ = missing

abbrev pub api_endpoint : Method → List String → Endpoint
api_endpoint get path = read_endpoint path
api_endpoint head path = read_endpoint path
api_endpoint post path = write_endpoint path
api_endpoint options path = missing
api_endpoint another path = missing

-- `/api/` is the fallback of the API, and `/` that of all.
unfoldable pub endpoint : Method → List String → Endpoint
unfolding read_endpoint write_endpoint
endpoint m (a ∷ b ∷ path) = if a == "api" then api_endpoint m (b ∷ path) else pages
endpoint m _ = pages

module _ (s : Service) (r : Request) where
  unfoldable pub serve_endpoint : Endpoint → Web Done
  unfolding respond
  serve_endpoint reads_status = status s
  serve_endpoint reads_jobs = list_jobs s
  serve_endpoint posts_job = enqueue_order s r.payload.order
  serve_endpoint posts_upload = upload s r.payload.sending
  serve_endpoint (reads_job id) = get_job s id
  serve_endpoint (posts_cancel id) = cancel_job s id r.payload.no_fields
  serve_endpoint (posts_code id) = send_code s id r.payload.auth_code
  serve_endpoint (posts_review id) = confirm_cleanup s id r.payload.confirmation
  serve_endpoint (reads_artifact id) = download s id
  serve_endpoint missing = respond (refusal 404 "not_found")
  serve_endpoint pages = respond (s.page r)

-- A handler that has written no response sends 200.
abbrev pub response : Outcome Done → Response
response (go _) = answer 200 empty
response (stop r) = r

abbrev pub guarded : Option Response → Web Done → Web Done
guarded none m = m
guarded (some r) m = respond r

unfoldable pub handle : Service → Request → Site → Response × Site
unfolding guard serve_endpoint endpoint respond
handle s r site =
    let (o, site') =
      guarded (guard s.parse_origin s.settings r) (serve_endpoint s r (endpoint r.method r.path))
        site in
    (response o, site')
