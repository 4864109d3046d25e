-- ===== src/Http/Contract/Kept.antt =====
-- Every request keeps to the contract of its endpoint.
use ipa_now.Common.{ℕ, ◌≡◌, refl, true, Option, none, some, All, All-mono, inl, inr, ◌⊎◌}
use ipa_now.Jobs.Calls.{Call, enqueues, cancels, resolves, writes_metadata}
use ipa_now.Jobs.Trace.{Trace}
use ipa_now.Worker.Finish.{expiry_fields}
use ipa_now.Http.Message.{Request, Response}
use ipa_now.Http.Guard.{guard, is_read}
use ipa_now.Http.Service.{Service}
use ipa_now.Http.Web.{Web, Site}
use ipa_now.Http.Server.{
  Endpoint, reads_status, reads_jobs, posts_job, posts_upload, missing, pages, reads_job,
  posts_cancel, posts_code, posts_review, reads_artifact, endpoint, serve_endpoint, guarded, handle,
}
use ipa_now.Http.Acts.{Acts, respond-Acts}
use ipa_now.Http.Contract.{Allowed, IsOwn}
use ipa_now.Http.Contract.Handled.{
  status-Acts, list_jobs-Acts, get_job-Acts, download-Acts, send_code-Acts, cancel_job-Acts,
  confirm_cleanup-Acts, enqueue_order-Acts,
}
use ipa_now.Http.Contract.Silent.{silent, endpoint-IsSilent}
use ipa_now.Http.Contract.Received.{upload-Acts}

module _ (s : Service) (r : Request) where
  module _ (P : Call → Type 0) (others : (n : ℕ) → All (λ x. P x.1) (s.env.others n)) where
    endpoint-Acts :
        (e : Endpoint)
        → ((c : Call) → Allowed s r e c → P c)
        → Acts P (λ _. Unit) (serve_endpoint s r e)
    unfolding serve_endpoint
    endpoint-Acts reads_status own = status-Acts P s others
    endpoint-Acts reads_jobs own = list_jobs-Acts P s others
    endpoint-Acts posts_job own =
        enqueue_order-Acts P s others _
          λ j ordered. own (enqueues j s.settings.queue_limit) (refl, ordered)
    endpoint-Acts posts_upload own =
        upload-Acts P s others _
          λ j uploaded. own (enqueues j s.settings.queue_limit) (refl, uploaded)
    endpoint-Acts missing own = respond-Acts P _ _
    endpoint-Acts pages own = respond-Acts P _ _
    endpoint-Acts (reads_job id) own = get_job-Acts P s others id
    endpoint-Acts (posts_cancel id) own = cancel_job-Acts P s others id _ λ i e. own (cancels i) e
    endpoint-Acts (posts_code id) own = send_code-Acts P s others id _
    endpoint-Acts (posts_review id) own =
        confirm_cleanup-Acts P s others id _ (λ i e sure. own (resolves i) (e, sure))
          λ i j sure. own (writes_metadata i (expiry_fields j)) (j, refl)
    endpoint-Acts (reads_artifact id) own = download-Acts P s others id

    guarded-Acts :
        (o : Option Response) (m : Web Unit)
        → (o ≡ none → Acts P (λ _. Unit) m)
        → Acts P (λ _. Unit) (guarded o m)
    guarded-Acts none m f = f refl
    guarded-Acts (some x) m f = respond-Acts P _ x

    handle-Trace :
        (site : Site)
        → ((c : Call) → IsOwn s r c → P c)
        → Trace P site.world.disk.db (handle s r site).1.world.disk.db
    unfolding handle Acts
    handle-Trace site own =
        (guarded-Acts (guard s.parse_origin s.settings r) _
          (λ passed. endpoint-Acts (endpoint r.method r.path) λ c allowed. own c (passed, allowed))
          site).0

  -- Besides the calls of others, a request makes only calls that its endpoint allows, and it makes none unless
  -- it has passed the guard.
  pub handle-Kept :
      (Others : Call → Type 0) (site : Site)
      → ((n : ℕ) → All (λ x. Others x.1) (s.env.others n))
      → Trace (λ c. Others c ⊎ IsOwn s r c) site.world.disk.db (handle s r site).1.world.disk.db
  handle-Kept Others site others =
      handle-Trace (λ c. Others c ⊎ IsOwn s r c)
        (λ n.
          All-mono (λ x. Others x.1) (λ x. Others x.1 ⊎ IsOwn s r x.1) (λ x h. inl h)
            (s.env.others n) (others n))
        site λ c own. inr own

  no-IsOwn :
      (is_read r.method ≡ true) ⊎ ((x : Response) × (guard s.parse_origin s.settings r ≡ some x))
      → (c : Call) → ¬ (IsOwn s r c)
  no-IsOwn (inl e) c (_, own) =
      silent s r (endpoint r.method r.path) (endpoint-IsSilent r.method r.path e) c own
  no-IsOwn (inr (x, e)) c (passed, _) = cc

  -- A request that is no POST, or that the guard refuses, makes no call of its own that writes to the tables.
  pub handle-Reads :
      (Others : Call → Type 0) (site : Site)
      → ((n : ℕ) → All (λ x. Others x.1) (s.env.others n))
      → (is_read r.method ≡ true) ⊎ ((x : Response) × (guard s.parse_origin s.settings r ≡ some x))
      → Trace Others site.world.disk.db (handle s r site).1.world.disk.db
  handle-Reads Others site others h =
      handle-Trace Others others site λ c own. absurd (no-IsOwn h c own)
