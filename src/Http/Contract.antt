-- ===== src/Http/Contract.antt =====
-- What each endpoint may do to the tables: the calls of the store that it may make.
pub mod Handled
pub mod Received
pub mod Silent
pub mod Kept
use ipa_now.Common.{
  ◌*◌, ◌^◌, ◌%◌, ℕ, List, ◌≡◌, Bool, true, false, not, ◌&&◌, ◌||◌, some, none, String, ltb, codes,
}
use ipa_now.Jobs.Model.{Job, Db}
use ipa_now.Jobs.Calls.{
  Call, enqueues, claims, recovers, changes, progresses, cancels, releases, resolves,
  resolves_automatic, retries, quarantines, writes_metadata, begins_cleanup, starts_operation,
}
use ipa_now.Jobs.Rows.{Field}
use ipa_now.Storage.Ipa.{validate_ipa}
use ipa_now.Worker.Finish.{expiry_fields}
use ipa_now.Http.Target.{validate_target}
use ipa_now.Http.Message.{Content, value, Order, Sending, Request, Response}
use ipa_now.Http.Guard.{guard}
use ipa_now.Http.Service.{Service}
use ipa_now.Http.Handlers.{new_job, is_app_store, source_name}
use ipa_now.Http.Server.{
  Endpoint, reads_status, reads_jobs, posts_job, posts_upload, missing, pages, reads_job,
  posts_cancel, posts_code, posts_review, reads_artifact, endpoint,
}

-- A new job for an order: its target is valid, and from the App Store it comes only if that is configured,
-- and the replacement of the installed app is acknowledged.
pub record Ordered (s : Service) (content : Content Order) (j : Job) : Type 0 where
  pub order : Order
  pub is_read : content ≡ value order
  pub id : String
  pub target : List ℕ
  pub is_valid :
      validate_target s.parse_target s.env.lower (codes order.target) order.source ≡ some target
  pub is_available :
      (is_app_store order.source
        && (not s.settings.is_apple_enabled || not order.allow_replacement))
      ≡ false
  pub is_new : j ≡ new_job id (s.text target) (source_name order.source)

-- A new job for an upload: it is acknowledged, complete and within the limit, and its archive is valid.
pub record Uploaded (s : Service) (x : Sending) (j : Job) : Type 0 where
  pub id : String
  pub is_acknowledged : x.is_acknowledged ≡ true
  pub fits : ltb s.settings.max_upload x.size ≡ false
  pub is_complete : x.breaks_off ≡ false
  pub is_valid : validate_ipa s.env.lower (s.settings.max_upload * 4 % 2 ^ 64) x.archive ≡ true
  pub is_new : j ≡ new_job id "Uploaded IPA" "upload"

module _ (s : Service) (r : Request) where
  abbrev pub MayAdd : Endpoint → Job → Type 0
  MayAdd posts_job j = Ordered s r.payload.order j
  MayAdd posts_upload j = Uploaded s r.payload.sending j
  MayAdd _ j = ⊥

  abbrev pub MayCancel : Endpoint → String → Type 0
  MayCancel (posts_cancel id) i = i ≡ id
  MayCancel _ i = ⊥

  abbrev pub MayResolve : Endpoint → String → Type 0
  MayResolve (posts_review id) i = (i ≡ id) × (r.payload.confirmation ≡ value true)
  MayResolve _ i = ⊥

  -- A review also lets artifacts expire.
  abbrev pub MayExpire : Endpoint → List Field → Type 0
  MayExpire (posts_review id) fields = (j : Job) × (fields ≡ expiry_fields j)
  MayExpire _ fields = ⊥

  abbrev pub Allowed : Endpoint → Call → Type 0
  Allowed e (enqueues j limit) = (limit ≡ s.settings.queue_limit) × MayAdd e j
  Allowed e (cancels id) = MayCancel e id
  Allowed e (resolves id) = MayResolve e id
  Allowed e (writes_metadata id fields) = MayExpire e fields
  Allowed e _ = ⊥

  -- A call of a request that has passed the guard
  abbrev pub IsOwn : Call → Type 0
  IsOwn c = (guard s.parse_origin s.settings r ≡ none) × Allowed (endpoint r.method r.path) c
