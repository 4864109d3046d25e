-- ===== src/Http/Contract/Silent.antt =====
-- The endpoints that change no table, which are those of every method but POST.
use ipa_now.Common.{◌≡◌, Bool, true, false, if◌then◌else◌, ◌∷◌, ◌==◌, ◌&&◌, List, String, []}
use ipa_now.Jobs.Model.{Job}
use ipa_now.Jobs.Calls.{Call, enqueues, cancels, resolves, writes_metadata}
use ipa_now.Http.Message.{Method, get, head, options, post, another, Request}
use ipa_now.Jobs.Rows.{Field}
use ipa_now.Http.Guard.{is_read}
use ipa_now.Http.Service.{Service}
use ipa_now.Http.Server.{
  Endpoint, reads_jobs, posts_job, posts_upload, missing, posts_cancel, posts_review, read_endpoint,
  api_endpoint, endpoint,
}
use ipa_now.Http.Contract.{MayAdd, MayCancel, MayResolve, MayExpire, Allowed}

-- The endpoints that change no table
abbrev pub IsSilent : Endpoint → Type 0
IsSilent posts_job = ⊥
IsSilent posts_upload = ⊥
IsSilent (posts_cancel id) = ⊥
IsSilent (posts_review id) = ⊥
IsSilent _ = Unit

if-IsSilent : (b : Bool) (x y : Endpoint) → IsSilent x → IsSilent y → IsSilent (if b then x else y)
if-IsSilent true x y h g = h
if-IsSilent false x y h g = g

read_endpoint-IsSilent : (p : List String) → IsSilent (read_endpoint p)
unfolding read_endpoint
read_endpoint-IsSilent [] = tt
read_endpoint-IsSilent (a ∷ []) =
    if-IsSilent (a == "status") _ _ tt (if-IsSilent (a == "jobs") reads_jobs missing tt tt)
read_endpoint-IsSilent (a ∷ id ∷ []) = if-IsSilent (a == "jobs") _ _ tt tt
read_endpoint-IsSilent (a ∷ id ∷ b ∷ []) =
    if-IsSilent ((a == "jobs") && (b == "artifact")) _ _ tt tt
read_endpoint-IsSilent (a ∷ id ∷ b ∷ c ∷ p) = tt

api-IsSilent : (m : Method) (p : List String) → is_read m ≡ true → IsSilent (api_endpoint m p)
api-IsSilent get p e = read_endpoint-IsSilent p
api-IsSilent head p e = read_endpoint-IsSilent p
api-IsSilent options p e = tt
api-IsSilent post p e = cc
api-IsSilent another p e = tt

pub endpoint-IsSilent : (m : Method) (p : List String) → is_read m ≡ true → IsSilent (endpoint m p)
unfolding endpoint
endpoint-IsSilent m [] e = tt
endpoint-IsSilent m (a ∷ []) e = tt
endpoint-IsSilent m (a ∷ b ∷ p) e = if-IsSilent (a == "api") _ _ (api-IsSilent m (b ∷ p) e) tt

module _ (s : Service) (r : Request) where
  no_job : (e : Endpoint) (j : Job) → IsSilent e → ¬ (MayAdd s r e j)
  no_job posts_job j q m = absurd q
  no_job posts_upload j q m = absurd q
  no_job _ j q m = m

  no_cancel : (e : Endpoint) (i : String) → IsSilent e → ¬ (MayCancel s r e i)
  no_cancel (posts_cancel id) i q m = absurd q
  no_cancel _ i q m = m

  no_resolve : (e : Endpoint) (i : String) → IsSilent e → ¬ (MayResolve s r e i)
  no_resolve (posts_review id) i q m = absurd q
  no_resolve _ i q m = m

  no_expiry : (e : Endpoint) (fields : List Field) → IsSilent e → ¬ (MayExpire s r e fields)
  no_expiry (posts_review id) fields q m = absurd q
  no_expiry _ fields q m = m

  pub silent : (e : Endpoint) → IsSilent e → (c : Call) → ¬ (Allowed s r e c)
  silent e q (enqueues j limit) (_, m) = no_job e j q m
  silent e q (cancels id) m = no_cancel e id q m
  silent e q (resolves id) m = no_resolve e id q m
  silent e q (writes_metadata id fields) m = no_expiry e fields q m
  silent e q _ m = m
