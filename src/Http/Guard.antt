-- ===== src/Http/Guard.antt =====
-- The checks that every request passes before it is dispatched (internal/httpapi/server.go). `parse` is
-- `url.Parse` with the `String` of its result.
pub mod Passed
use ipa_now.Common.{
  ℕ, String, Bool, true, false, not, ◌||◌, ◌==◌, Option, none, some, List, [], ◌∷◌, if◌then◌else◌,
}
use ipa_now.Http.Message.{Method, get, head, options, post, another, Request, Response, refusal}

pub record Settings : Type 0 where
  pub allowed_hosts : List String
  pub allowed_origin : String
  pub max_upload : ℕ
  pub queue_limit : ℕ
  pub is_apple_enabled : Bool

unfoldable pub is_listed : String → List String → Bool
is_listed host [] = false
is_listed host (h ∷ hs) = (host == h) || is_listed host hs

-- No hosts are all hosts.
unfoldable pub is_host_allowed : Settings → Request → Bool
unfolding is_listed
is_host_allowed s r = elim s.allowed_hosts [ [] ↦ true | h ∷ hs ↦ is_listed r.host (h ∷ hs) ]

abbrev pub is_read : Method → Bool
is_read get = true
is_read head = true
is_read options = true
is_read post = false
is_read another = false

abbrev pub append : String → String → String
append = Prim.Native.String.◌++◌

unfoldable pub expected_origin : Settings → Request → String
expected_origin s r =
    if s.allowed_origin == ""
    then append (append (if r.is_tls then "https" else "http") "://") r.host
    else s.allowed_origin

abbrev pub is_parsed_as : Option String → String → Bool
is_parsed_as none o = false
is_parsed_as (some u) o = u == o

module _ (parse : String → Option String) where
  unfoldable pub is_origin_allowed : Settings → Request → Bool
  unfolding expected_origin
  is_origin_allowed s r = (r.origin == "") || is_parsed_as (parse r.origin) (expected_origin s r)

  -- `none` lets the request pass.
  unfoldable pub guard : Settings → Request → Option Response
  unfolding is_host_allowed is_origin_allowed
  guard s r =
      if not (is_host_allowed s r)
      then some (refusal 403 "host_denied")
      else if is_read r.method
      then none
      else if not (r.marker == "1") || not (is_origin_allowed s r)
      then some (refusal 403 "origin_denied")
      else none
