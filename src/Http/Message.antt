-- ===== src/Http/Message.antt =====
-- Requests, as the standard library has parsed them, and responses (internal/httpapi/server.go). JSON is
-- not modelled: a body is a value, or is told apart by what is wrong with it.
use ipa_now.Common.{ℕ, String, Bool, Option, List}
use ipa_now.Jobs.Model.{Job, Device}
use ipa_now.Http.Target.{Source}
use ipa_now.Storage.Ipa.{Archive}

pub data Method : Type 0 where
  get head options post another : Method

-- The body of a request: no JSON by its media type, JSON that `decode` refuses, which is longer than 4096
-- bytes, has another shape or something after it, or a value.
pub data Content (B : Type 0) : Type 0 where
  other_type malformed : Content B
  value : B → Content B

pub record Order : Type 0 where
  pub target : String
  pub source : Source
  pub allow_replacement : Bool

-- The raw body of an upload, and what its headers say: `size` bytes arrive, and then it may break off.
-- `archive` is what the ZIP reader finds in them.
pub record Sending : Type 0 where
  -- `X-IPA-Allow-Replacement`
  pub is_acknowledged : Bool
  pub is_binary : Bool
  pub size : ℕ
  pub breaks_off : Bool
  pub archive : Option Archive

-- The body, as each of the handlers reads it
pub record Payload : Type 0 where
  pub order : Content Order
  pub no_fields : Content Unit
  pub auth_code : Content (List ℕ)
  pub confirmation : Content Bool
  pub sending : Sending

pub record Request : Type 0 where
  pub method : Method
  pub host : String
  -- `X-IPA-Now` and `Origin`
  pub marker : String
  pub origin : String
  pub is_tls : Bool
  -- the segments of the path
  pub path : List String
  pub payload : Payload

pub data Body : Type 0 where
  empty : Body
  problem : String → Body
  a_job : Job → Body
  some_jobs : List Job → Body
  -- the device, and the job that waits for a code
  a_status : Device → String → Body
  cancel_requested : Body
  -- the artifact of a job, under a file name, as `http.ServeContent` sends it
  an_artifact : String → List ℕ → Body
  -- what the handler of the user interface answers
  a_page : Body

pub record Response : Type 0 where
  pub status : ℕ
  pub body : Body

-- `problem(w, status, code, ...)`; the messages are left out.
abbrev pub refusal : ℕ → String → Response
refusal status code = record { status = status; body = problem code }
