-- ===== src/Http/Service.antt =====
-- What a request is handled with (internal/httpapi/server.go): the fields of `Server`, and the parts of the
-- standard library that the model leaves open.
use ipa_now.Common.{ℕ, String, Option, List}
use ipa_now.Http.Guard.{Settings}
use ipa_now.Http.Message.{Request, Response}
use ipa_now.Http.Target.{Url}
use ipa_now.Worker.World.{Env}

-- `parse_origin` is `url.Parse` with the `String` of its result, `parse_target` is `url.Parse`, `text` is the
-- text with the given code points, and `fresh` is what `rand.Read` gives at a step. `page` is what the mux
-- answers to a path outside of `/api/`: the user interface.
pub record Service : Type 0 where
  pub settings : Settings
  pub env : Env
  pub parse_origin : String → Option String
  pub parse_target : List ℕ → Option Url
  pub text : List ℕ → String
  pub fresh : ℕ → List ℕ
  pub page : Request → Response
