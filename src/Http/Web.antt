-- ===== src/Http/Web.antt =====
-- What a handler works on, and how its steps are composed (internal/httpapi/server.go): a handler goes on,
-- or it has written a response and returns.
use ipa_now.Common.{ℕ, suc, String, Bool, if◌then◌else◌}
use ipa_now.Jobs.Tx.{Error, not_found, conflict, queue_full, storage, Result, ok, err, Tx, Done}
use ipa_now.Secrets.Broker.{Broker}
use ipa_now.Storage.{Files}
use ipa_now.Worker.World.{Env, World, Work, call, file}
use ipa_now.Http.Message.{Content, other_type, malformed, value, Response, refusal}

-- `is_uploading` says whether another upload holds the lock.
pub record Site : Type 0 where
  pub world : World
  pub broker : Broker
  pub is_uploading : Bool

pub data Outcome (A : Type 0) : Type 0 where
  go : A → Outcome A
  stop : Response → Outcome A

abbrev pub Web : Type 0 → Type 0
Web A = Site → Outcome A × Site

module _ {A B : Type 0} where
  abbrev pub proceed : Outcome A → (A → Web B) → Web B
  proceed (go a) f s = f a s
  proceed (stop r) f s = (stop r, s)

  infixl 5 ◌>>=◌ ◌>>◌
  unfoldable pub ◌>>=◌ : Web A → (A → Web B) → Web B
  ◌>>=◌ m f s = let (o, s') = m s in proceed o f s'

  abbrev pub ◌>>◌ : Web A → Web B → Web B
  m >> k = m >>= λ _. k

module _ {A : Type 0} where
  unfoldable pub pure : A → Web A
  pure a s = (go a, s)

  unfoldable pub respond : Response → Web A
  respond r s = (stop r, s)

-- A part that works on the database and the files
unfoldable pub on_world : {A : Type 0} → Work A → Web (Result A)
on_world m s = let (r, w) = m s.world in (go r, record s { world = w })

unfoldable pub on_files : (Files → Bool × Files) → Web Bool
unfolding file
on_files f s =
    let (b, g) = f s.world.files in
    (go b, record s { world = record s.world { files = g; step = suc s.world.step } })

-- `if test { problem(...); return }`
unfoldable pub refuse : Bool → ℕ → String → Web Done
unfolding pure respond
refuse test status code = if test then respond (refusal status code) else pure tt

-- `storeError`
unfoldable pub store_error : Error → Response
store_error not_found = refusal 404 "not_found"
store_error conflict = refusal 409 "state_conflict"
store_error queue_full = refusal 429 "queue_full"
store_error storage = refusal 500 "storage_error"

abbrev pub or_stop : {A : Type 0} → (Error → Response) → Result A → Web A
or_stop f (ok a) = pure a
or_stop f (err e) = respond (f e)

-- `if e := s.Jobs...; e != nil { ... return }`
unfoldable pub store_call : {A : Type 0} → Env → (Error → Response) → Tx A → Web A
unfolding pure respond
store_call env f m = on_world (call env m) >>= or_stop f

-- `decode`
unfoldable pub decode : {B : Type 0} → Content B → Web B
decode other_type = respond (refusal 415 "invalid_type")
decode malformed = respond (refusal 400 "invalid_request")
decode (value b) = pure b

-- What a step is told by the world: the clock, or random bytes.
unfoldable pub ask : {A : Type 0} → (ℕ → A) → Web A
unfolding pure
ask f = on_world (λ w. (ok (f w.step), record w { step = suc w.step })) >>= or_stop store_error

-- `s.Auth...`
unfoldable pub on_broker : {A : Type 0} → (Broker → A × Broker) → Web A
on_broker f s = let (a, c) = f s.broker in (go a, record s { broker = c })
