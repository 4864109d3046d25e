-- ===== src/Engine/Transport.antt =====
-- The scope of the HTTP requests that the library makes for a job (internal/engine/transport.go). A context is its
-- number; the body of a response, which ends the request's own context, is not modelled.
use ipa_now.Common.{ℕ, Bool, true, false, Option, none, some, if◌then◌else◌}

-- `active` of the transport
abbrev pub Active : Type 0
Active = Option ℕ

abbrev pub scoped : ℕ → Active → Bool × Active
scoped job none = (true, some job)
scoped job (some other) = (false, some other)

-- `Scope`, and whether it succeeds
unfoldable pub scope : ℕ → Active → Bool × Active
scope job a = scoped job a

-- The function that `Scope` returns
unfoldable pub release : Active → Active
release a = none

-- What becomes of a request: it is refused outside of a job, and without a base transport; else it is sent under
-- the job's context, and is cancelled at once if that is done.
pub data Sent : Type 0 where
  outside no_base : Sent
  sent : (job : ℕ) → (is_cancelled : Bool) → Sent

unfoldable pub round_trip : (has_base : Bool) → (is_done : ℕ → Bool) → Active → Sent
round_trip has_base is_done none = outside
round_trip has_base is_done (some job) = if has_base then sent job (is_done job) else no_base
