-- ===== src/Secrets/Broker.antt =====
-- The broker of two-factor codes (internal/secrets/store.go). It holds its lock for each of the steps
-- below; `Request` waits between its steps, and other callers take theirs then. A code is its bytes, which
-- are decimal digits only if it is accepted.
pub mod Steps
pub mod Delivery
use ipa_now.Common.{
  ℕ, String, Bool, true, false, not, ◌&&◌, ◌||◌, ◌==◌, Option, none, some, List, [], ◌∷◌, nat_eq,
  length, if◌then◌else◌, is_digit, all_of,
}

-- `ch` is `none` for a nil channel; a channel buffers one code.
pub record Broker : Type 0 where
  pub job : String
  pub ch : Option (Option (List ℕ))

abbrev pub idle : Broker
idle = record { job = ""; ch = none }

unfoldable pub pending : Broker → String
pending b = b.job

abbrev pub opened : String → Broker → Option (Option (List ℕ)) → Bool × Broker
opened id b none = (true, record { job = id; ch = some none })
opened id b (some _) = (false, b)

-- The first part of `Request`; `false` if a request is pending.
unfoldable pub begin_request : String → Broker → Bool × Broker
begin_request id b = opened id b b.ch

abbrev pub taken : Broker → Option (Option (List ℕ)) → Option (List ℕ × Broker)
taken b (some (some code)) = some (code, record b { ch = some none })
taken b _ = none

-- `<-ch`, when the channel has a code
unfoldable pub receive : Broker → Option (List ℕ × Broker)
receive b = taken b b.ch

-- What `Request` defers
unfoldable pub end_request : Broker → Broker
end_request b = record { job = ""; ch = none }

unfoldable pub is_code : List ℕ → Bool
unfolding all_of
is_code code = nat_eq (length code) 6 && all_of is_digit code

abbrev pub put : List ℕ → Broker → Option (Option (List ℕ)) → Bool × Broker
put code b (some none) = (true, record b { ch = some (some code) })
put code b _ = (false, b)

-- `Submit`; the source tells its refusals apart by their texts.
unfoldable pub submit : String → List ℕ → Broker → Bool × Broker
unfolding is_code
submit id code b = if not (b.job == id) || not (is_code code) then (false, b) else put code b b.ch
