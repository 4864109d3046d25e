-- ===== src/Secrets/Broker/Steps.antt =====
-- The steps that callers of the broker take, in any order, and what comes of them.
use ipa_now.Common.{ℕ, String, Bool, true, false, Option, none, some, List, [], ◌∷◌}
use ipa_now.Secrets.Broker.{Broker, idle, begin_request, receive, end_request, submit}

-- Where the one request is: none is there, it waits, or it has its answer and has not ended.
pub data Phase : Type 0 where
  absent waiting leaving : Phase

-- `gives_up` is the end of the request's context.
pub data Step : Type 0 where
  requests : String → Step
  submits : String → List ℕ → Step
  receives gives_up ends : Step

pub data Event : Type 0 where
  accepted delivered : String → List ℕ → Event

pub record Session : Type 0 where
  pub broker : Broker
  pub phase : Phase
  -- what has happened, the latest first
  pub log : List Event

abbrev pub requested : Session → Bool × Broker → Session
requested s (true, b) = record s { broker = b; phase = waiting }
requested s (false, b) = record s { broker = b }

abbrev pub submitted : String → List ℕ → Session → Bool × Broker → Session
submitted id code s (true, b) = record s { broker = b; log = accepted id code ∷ s.log }
submitted id code s (false, b) = record s { broker = b }

abbrev pub received : Session → Option (List ℕ × Broker) → Session
received s none = s
received s (some (code, b)) = record {
  broker = b;
  phase = leaving;
  log = delivered s.broker.job code ∷ s.log;
}

abbrev pub on_waiting : Phase → Session → Session → Session
on_waiting waiting s t = t
on_waiting _ s t = s

abbrev pub on_leaving : Phase → Session → Session → Session
on_leaving leaving s t = t
on_leaving _ s t = s

unfoldable pub step : Step → Session → Session
step (requests id) s = requested s (begin_request id s.broker)
step (submits id code) s = submitted id code s (submit id code s.broker)
step receives s = on_waiting s.phase s (received s (receive s.broker))
step gives_up s = on_waiting s.phase s (record s { phase = leaving })
step ends s = on_leaving s.phase s (record s { broker = end_request s.broker; phase = absent })

unfoldable pub steps : List Step → Session → Session
unfolding step
steps [] s = s
steps (a ∷ rest) s = steps rest (step a s)

abbrev pub start : Session
start = record { broker = idle; phase = absent; log = [] }
