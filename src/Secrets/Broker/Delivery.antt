-- ===== src/Secrets/Broker/Delivery.antt =====
-- A request gets only codes that were submitted for it (internal/secrets/store.go).
use ipa_now.Common.{
  ℕ, String, ◌≡◌, refl, ◌⊎◌, inl, inr, arith, true, not, ◌||◌, ◌==◌, eq_iff, Option, none, some,
  List, [], ◌∷◌, if◌then◌else◌, Bool-cases,
}
use ipa_now.Secrets.Broker.{
  opened, taken, begin_request, receive, end_request, is_code, put, submit,
}
use ipa_now.Secrets.Broker.Steps.{
  Phase, absent, waiting, leaving, Step, requests, submits, receives, gives_up, ends, Event,
  accepted, delivered, Session, requested, submitted, received, on_waiting, on_leaving, step, steps,
  start,
}

-- The code was accepted for the job, and has the form of a code.
abbrev pub WasAccepted : String → List ℕ → List Event → Type 0
WasAccepted id code [] = ⊥
WasAccepted id code (accepted i c ∷ es) =
    ((id ≡ i) × (code ≡ c) × (is_code code ≡ true)) ⊎ WasAccepted id code es
WasAccepted id code (delivered i c ∷ es) = WasAccepted id code es

-- Each delivery comes after such an acceptance.
abbrev pub Faithful : List Event → Type 0
Faithful [] = Unit
Faithful (accepted i c ∷ es) = Faithful es
Faithful (delivered i c ∷ es) = WasAccepted i c es × Faithful es

-- A code that is in the channel was accepted for the pending job.
abbrev Buffered : Option (Option (List ℕ)) → String → List Event → Type 0
Buffered (some (some code)) id es = WasAccepted id code es
Buffered _ id es = Unit

record Good (s : Session) : Type 0 where
  buffered : Buffered s.broker.ch s.broker.job s.log
  faithful : Faithful s.log

requested-Good :
    (id : String) (s : Session) → Good s → Good (requested s (begin_request id s.broker))
unfolding begin_request
requested-Good id s g = by_channel s.broker.ch
  where
    by_channel : (c : Option (Option (List ℕ))) → Good (requested s (opened id s.broker c))
    by_channel none = record { buffered = tt; faithful = g.faithful }
    by_channel (some x) = g

put-Good :
    (id : String) (code : List ℕ) (s : Session)
    → s.broker.job ≡ id
    → is_code code ≡ true
    → Good s
    → Good (submitted id code s (put code s.broker s.broker.ch))
put-Good id code s i c g = by_channel s.broker.ch
  where
    by_channel : (o : Option (Option (List ℕ))) → Good (submitted id code s (put code s.broker o))
    by_channel none = g
    by_channel (some (some x)) = g
    by_channel (some none) = record { buffered = inl (i, refl, c); faithful = g.faithful }

submitted-Good :
    (id : String) (code : List ℕ) (s : Session)
    → Good s
    → Good (submitted id code s (submit id code s.broker))
unfolding submit
submitted-Good id code s g = elim (Bool-cases (not (s.broker.job == id) || not (is_code code))) [
  | inl e ↦ rw (e, if◌then◌else◌) g
  | inr e ↦
      rw (e, if◌then◌else◌)
        (put-Good id code s (ground (arith, eq_iff s.broker.job id)) (ground arith) g)
]

received-Good : (s : Session) → Good s → Good (received s (receive s.broker))
unfolding receive
received-Good s g = by_channel s.broker.ch g.buffered
  where
    by_channel :
        (c : Option (Option (List ℕ)))
        → Buffered c s.broker.job s.log
        → Good (received s (taken s.broker c))
    by_channel none b = g
    by_channel (some none) b = g
    by_channel (some (some code)) b = record { buffered = tt; faithful = (b, g.faithful) }

step-Good : (a : Step) (s : Session) → Good s → Good (step a s)
unfolding step end_request
step-Good (requests id) s g = requested-Good id s g
step-Good (submits id code) s g = submitted-Good id code s g
step-Good receives s g = at_phase s.phase
  where
    at_phase : (p : Phase) → Good (on_waiting p s (received s (receive s.broker)))
    at_phase waiting = received-Good s g
    at_phase absent = g
    at_phase leaving = g
step-Good gives_up s g = at_phase s.phase
  where
    at_phase : (p : Phase) → Good (on_waiting p s (record s { phase = leaving }))
    at_phase waiting = record { buffered = g.buffered; faithful = g.faithful }
    at_phase absent = g
    at_phase leaving = g
step-Good ends s g = at_phase s.phase
  where
    at_phase :
        (p : Phase)
        → Good (on_leaving p s (record s { broker = end_request s.broker; phase = absent }))
    at_phase leaving = record { buffered = tt; faithful = g.faithful }
    at_phase absent = g
    at_phase waiting = g

steps-Good : (rest : List Step) (s : Session) → Good s → Good (steps rest s)
unfolding steps
steps-Good [] s g = g
steps-Good (a ∷ rest) s g = steps-Good rest (step a s) (step-Good a s g)

-- In whatever order the callers take their steps, each code that a request gets was accepted before, for
-- the job of that request, and is six digits.
pub steps-Faithful : (rest : List Step) → Faithful (steps rest start).log
steps-Faithful rest = (steps-Good rest start (record { buffered = tt; faithful = tt })).faithful
