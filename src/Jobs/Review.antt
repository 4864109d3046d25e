-- ===== src/Jobs/Review.antt =====
-- A job that waits for a cleanup review keeps the device in quarantine, whatever else is called.
pub mod Calls
pub mod History
use ipa_now.Common.{
  ℕ, String, ◌≡◌, refl, ◌⊎◌, inl, inr, Bool, true, false, not, ◌&&◌, ◌||◌, arith, List, [], ◌∷◌,
  ◌==◌, All, All-mono, All-append, All-update_row, find, find-sat, count, some, none, Option,
  Bool-cases, leb, if◌then◌else◌, Option-cases,
}
use ipa_now.Jobs.Model.{State, cleaning, Job, Db, Device, terminal, can_transition}
use ipa_now.Jobs.Rows.{awaits_review, has_id, Field, phase, set_field, set_fields}

abbrev pub has_error : Job → Bool
has_error j = not (j.cleanup_error == "")

-- A job with a cleanup error is over, or it is cleaning and the device is quarantined.
pub data Okay (quarantined : Bool) (j : Job) : Type 0 where
  unmarked : has_error j ≡ false → Okay quarantined j
  held : j.state ≡ cleaning → quarantined ≡ true → Okay quarantined j
  over : terminal j.state ≡ true → Okay quarantined j

abbrev pub Reviewed : Db → Type 0
Reviewed db = All (Okay db.device.quarantined) db.jobs

pub Okay-quarantined : (q : Bool) (j : Job) → Okay q j → Okay true j
Okay-quarantined q j (unmarked e) = unmarked e
Okay-quarantined q j (held s _) = held s refl
Okay-quarantined q j (over t) = over t

-- An update that touches neither the error nor a state from which it could matter.
pub Okay-same :
    (q : Bool) (j k : Job)
    → j.cleanup_error ≡ k.cleanup_error
    → j.state ≡ k.state
    → Okay q j
    → Okay q k
Okay-same q j k e s (unmarked u) = unmarked (ground arith)
Okay-same q j k e s (held c t) = held (ground arith) t
Okay-same q j k e s (over t) = over (ground arith)

pub Okay-moved :
    (q : Bool) (j k : Job)
    → j.cleanup_error ≡ k.cleanup_error
    → can_transition j.state k.state ≡ true
    → Okay q j
    → Okay q k
unfolding can_transition
Okay-moved q j k e m (unmarked u) = unmarked (ground arith)
Okay-moved q j k e m (held c t) = over (ground arith)
Okay-moved q j k e m (over t) = ground arith

-- Without a job under review the quarantine may end.
pub none_awaits :
    (q : Bool) (xs : List Job) → count awaits_review xs ≡ 0 → All (Okay q) xs → All (Okay false) xs
unfolding count awaits_review
none_awaits q [] e h = tt
none_awaits q (x ∷ xs) e (unmarked u, hs) = (unmarked u, none_awaits q xs (ground arith) hs)
none_awaits q (x ∷ xs) e (held s t, hs) = elim (Bool-cases (has_error x)) [
  | inl m ↦ absurd (ground arith)
  | inr u ↦ (unmarked u, none_awaits q xs (ground arith) hs)
]
none_awaits q (x ∷ xs) e (over t, hs) = (over t, none_awaits q xs (ground arith) hs)

-- A job under review is a job with an error, and not over.
pub Okay-awaits : (q : Bool) (j : Job) → awaits_review j ≡ true → Okay q j → q ≡ true
unfolding awaits_review terminal
Okay-awaits q j a (unmarked u) = ground arith
Okay-awaits q j a (held s t) = t
Okay-awaits q j a (over t) = ground arith

set_field_error : (f : Field) (j : Job) → (set_field f j).cleanup_error ≡ j.cleanup_error
unfolding set_field
set_field_error (phase v) j = refl
set_field_error _ j = refl

pub set_fields_error :
    (fs : List Field) (j : Job) → (set_fields fs j).cleanup_error ≡ j.cleanup_error
unfolding set_fields
set_fields_error [] j = refl
set_fields_error (f ∷ fs) j =
    ground (arith, set_fields_error fs (set_field f j), set_field_error f j)
