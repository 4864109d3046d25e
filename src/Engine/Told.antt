-- ===== src/Engine/Told.antt =====
-- What the worker may conclude from what `Decrypt` tells it.
use ipa_now.Common.{
  String, ◌≡◌, refl, arith, sym, ap, ◌∙◌, Bool, true, false, not, ◌&&◌, ◌||◌, Option, none, some,
  ◌∷◌,
}
use ipa_now.Secrets.Session.{Account}
use ipa_now.Worker.World.{Request, Reply, Fault, failure}
use ipa_now.Engine.Library.{
  Answer, Output, Trouble, fault_of, read_answer, classify, verified, metadata, touched,
}
use ipa_now.Engine.Adapter.{Setup, Bench, decrypt}
use ipa_now.Engine.Decrypted.{Decrypted, early, called, decrypt-Decrypted}

fault_of-verified :
    (a : Answer) (o : Option Trouble) → fault_of a o ≡ none → verified a.result ≡ true
unfolding fault_of
fault_of-verified a none h = ground arith
fault_of-verified a (some t) h = ground arith

metadata-review : (o : Option Output) → (metadata o).needs_review ≡ true
metadata-review none = refl
metadata-review (some x) = refl

-- The worker tries again only after such a failure: the lock of the device could not be read, or the network failed
-- before the device was touched.
abbrev pub IsTransient : Answer → Type 0
IsTransient a =
    (t : Trouble) × (a.trouble ≡ some t)
    × (((t.is_locked && t.unknown_lock)
          || (not (touched a.phases) && t.is_network && not a.is_done))
        ≡ true)

retried :
    (a : Answer) (o : Option Trouble) (code : String) (review : Bool)
    → a.trouble ≡ o
    → fault_of a o ≡ some (failure code true review)
    → IsTransient a × (review ≡ true)
unfolding fault_of classify
retried a none code review e h = absurd (ground arith)
retried a (some t) code review e h = ((t, e, ground arith), ground arith)

module _ {Text : Type 0} (s : Setup Text) (r : Request) (b : Bench Text) where
  -- What follows from what the worker is told
  pub record Told (told : Reply × Option Fault) (v : Bench Text) : Type 0 where
    -- without a failure the output is verified, that the library answered in its one call
    pub success :
        told.1 ≡ none
        → (a : Option Account) × (v.calls ≡ (s.operation, a) ∷ b.calls)
          × (verified (s.library a).result ≡ true)
    -- what may be tried again failed in passing, and asks for a review of the device
    pub retry :
        (code : String) (review : Bool)
        → told.1 ≡ some (failure code true review)
        → ((a : Option Account) × (v.calls ≡ (s.operation, a) ∷ b.calls)
            × IsTransient (s.library a))
          × (review ≡ true)
    -- without a review to do, the library was not called
    pub unused : told.0.needs_review ≡ false → (v.calls ≡ b.calls) × (v.disk.db ≡ b.disk.db)

  concluded :
      (told : Reply × Option Fault) (v : Bench Text)
      → Decrypted s r b.disk b.calls told v
      → Told told v
  unfolding read_answer
  concluded told v (early code e db calls) = record {
    success = λ h. absurd (no_success h);
    retry = λ c review h. absurd (no_retry c review h);
    unused = λ h. (calls, db);
  }
    where
      no_success : told.1 ≡ none → ⊥
      no_success h = ground (arith, e, h)

      no_retry : (c : String) (review : Bool) → told.1 ≡ some (failure c true review) → ⊥
      no_retry c review h = ground (arith, e, h)
  concluded told v (called a e calls leased) = record {
    success = λ h. (
      a,
      calls,
      fault_of-verified (s.library a) (s.library a).trouble (sym (ap (λ x. x.1) e) ∙ h),
    );
    retry = λ c review h.
        let (transient, reviewed) =
          retried (s.library a) (s.library a).trouble c review refl (sym (ap (λ x. x.1) e) ∙ h) in
        ((a, calls, transient), reviewed);
    unused = λ h. absurd (no_review h);
  }
    where
      no_review : told.0.needs_review ≡ false → ⊥
      no_review h =
          let shown : told.0.needs_review ≡ true =
            ap (λ x. x.0.needs_review) e ∙ metadata-review (s.library a).result in
          cc (shown, h)

  -- When the worker is told of no failure, the library was called once and its answer is a verified output; a failure
  -- that may be tried again comes from its one call too, and is one in passing: the state of the lock could not be read,
  -- whatever else it had done on the device, or the network failed before the device was touched; and it asks for a
  -- review; and if no review is asked for, the library was not called and the tables are as they were.
  pub decrypt-Told : Told (decrypt s r b).0 (decrypt s r b).1
  decrypt-Told = concluded (decrypt s r b).0 (decrypt s r b).1 (decrypt-Decrypted s r b).0
