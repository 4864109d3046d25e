-- ===== src/Engine/Decrypted.antt =====
-- What a call of `Decrypt` comes to: whether the library was called, under which operation, and what the worker is
-- told of it.
use ipa_now.Common.{
  String, ◌≡◌, refl, Bool, true, false, not, ◌&&◌, ◌==◌, Option, none, some, List, ◌∷◌,
  if◌then◌else◌, Bool-cases, inl, inr, ap,
}
use ipa_now.Jobs.Tx.{Error, Disk, Result, ok, err}
use ipa_now.Jobs.Atomic.{transaction_atomic}
use ipa_now.Jobs.Journal.{start_operation}
use ipa_now.Jobs.Startup.{Leased, start_operation-Leased}
use ipa_now.Secrets.Session.{Account, Loaded, unconfigured, refused, account, load}
use ipa_now.Worker.World.{Request, Reply, Fault, failure}
use ipa_now.Worker.Attempts.{no_reply}
use ipa_now.Engine.Transport.{Active, scope, release}
use ipa_now.Engine.Library.{Answer, read_answer}
use ipa_now.Engine.Adapter.{
  Setup, Bench, Step, next, fails, proceed, and_then, scope_result, take_scope, found, load_account,
  save_account, logged_in, log_in, begun, start, call_library, in_scope, returned, scope_left,
  scope_taken, decrypt,
}

module _ {Text : Type 0} (s : Setup Text) (r : Request) where
  -- The library was not called, and the tables are as they were; or it was called, with an operation that is
  -- stored for the job that owns the device.
  pub data Decrypted (d : Disk) (calls : List (String × Option Account))
      (told : Reply × Option Fault) (v : Bench Text) : Type 0 where
    early :
        (code : String)
        → told ≡ (no_reply, some (failure code false false))
        → v.disk.db ≡ d.db
        → v.calls ≡ calls
        → Decrypted d calls told v
    called :
        (a : Option Account)
        → told ≡ read_answer (s.library a)
        → v.calls ≡ (s.operation, a) ∷ calls
        → Leased d s.operation r.id v.disk.db
        → Decrypted d calls told v

  -- The same of the steps in the scope
  data Ended (d : Disk) (calls : List (String × Option Account)) (active : Active) (x : Step Answer)
      (v : Bench Text) : Type 0 where
    stopped :
        (code : String)
        → x ≡ fails code
        → v.disk.db ≡ d.db
        → v.calls ≡ calls
        → v.active ≡ active
        → Ended d calls active x v
    answered :
        (a : Option Account)
        → x ≡ next (s.library a)
        → v.calls ≡ (s.operation, a) ∷ calls
        → Leased d s.operation r.id v.disk.db
        → v.active ≡ active
        → Ended d calls active x v

  -- A step that calls nothing
  abbrev Quiet : {A : Type 0} → (Bench Text → Step A × Bench Text) → Type 0
  Quiet m =
      (b : Bench Text)
      → ((m b).1.disk ≡ b.disk) × ((m b).1.calls ≡ b.calls) × ((m b).1.active ≡ b.active)

  save_account-Quiet : (a : Account) → Quiet (save_account s a)
  unfolding save_account
  save_account-Quiet a b = (refl, refl, refl)

  log_in-Quiet : (a : Option Account) → Quiet (log_in s r a)
  unfolding log_in
  log_in-Quiet none b = (refl, refl, refl)
  log_in-Quiet (some a) b =
      elim (Bool-cases ((a.password_token == "") && not (r.source == "installed"))) [
        | inl e ↦ rw (e, if◌then◌else◌) (tried (s.login a))
        | inr e ↦ rw (e, if◌then◌else◌) (refl, refl, refl)
      ]
    where
      tried :
          (o : Option Account)
          → ((logged_in s o b).1.disk ≡ b.disk)
            × ((logged_in s o b).1.calls ≡ b.calls)
            × ((logged_in s o b).1.active ≡ b.active)
      tried none = (refl, refl, refl)
      tried (some a) = save_account-Quiet a b

  start-Ended :
      (a : Option Account) (b : Bench Text)
      → Ended b.disk b.calls b.active
          (and_then s (start s r) (call_library s a) b).0
          (and_then s (start s r) (call_library s a) b).1
  unfolding and_then start call_library start_operation
  start-Ended a b = checked s.has_journal
    where
      ended :
          (t : Result String × Disk)
          → ((op : String)
              → t.0 ≡ ok op
              → (op ≡ s.operation) × Leased b.disk s.operation r.id t.1.db)
          → ((x : Error) → t.0 ≡ err x → t.1.db ≡ b.disk.db)
          → Ended b.disk b.calls b.active
              (proceed s (begun s t b).0 (call_library s a) (begun s t b).1).0
              (proceed s (begun s t b).0 (call_library s a) (begun s t b).1).1
      ended (ok op, d) f g =
          let (same, leased) = f op refl in
          answered a refl (ap (λ o. (o, a) ∷ b.calls) same) leased refl
      ended (err x, d) f g = stopped "storage_failed" refl (g x refl) refl refl

      tried : Bool → Step String × Bench Text
      tried h =
          if h
          then begun s (start_operation s.operation r.id b.disk) b
          else (fails "storage_failed", b)

      checked :
          (h : Bool)
          → Ended b.disk b.calls b.active
              (proceed s (tried h).0 (call_library s a) (tried h).1).0
              (proceed s (tried h).0 (call_library s a) (tried h).1).1
      checked false = stopped "storage_failed" refl refl refl refl
      checked true =
          ended (start_operation s.operation r.id b.disk)
            (λ op x. start_operation-Leased s.operation r.id op b.disk x)
            (λ x g. transaction_atomic _ b.disk x g)

  Ended-same :
      (d e : Disk) (cs ds : List (String × Option Account)) (i j : Active) (x : Step Answer)
      (v : Bench Text)
      → d ≡ e
      → cs ≡ ds
      → i ≡ j
      → Ended d cs i x v
      → Ended e ds j x v
  Ended-same d e cs ds i j x v p q o h = rw⁻¹ (p, q, o) h

  login-Ended :
      (a : Option Account) (b : Bench Text)
      → Ended b.disk b.calls b.active
          (and_then s (log_in s r a) (λ a'. and_then s (start s r) (call_library s a')) b).0
          (and_then s (log_in s r a) (λ a'. and_then s (start s r) (call_library s a')) b).1
  unfolding and_then
  login-Ended a b = ended (log_in s r a b) (log_in-Quiet a b)
    where
      ended :
          (t : Step (Option Account) × Bench Text)
          → (t.1.disk ≡ b.disk) × (t.1.calls ≡ b.calls) × (t.1.active ≡ b.active)
          → Ended b.disk b.calls b.active
              (proceed s t.0 (λ a'. and_then s (start s r) (call_library s a')) t.1).0
              (proceed s t.0 (λ a'. and_then s (start s r) (call_library s a')) t.1).1
      ended (fails c, v) (d, cs, i) = stopped c refl (ap (λ x. x.db) d) cs i
      ended (next a', v) (d, cs, i) =
          Ended-same v.disk b.disk v.calls b.calls v.active b.active _ _ d cs i (start-Ended a' v)

  scope-Ended :
      (b : Bench Text) → Ended b.disk b.calls b.active (in_scope s r b).0 (in_scope s r b).1
  unfolding in_scope and_then load_account
  scope-Ended b = ended (load s.decode s.encode s.settings s.stat_fails s.read_fails b.session)
    where
      ended :
          (l : Loaded)
          → Ended b.disk b.calls b.active
              (proceed s
                (found s l)
                (λ a. and_then s (log_in s r a) (λ a'. and_then s (start s r) (call_library s a')))
                b).0
              (proceed s
                (found s l)
                (λ a. and_then s (log_in s r a) (λ a'. and_then s (start s r) (call_library s a')))
                b).1
      ended unconfigured = login-Ended none b
      ended refused = stopped "account_unavailable" refl refl refl refl
      ended (account a) = login-Ended (some a) b

  told-Decrypted :
      (d : Disk) (cs : List (String × Option Account)) (i : Active) (x : Step Answer)
      (v : Bench Text)
      → Ended d cs i x v
      → Decrypted d cs (returned s x) v
  told-Decrypted d cs i x v (stopped c e db calls _) = early c (ap (returned s) e) db calls
  told-Decrypted d cs i x v (answered a e calls leased _) =
      called a (ap (returned s) e) calls leased

  left-Decrypted :
      (d : Disk) (cs : List (String × Option Account)) (told : Reply × Option Fault)
      (v : Bench Text)
      → Decrypted d cs told v
      → Decrypted d cs told (scope_left s true v)
  left-Decrypted d cs told v (early c e db calls) = early c e db calls
  left-Decrypted d cs told v (called a e calls leased) = called a e calls leased

  same_active :
      (d : Disk) (cs : List (String × Option Account)) (i : Active) (x : Step Answer)
      (v : Bench Text)
      → Ended d cs i x v
      → v.active ≡ i
  same_active d cs i x v (stopped c e db calls h) = h
  same_active d cs i x v (answered a e calls leased h) = h

  -- A call of `Decrypt` leaves the scope as it was; and either the library was not called, the worker is told of a
  -- failure that is final and needs no review, and the tables are as they were; or the library was called once, under
  -- an operation that was stored before for the job that owns the device, and the worker is told its answer.
  pub decrypt-Decrypted :
      (b : Bench Text)
      → Decrypted b.disk b.calls (decrypt s r b).0 (decrypt s r b).1
        × ((decrypt s r b).1.active ≡ b.active)
  unfolding decrypt take_scope scope release
  decrypt-Decrypted b = by_transport s.has_transport
    where
      by_scope :
          (i : Active)
          → Decrypted b.disk b.calls
              (scope_taken s r true
                (scope_result s (scope s.context i) b).0
                (scope_result s (scope s.context i) b).1).0
              (scope_taken s r true
                (scope_result s (scope s.context i) b).0
                (scope_result s (scope s.context i) b).1).1
            × ((scope_taken s r true
                  (scope_result s (scope s.context i) b).0
                  (scope_result s (scope s.context i) b).1).1.active
                ≡ i)
      by_scope none = (left-Decrypted _ _ _ _ (told-Decrypted _ _ _ _ _ (scope-Ended _)), refl)
      by_scope (some other) = (early "device_unavailable" refl refl refl, refl)

      by_transport :
          (t : Bool)
          → Decrypted b.disk b.calls
              (scope_taken s r t (take_scope s t b).0 (take_scope s t b).1).0
              (scope_taken s r t (take_scope s t b).0 (take_scope s t b).1).1
            × ((scope_taken s r t (take_scope s t b).0 (take_scope s t b).1).1.active ≡ b.active)
      by_transport false = (
        told-Decrypted _ _ b.active _ _ (scope-Ended b),
        same_active _ _ b.active _ _ (scope-Ended b),
      )
      by_transport true = by_scope b.active
