-- ===== src/Engine/Adapter.antt =====
-- `Decrypt` of the adapter (internal/engine/engine.go): what comes before and after the call of the library.
use ipa_now.Common.{
  ℕ, String, Bool, true, false, not, ◌&&◌, ◌==◌, Option, none, some, List, [], ◌∷◌, if◌then◌else◌,
}
use ipa_now.Jobs.Tx.{Disk, Result, ok, err}
use ipa_now.Jobs.Journal.{start_operation}
use ipa_now.Secrets.Session.{
  Account, Settings, SessionFile, Loaded, unconfigured, refused, account, load, save,
}
use ipa_now.Worker.World.{Request, Reply, Fault, failure}
use ipa_now.Worker.Attempts.{no_reply}
use ipa_now.Engine.Transport.{Active, scope, release}
use ipa_now.Engine.Library.{Answer, read_answer}

-- The fields of `Adapter`, and how the calls of one `Decrypt` end. `has_journal` is the test of the journal,
-- `context` is the job's context, `operation` the random ID of its operation, `login` and `library` are
-- the library, and `updates` are the accounts that it saves, each with the failures of the save.
pub record Setup (Text : Type 0) : Type 0 where
  pub settings : Settings
  pub decode : Account → Text → Option Account
  pub encode : Account → Text
  pub stat_fails : Bool
  pub read_fails : Bool
  pub has_transport : Bool
  pub has_journal : Bool
  pub context : ℕ
  pub operation : String
  pub login : Account → Option Account
  pub saved : Bool × Bool
  pub library : Option Account → Answer
  pub updates : List (Account × Bool × Bool)

-- The job database, the session file, the transport, and the operations with which the library was called
pub record Bench (Text : Type 0) : Type 0 where
  pub disk : Disk
  pub session : Option (SessionFile Text)
  pub active : Active
  pub calls : List (String × Option Account)

-- A step goes on, or `Decrypt` returns a failure with the code.
pub data Step (A : Type 0) : Type 0 where
  next : A → Step A
  fails : String → Step A

module _ {Text : Type 0} (s : Setup Text) where
  abbrev pub Steps : Type 0 → Type 0
  Steps A = Bench Text → Step A × Bench Text

  abbrev pub proceed : {A B : Type 0} → Step A → (A → Steps B) → Steps B
  proceed (next a) f b = f a b
  proceed (fails c) f b = (fails c, b)

  unfoldable pub and_then : {A B : Type 0} → Steps A → (A → Steps B) → Steps B
  and_then m f b = let (r, b') = m b in proceed r f b'

  abbrev pub scope_result : Bool × Active → Bench Text → Step Unit × Bench Text
  scope_result (true, a) b = (next tt, record b { active = a })
  scope_result (false, a) b = (fails "device_unavailable", record b { active = a })

  -- `has_transport` is whether the adapter has a transport.
  unfoldable pub take_scope : (has_transport : Bool) → Steps Unit
  unfolding scope
  take_scope false b = (next tt, b)
  take_scope true b = scope_result (scope s.context b.active) b

  abbrev pub found : Loaded → Step (Option Account)
  found unconfigured = next none
  found refused = fails "account_unavailable"
  found (account a) = next (some a)

  unfoldable pub load_account : Steps (Option Account)
  unfolding load
  load_account b =
      (found (load s.decode s.encode s.settings s.stat_fails s.read_fails b.session), b)

  unfoldable pub save_account : Account → Steps (Option Account)
  unfolding save
  save_account a b =
      let (done, f) = save s.decode s.encode s.settings s.saved.0 s.saved.1 a b.session in
      (if done then next (some a) else fails "account_unavailable", record b { session = f })

  abbrev pub logged_in : Option Account → Steps (Option Account)
  logged_in none b = (fails "authentication_failed", b)
  logged_in (some a) b = save_account a b

  -- A session without a token logs in, unless the app is an installed one.
  unfoldable pub log_in : Request → Option Account → Steps (Option Account)
  unfolding save_account
  log_in r none b = (next none, b)
  log_in r (some a) b =
      if (a.password_token == "") && not (r.source == "installed")
      then logged_in (s.login a) b
      else (next (some a), b)

  abbrev pub begun : Result String × Disk → Bench Text → Step String × Bench Text
  begun (ok op, d) b = (next op, record b { disk = d })
  begun (err e, d) b = (fails "storage_failed", record b { disk = d })

  -- The operation is stored before the library may touch the device.
  unfoldable pub start : Request → Steps String
  unfolding start_operation
  start r b =
      if s.has_journal
      then begun (start_operation s.operation r.id b.disk) b
      else (fails "storage_failed", b)

  -- `OnAccountUpdate`
  unfoldable pub update_account :
      List (Account × Bool × Bool) → Option (SessionFile Text) → Option (SessionFile Text)
  unfolding save
  update_account [] f = f
  update_account ((a, before, after) ∷ xs) f =
      update_account xs (save s.decode s.encode s.settings before after a f).1

  unfoldable pub call_library : Option Account → String → Steps Answer
  unfolding update_account
  call_library a op b = (
    next (s.library a),
    record b { session = update_account s.updates b.session; calls = (op, a) ∷ b.calls },
  )

  -- What follows the scope
  unfoldable pub in_scope : Request → Steps Answer
  in_scope r =
      and_then load_account
        λ a. and_then (log_in r a) λ a'. and_then (start r) λ op. call_library a' op

  abbrev pub returned : Step Answer → Reply × Option Fault
  returned (next a) = read_answer a
  returned (fails c) = (no_reply, some (failure c false false))

  abbrev pub scope_left : Bool → Bench Text → Bench Text
  scope_left false b = b
  scope_left true b = record b { active = release b.active }

  abbrev pub scope_taken :
      Request → Bool → Step Unit → Bench Text → (Reply × Option Fault) × Bench Text
  scope_taken r t (fails c) b = ((no_reply, some (failure c false false)), b)
  scope_taken r t (next _) b = let (a, b') = in_scope r b in (returned a, scope_left t b')

  unfoldable pub decrypt : Request → Bench Text → (Reply × Option Fault) × Bench Text
  unfolding take_scope in_scope read_answer release
  decrypt r b = let (t, b') = take_scope s.has_transport b in scope_taken r s.has_transport t b'
