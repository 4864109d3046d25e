-- ===== src/Engine/Library.antt =====
-- What the decryption library answers, and how the adapter reads it (internal/engine/engine.go).
use ipa_now.Common.{
  ℕ, Bool, true, false, not, ◌&&◌, ◌||◌, Option, none, some, List, [], ◌∷◌, nat_eq, if◌then◌else◌,
}
use ipa_now.Worker.World.{Reply, Fault, failure}

-- `ipa.Result`: `is_ok` is `Verification.OK()`, and `missing` is the number of its missing files.
pub record Output : Type 0 where
  pub bundle_id : List ℕ
  pub version : List ℕ
  pub installed : Bool
  pub reinstalled : Bool
  pub uninstalled : Bool
  pub is_ok : Bool
  pub scanned : ℕ
  pub missing : ℕ

-- An error, by what `errors.Is` and `errors.As` find in it. `unknown_lock` says whether its text has "cannot
-- determine device lock state" in it.
pub record Trouble : Type 0 where
  pub is_unconfirmed : Bool
  pub is_locked : Bool
  pub unknown_lock : Bool
  pub is_unverified : Bool
  pub is_network : Bool

-- The phases of the events that it sends
pub data Phase : Type 0 where
  connecting probing resolving downloading patching installing decrypting assembling : Phase
  verifying cleaning complete another : Phase

-- One call of `Decrypt`; `is_done` is whether the context is done after it.
pub record Answer : Type 0 where
  pub result : Option Output
  pub trouble : Option Trouble
  pub phases : List Phase
  pub is_done : Bool

abbrev pub touches : Phase → Bool
touches connecting = false
touches cleaning = false
touches _ = true

-- `touched`: some event was of a phase that works on the device.
unfoldable pub touched : List Phase → Bool
touched [] = false
touched (p ∷ ps) = touches p || touched ps

abbrev pub is_good : Output → Bool
is_good x = x.is_ok && not (nat_eq x.scanned 0) && nat_eq x.missing 0

abbrev pub verified : Option Output → Bool
verified none = false
verified (some x) = is_good x

-- `metadata`
abbrev pub metadata : Option Output → Reply
metadata none = record {
  installed = false;
  replaced = false;
  uninstalled = false;
  needs_review = true;
  bundle_id = [];
  version = [];
}
metadata (some x) = record {
  installed = x.installed;
  replaced = x.reinstalled;
  uninstalled = x.uninstalled;
  needs_review = true;
  bundle_id = x.bundle_id;
  version = x.version;
}

unfoldable pub classify : Trouble → Bool → Bool → Fault
classify t is_touched is_done =
    if t.is_locked
    then failure "device_locked" t.unknown_lock true
    else if t.is_unverified
    then failure "verification_failed" false true
    else if is_done
    then failure "interrupted" false true
    else if not is_touched && t.is_network
    then failure "device_unavailable" true true
    else failure "decryption_failed" false true

-- A verified output passes also if only the cleanup is unconfirmed.
unfoldable pub fault_of : Answer → Option Trouble → Option Fault
unfolding touched classify
fault_of a none =
    if verified a.result then none else some (failure "verification_failed" false true)
fault_of a (some t) =
    if verified a.result && t.is_unconfirmed && not a.is_done
    then none
    else some (classify t (touched a.phases) a.is_done)

-- What `Decrypt` returns after the call
unfoldable pub read_answer : Answer → Reply × Option Fault
unfolding fault_of
read_answer a = (metadata a.result, fault_of a a.trouble)

-- `Verify` of an archive; `none` is an error of the library.
unfoldable pub verify : Option Output → Bool
verify o = verified o
