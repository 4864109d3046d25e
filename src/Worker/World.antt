-- ===== src/Worker/World.antt =====
-- The world of the worker: the job database, the private files, and the engine behind the device
-- (internal/worker, and the interface of internal/engine). The worker's own step n is its n-th call of
-- the database, the file system, the engine or the clock.
use ipa_now.Common.{ℕ, suc, String, Bool, Option, List, if◌then◌else◌}
use ipa_now.Jobs.Tx.{Error, storage, Result, ok, err, Disk, Tx, Done}
use ipa_now.Jobs.Calls.{Call, run}
use ipa_now.Storage.{Temporary, Files}
use ipa_now.Storage.Ipa.{Archive}

-- `engine.Request`, less the callback and the workspace, which the ID gives
pub record Request : Type 0 where
  pub id : String
  pub target : String
  pub source : String

-- `engine.Result`
pub record Reply : Type 0 where
  pub installed : Bool
  pub replaced : Bool
  pub uninstalled : Bool
  pub needs_review : Bool
  pub bundle_id : List ℕ
  pub version : List ℕ

-- What `errors.As` finds in an error: an `engine.Failure`, or none.
pub data Fault : Type 0 where
  failure : String → Bool → Bool → Fault
  other : Fault

-- One call of `Decrypt`: what it returns, and whether it leaves an output and which temporary files.
pub record Decryption : Type 0 where
  pub reply : Reply
  pub fault : Option Fault
  pub output : Bool
  pub temporary : List Temporary

-- One call of `Cleanup` under its deadline.
pub record Cleaning : Type 0 where
  pub late : Bool
  pub failed : Bool
  pub confirmed : Bool
  pub uninstalled : Bool

-- `others n` is what the monitor, the engine and the HTTP handlers call of the store before step n,
-- `time n` is the clock, and `expired n` says whether the job's context is done. `monitored` is the
-- error with which the monitor ends.
pub record Env : Type 0 where
  pub others : ℕ → List (ℕ × Call)
  pub time : ℕ → ℕ
  pub expired : ℕ → Bool
  pub monitored : Option Error
  pub decrypts : ℕ → Request → Decryption
  pub is_cleaner : Bool
  pub cleans : ℕ → String → Cleaning
  pub archive : ℕ → Option Archive
  pub lower : List ℕ → List ℕ
  pub verifies : ℕ → Bool
  pub digest : ℕ → ℕ × String
  pub max_attempts : ℕ
  pub retention : ℕ

pub record World : Type 0 where
  pub disk : Disk
  pub files : Files
  pub step : ℕ

abbrev pub Work : Type 0 → Type 0
Work A = World → Result A × World

module _ {A B : Type 0} where
  abbrev pub proceed : Result A → (A → Work B) → Work B
  proceed (ok a) f w = f a w
  proceed (err e) f w = (err e, w)

  infixl 5 ◌>>=◌ ◌>>◌
  unfoldable pub ◌>>=◌ : Work A → (A → Work B) → Work B
  ◌>>=◌ m f w = let (r, w') = m w in proceed r f w'

  abbrev pub ◌>>◌ : Work A → Work B → Work B
  m >> k = m >>= λ _. k

  -- `if err := m(); err != nil { ... }`: the error is looked at, and not returned.
  unfoldable pub attempt : (Result A → Work B) → Work A → Work B
  attempt f m w = let (r, w') = m w in f r w'

module _ {A : Type 0} where
  unfoldable pub pure : A → Work A
  pure a w = (ok a, w)

  unfoldable pub fail : Error → Work A
  fail e w = (err e, w)

abbrev pub advance : World → World
advance w = record w { step = suc w.step }

-- One call of the store, after those of the others.
abbrev pub before : Env → World → Disk
before env w = record (run w.disk (env.others w.step)) { now = env.time w.step }

unfoldable pub call : {A : Type 0} → Env → Tx A → Work A
call env m w = let (r, d) = m (before env w) in (r, record w { disk = d; step = suc w.step })

-- One call of `storage.Store`, and whether it succeeded.
unfoldable pub file : (Files → Bool × Files) → Work Bool
file f w = let (b, g) = f w.files in (ok b, record w { files = g; step = suc w.step })

-- `if err := ...; err != nil { return err }` for a call that is no call of the job store
unfoldable pub require : Bool → Work Done
unfolding pure fail
require b = if b then pure tt else fail storage

-- What the n-th step is told by the world.
unfoldable pub ask : {A : Type 0} → (ℕ → A) → Work A
ask f w = (ok (f w.step), advance w)
