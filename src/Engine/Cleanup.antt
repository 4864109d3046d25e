-- ===== src/Engine/Cleanup.antt =====
-- `Cleanup` of the adapter (internal/engine/engine.go): the library reports on each operation of the job.
use ipa_now.Common.{
  ℕ, suc, String, Bool, true, false, not, ◌&&◌, ◌||◌, List, [], ◌∷◌, if◌then◌else◌,
}
use ipa_now.Jobs.Tx.{Disk, Result, ok, err}
use ipa_now.Jobs.Journal.{operations}

-- `ipa.CleanupReport`, with whether there is an error
pub record Report : Type 0 where
  pub confirmed : Bool
  pub uninstalled : Bool
  pub failed : Bool

-- `CleanupResult`, with whether there is an error
pub record Cleaned : Type 0 where
  pub is_confirmed : Bool
  pub is_uninstalled : Bool
  pub has_error : Bool

abbrev pub refused : Cleaned
refused = record { is_confirmed = false; is_uninstalled = false; has_error = true }

abbrev pub with_report : Cleaned → Report → Cleaned
with_report c r = record {
  is_confirmed = c.is_confirmed && r.confirmed && not r.failed;
  is_uninstalled = c.is_uninstalled || r.uninstalled;
  has_error = c.has_error || r.failed;
}

-- `is_done n` is whether the context is done before the n-th call of the library, and `reports` are its reports.
module _ (is_done : ℕ → Bool) (reports : ℕ → String → Report) where
  unfoldable pub cleanup_each : ℕ → Cleaned → List String → Cleaned
  cleanup_each n c [] = c
  cleanup_each n c (op ∷ ops) =
      let rest = cleanup_each (suc n) (with_report c (reports n op)) ops in
      if is_done n then refused else rest

  abbrev pub cleanup_all : List String → Cleaned
  cleanup_all [] = refused
  cleanup_all (op ∷ ops) =
      cleanup_each 0 (record { is_confirmed = true; is_uninstalled = false; has_error = false })
        (op ∷ ops)

  abbrev pub listed : Result (List String) × Disk → Cleaned × Disk
  listed (ok ops, d) = (cleanup_all ops, d)
  listed (err e, d) = (refused, d)

  unfoldable pub cleanup : (has_journal : Bool) → String → Disk → Cleaned × Disk
  unfolding operations cleanup_each
  cleanup false id d = (refused, d)
  cleanup true id d = listed (operations id d)
