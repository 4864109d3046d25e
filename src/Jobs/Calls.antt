-- ===== src/Jobs/Calls.antt =====
-- The calls that the rest of the service makes of the job store, as data, and a history of them.
use ipa_now.Common.{ℕ, String, List, [], ◌∷◌}
use ipa_now.Jobs.Model.{State, Job}
use ipa_now.Jobs.Tx.{Result, ok, err, Disk, Tx, Done}
use ipa_now.Jobs.Rows.{Field}
use ipa_now.Jobs.Queue.{enqueue, claim, change, progress, cancel, retry, metadata}
use ipa_now.Jobs.Cleanup.{release, quarantine, resolve, resolve_automatic, recover, begin_cleanup}
use ipa_now.Jobs.Journal.{start_operation}

pub data Call : Type 0 where
  enqueues : Job → ℕ → Call
  claims recovers : Call
  changes : String → State → List Field → Call
  progresses : String → String → ℕ → ℕ → Call
  cancels releases resolves resolves_automatic retries : String → Call
  quarantines : String → String → State → Call
  writes_metadata : String → List Field → Call
  begins_cleanup : String → State → String → String → Call
  starts_operation : String → String → Call

abbrev pub drop : {A : Type 0} → Result A × Disk → Result Done × Disk
drop (ok _, d) = (ok tt, d)
drop (err e, d) = (err e, d)

unfoldable pub exec : Call → Tx Done
exec (enqueues j limit) d = enqueue j limit d
exec claims d = drop (claim d)
exec recovers d = recover d
exec (changes id to fields) d = change id to fields d
exec (progresses id label current total) d = progress id label current total d
exec (cancels id) d = cancel id d
exec (releases id) d = release id d
exec (resolves id) d = resolve id d
exec (resolves_automatic id) d = resolve_automatic id d
exec (retries id) d = retry id d
exec (quarantines id reason desired) d = quarantine id reason desired d
exec (writes_metadata id fields) d = metadata id fields d
exec (begins_cleanup id desired code message) d = drop (begin_cleanup id desired code message d)
exec (starts_operation op id) d = drop (start_operation op id d)

-- A history: the calls are serialised, since the store opens one connection. Time passes between
-- them.
unfoldable pub run : Disk → List (ℕ × Call) → Disk
run d [] = d
run d ((t, c) ∷ cs) = run (exec c (record d { now = t })).1 cs
