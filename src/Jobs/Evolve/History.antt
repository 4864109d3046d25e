-- ===== src/Jobs/Evolve/History.antt =====
-- Any call, and any history of calls: states only move forward, and nothing accepted is taken back.
use ipa_now.Common.{ℕ, ◌≤◌, ◌<◌, String, ◌≡◌, refl, ◌⊎◌, true, arith, List, [], ◌∷◌, find, some}
use ipa_now.Jobs.Model.{
  State, unset, queued, running, verifying, cleaning, completed, failed, cancelled, Job,
  can_transition, terminal,
}
use ipa_now.Jobs.Tx.{Disk, Result, ok, err}
use ipa_now.Jobs.Rows.{has_id}
use ipa_now.Jobs.Cleanup.{resolve, resolve_automatic}
use ipa_now.Jobs.Calls.{
  Call, drop, enqueues, claims, recovers, changes, progresses, cancels, releases, resolves,
  resolves_automatic, retries, quarantines, writes_metadata, begins_cleanup, starts_operation, exec,
  run,
}
use ipa_now.Jobs.Evolve.Table.{Evolves, Evolves-refl, Evolves-trans, Evolves-mono, find-Evolves}
use ipa_now.Jobs.Evolve.Rows.{Advances, Distinct, Good}
use ipa_now.Jobs.Evolve.QueueCalls.{
  enqueue-Keeps, change-Keeps, progress-Keeps, cancel-Keeps, retry-Keeps, metadata-Keeps,
}
use ipa_now.Jobs.Evolve.CleanupCalls.{
  claim-Keeps, release-Keeps, quarantine-Keeps, resolve_as-Keeps, begin_cleanup-Keeps,
  start_operation-Keeps,
}
use ipa_now.Jobs.Evolve.Recovery.{recover-Keeps}

pub drop-db : {A : Type 0} (r : Result A × Disk) → (drop r).1 ≡ r.1
drop-db (ok a, d) = refl
drop-db (err e, d) = refl

-- Every call of the store, whether it succeeds or fails, moves each job along at most one edge of
-- `CanTransition`, keeps its ID, target, source and creation time, keeps an accepted cancellation
-- and never lowers its attempts; it deletes no job, and keeps the IDs distinct.
pub exec-Good : (c : Call) (d : Disk) → Distinct d.db.jobs → Good d.db.jobs (exec c d).1.db.jobs
unfolding exec resolve resolve_automatic
exec-Good (enqueues j limit) d h = enqueue-Keeps j limit d h
exec-Good claims d h = rw drop-db (claim-Keeps d h)
exec-Good recovers d h = recover-Keeps d h
exec-Good (changes id to fields) d h = change-Keeps id to fields d h
exec-Good (progresses id label current total) d h = progress-Keeps id label current total d h
exec-Good (cancels id) d h = cancel-Keeps id d h
exec-Good (releases id) d h = release-Keeps id d h
exec-Good (resolves id) d h = resolve_as-Keeps id _ d h
exec-Good (resolves_automatic id) d h = resolve_as-Keeps id _ d h
exec-Good (retries id) d h = retry-Keeps id d h
exec-Good (quarantines id reason desired) d h = quarantine-Keeps id reason desired d h
exec-Good (writes_metadata id fields) d h = metadata-Keeps id fields d h
exec-Good (begins_cleanup id desired code message) d h =
    rw drop-db (begin_cleanup-Keeps id desired code message d h)
exec-Good (starts_operation op id) d h = rw drop-db (start_operation-Keeps op id d h)

-- The order of the states of a job's life.
abbrev pub rank : State → ℕ
rank unset = 0
rank queued = 0
rank running = 1
rank verifying = 2
rank cleaning = 3
rank completed = 4
rank failed = 4
rank cancelled = 4

pub record Later (j k : Job) : Type 0 where
  pub same_id : j.id ≡ k.id
  pub same_target : j.target ≡ k.target
  pub same_source : j.source ≡ k.source
  pub forward : (j.state ≡ k.state) ⊎ (rank j.state < rank k.state)
  pub cancel_stays : j.cancel_requested ≡ true → k.cancel_requested ≡ true
  pub attempts_grow : j.attempts ≤ k.attempts

pub Later-refl : (j : Job) → Later j j
Later-refl j = ground arith

pub Later-trans : (i j k : Job) → Later i j → Later j k → Later i k
Later-trans i j k g h = ground arith

forward_edge : (a b : State) → can_transition a b ≡ true → (a ≡ b) ⊎ (rank a < rank b)
unfolding can_transition
forward_edge a b h = ground arith

pub Advances-Later : (j k : Job) → Advances j k → Later j k
Advances-Later j k h = ground (arith, forward_edge j.state k.state)

-- After any history, with any failures, every job that was there is there, in the same or in a
-- later state of its life, still cancelled if it was, with no fewer attempts.
pub run-Later :
    (d : Disk) (cs : List (ℕ × Call))
    → Distinct d.db.jobs
    → Evolves Later d.db.jobs (run d cs).db.jobs × Distinct (run d cs).db.jobs
unfolding run
run-Later d [] h = (Evolves-refl Later Later-refl d.db.jobs, h)
run-Later d ((t, c) ∷ cs) h =
    let (step, distinct) = exec-Good c (record d { now = t }) h in
    let (rest, distinct') = run-Later (exec c (record d { now = t })).1 cs distinct in
    (
      Evolves-trans Later Later-trans _ _ _ (Evolves-mono Advances Later Advances-Later _ _ step)
          rest,
      distinct',
    )

last_state : (a b : State) → terminal a ≡ true → (a ≡ b) ⊎ (rank a < rank b) → a ≡ b
unfolding terminal
last_state a b h g = ground arith

-- A job that has completed, failed or been cancelled stays what it is: no history of calls, with
-- whatever failures, moves it to another state.
pub run-terminal :
    (d : Disk) (cs : List (ℕ × Call)) (id : String) (j : Job)
    → Distinct d.db.jobs
    → find (has_id id) d.db.jobs ≡ some j
    → terminal j.state ≡ true
    → (k : Job) × (find (has_id id) (run d cs).db.jobs ≡ some k) × (j.state ≡ k.state)
run-terminal d cs id j h found over =
    let (k, there, later) =
      find-Evolves Later (λ i k g. g.same_id) id d.db.jobs _ j (run-Later d cs h).0 found in
    (k, there, last_state j.state k.state over later.forward)
