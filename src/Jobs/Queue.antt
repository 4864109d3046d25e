-- ===== src/Jobs/Queue.antt =====
-- Admission, the claim of the device, and the changes of a live job (internal/jobs/store.go). GORM's
-- `Create` stamps a `created_at` that is zero.
use Prim.Native.String.{compare}
use text.Mathlib.Text.{is_lt}
use ipa_now.Common.{
  ℕ, zero, suc, ◌+◌, String, Bool, true, not, ◌&&◌, ◌||◌, Option, none, some, List, [], ◌∷◌, ◌++◌,
  ◌==◌, leb, ltb, nat_eq, if◌then◌else◌, find, count,
}
use ipa_now.Jobs.Model.{
  State, queued, running, verifying, cleaning, state_eq, terminal, can_transition, Job, Db,
}
use ipa_now.Jobs.Tx.{
  Result, ok, err, not_found, conflict, queue_full, storage, Disk, Tx, Done, ◌>>=◌, ◌>>◌, pure,
  clock, refuse, transaction, read, statement,
}
use ipa_now.Jobs.Rows.{
  is_unfinished, has_id, found, first_job, update_jobs, update_device, Field, set_fields,
}

abbrev pub stamp : ℕ → ℕ → ℕ
stamp t zero = t
stamp t (suc n) = suc n

abbrev pub stamped : ℕ → Job → Job
stamped t j = record j { created_at = stamp t j.created_at; updated_at = t }

-- An ID that is taken violates the primary key.
abbrev pub insert_unless : Option Job → Job → Db → Result Done × Db
insert_unless none j db = (ok tt, record db { jobs = db.jobs ++ j ∷ [] })
insert_unless (some _) j db = (err storage, db)

unfoldable pub insert_job : Job → Db → Result Done × Db
insert_job j db = insert_unless (find (has_id j.id) db.jobs) j db

abbrev pub admitted : ℕ → Job → Job
admitted t j = stamped t (record j { state = queued; available_at = t })

unfoldable pub enqueue : Job → ℕ → Tx Done
unfolding is_unfinished insert_job
enqueue j limit = transaction do
  n ← read λ db. ok (count is_unfinished db.jobs)
  refuse (leb limit n) queue_full
  t ← clock
  statement (insert_job (admitted t j))

abbrev pub leaving : Job → Result Done × Disk → Result Job × Disk
leaving j (ok _, d) = (ok j, d)
leaving j (err e, d) = (err e, d)

-- `Enqueue` with the job that it is given, in which it leaves the state and the times
unfoldable pub enqueued : Job → ℕ → Tx Job
unfolding enqueue
enqueued j limit d = leaving (admitted d.now j) (enqueue j limit d)

-- `created_at ASC`, and then by the primary key, which `First` adds.
abbrev pub is_earlier : Job → Job → Bool
is_earlier a b =
    ltb a.created_at b.created_at || (nat_eq a.created_at b.created_at && is_lt (compare a.id b.id))

abbrev pub earlier_of : Job → Option Job → Option Job
earlier_of j none = some j
earlier_of j (some k) = if is_earlier k j then some k else some j

-- `Where(p).Order("created_at ASC").First(&out)`
unfoldable pub oldest : (Job → Bool) → List Job → Option Job
oldest p [] = none
oldest p (j ∷ js) = let rest = oldest p js in if p j then earlier_of j rest else rest

-- `state = queued AND available_at <= now`
unfoldable pub is_claimable : ℕ → Job → Bool
is_claimable t j = state_eq j.state queued && leb j.available_at t

abbrev pub claimed : Job → Job
claimed j = record j { state = running; attempts = j.attempts + 1; phase = "starting" }

unfoldable pub claim_tx : Tx Job
unfolding is_claimable
claim_tx = transaction do
  d ← read λ db. ok db.device
  refuse (d.quarantined || not (d.owner == "")) not_found
  t ← clock
  out ← read λ db. found (oldest (is_claimable t) db.jobs)
  update_jobs (has_id out.id) λ _. claimed out
  update_device λ d'. record d' { owner = out.id }
  pure (record (claimed out) { updated_at = t })

-- `gorm.ErrRecordNotFound` is "nothing to claim", and no error.
abbrev pub unless_not_found : Result Job × Disk → Result (Option Job) × Disk
unless_not_found (ok j, d) = (ok (some j), d)
unless_not_found (err not_found, d) = (ok none, d)
unless_not_found (err e, d) = (err e, d)

unfoldable pub claim : Tx (Option Job)
claim d = unless_not_found (claim_tx d)

unfoldable pub change : String → State → List Field → Tx Done
unfolding can_transition
change id to fields = transaction do
  j ← first_job id
  refuse (not (can_transition j.state to)) conflict
  update_jobs (has_id j.id) λ k. record (set_fields fields k) { state = to }

unfoldable pub progress : String → String → ℕ → ℕ → Tx Done
progress id label current total =
    update_jobs (λ j. has_id id j && (state_eq j.state running || state_eq j.state verifying))
      λ j. record j { phase = label; current = current; total = total }

unfoldable pub cancel : String → Tx Done
unfolding terminal
cancel id = transaction do
  j ← first_job id
  refuse (terminal j.state || state_eq j.state cleaning) conflict
  update_jobs (has_id j.id) λ k. record k { cancel_requested = true }

unfoldable pub retry : String → Tx Done
retry id =
    update_jobs (λ j. has_id id j && state_eq j.state running)
      λ j. record j { attempts = j.attempts + 1; phase = "retry-wait" }

unfoldable pub metadata : String → List Field → Tx Done
metadata id fields = update_jobs (has_id id) (set_fields fields)
