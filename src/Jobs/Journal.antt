-- ===== src/Jobs/Journal.antt =====
-- The durable library attempts of a job (internal/jobs/store.go). A random ID is an argument.
use Prim.Native.String.{compare}
use text.Mathlib.Text.{is_lt}
use ipa_now.Common.{
  String, Bool, not, ◌&&◌, ◌||◌, Option, none, some, List, [], ◌∷◌, ◌++◌, map, ◌==◌, ltb, nat_eq,
  if◌then◌else◌, find,
}
use ipa_now.Common.Sorting.{sorted}
use ipa_now.Jobs.Model.{running, state_eq, Operation, Db}
use ipa_now.Jobs.Tx.{
  Result, ok, err, conflict, storage, Tx, Done, ◌>>=◌, ◌>>◌, pure, refuse, clock, transaction, read,
  statement,
}
use ipa_now.Jobs.Rows.{first_job}

abbrev pub has_op : String → Operation → Bool
has_op op o = o.id == op

abbrev pub insert_unless : Option Operation → Operation → Db → Result Done × Db
insert_unless none o db = (ok tt, record db { operations = db.operations ++ o ∷ [] })
insert_unless (some _) o db = (err storage, db)

-- An ID that is taken violates the primary key.
unfoldable pub insert_operation : Operation → Db → Result Done × Db
insert_operation o db = insert_unless (find (has_op o.id) db.operations) o db

-- Ownership is committed before the library can touch the device.
unfoldable pub start_operation : String → String → Tx String
unfolding insert_operation
start_operation op id = transaction do
  j ← first_job id
  d ← read λ db. ok db.device
  refuse (not (state_eq j.state running) || not (d.owner == id) || d.quarantined) conflict
  t ← clock
  statement (insert_operation (record { id = op; job_id = id; created_at = t }))
  pure op

-- `created_at ASC, id ASC`
abbrev pub is_before : Operation → Operation → Bool
is_before a b =
    ltb a.created_at b.created_at || (nat_eq a.created_at b.created_at && is_lt (compare a.id b.id))

unfoldable pub of_job : String → List Operation → List Operation
of_job id [] = []
of_job id (o ∷ os) = let rest = of_job id os in if o.job_id == id then o ∷ rest else rest

unfoldable pub operations : String → Tx (List String)
unfolding sorted of_job
operations id = read λ db. ok (map (λ o. o.id) (sorted is_before (of_job id db.operations)))
