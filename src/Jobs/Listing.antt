-- ===== src/Jobs/Listing.antt =====
-- The jobs that the web interface shows (internal/jobs/store.go, `List`).
use mathlib.Core.List.{Perm}
use ipa_now.Common.{Bool, ◌≡◌, arith, List, ltb, take}
use ipa_now.Common.Sorting.{sorted, sorted-Perm, IsSorted, sorted-IsSorted}
use ipa_now.Jobs.Model.{Job}
use ipa_now.Jobs.Tx.{Disk, ok, Tx, read, statement}

-- `created_at DESC`; the order of rows that were created at once is left open by SQL.
abbrev pub is_newer : Job → Job → Bool
is_newer a b = ltb b.created_at a.created_at

unfoldable pub list : Tx (List Job)
unfolding sorted
list = read λ db. ok (take 200 (sorted is_newer db.jobs))

-- The first 200 of the rows, when they stand by their age, the newest first
pub record Newest (rows out : List Job) : Type 0 where
  pub ordered : List Job
  pub same_rows : Perm ordered rows
  pub by_age : IsSorted is_newer ordered
  pub first : out ≡ take 200 ordered

-- What a listing returns is the first 200 of the rows, when they stand by their age, the newest first.
pub list-Newest : (d : Disk) (out : List Job) → (list d).0 ≡ ok out → Newest d.db.jobs out
unfolding list read statement
list-Newest d out h = record {
  ordered = sorted is_newer d.db.jobs;
  same_rows = sorted-Perm is_newer d.db.jobs;
  by_age = sorted-IsSorted is_newer (λ a b e. ground arith) (λ a b c e f. ground arith) d.db.jobs;
  first = ground arith;
}
