-- ===== src/Jobs/Rows.antt =====
-- What the operations of the job store ask of the rows and write to them (internal/jobs/store.go).
-- GORM's `Updates` also stamps `updated_at`.
use ipa_now.Common.{
  ℕ, String, Bool, not, ◌&&◌, ◌||◌, Option, none, some, List, [], ◌∷◌, ◌==◌, if◌then◌else◌, find,
  update_row,
}
use ipa_now.Jobs.Model.{State, queued, running, verifying, cleaning, state_eq, Job, Device, Db}
use ipa_now.Jobs.Tx.{Result, ok, err, not_found, Tx, Done, read, write}

-- `state IN (queued, running, verifying, cleaning)`
unfoldable pub is_unfinished : Job → Bool
is_unfinished j =
    state_eq j.state queued
    || state_eq j.state running
    || state_eq j.state verifying
    || state_eq j.state cleaning

-- `state IN (running, verifying, cleaning)`
unfoldable pub is_active : Job → Bool
is_active j = state_eq j.state running || state_eq j.state verifying || state_eq j.state cleaning

-- `state = cleaning AND cleanup_error <> ''`
unfoldable pub awaits_review : Job → Bool
awaits_review j = state_eq j.state cleaning && not (j.cleanup_error == "")

abbrev pub has_id : String → Job → Bool
has_id id j = j.id == id

-- `First(&j, "id = ?", id)`
abbrev pub found : {A : Type 0} → Option A → Result A
found none = err not_found
found (some a) = ok a

unfoldable pub first_job : String → Tx Job
unfolding read
first_job id = read λ db. found (find (has_id id) db.jobs)

abbrev pub with_update : (Job → Bool) → (Job → Job) → ℕ → Db → Db
with_update p f t db = record db {
  jobs = update_row p (λ j. record (f j) { updated_at = t }) db.jobs;
}

unfoldable pub update_jobs : (Job → Bool) → (Job → Job) → Tx Done
unfolding write
update_jobs p f d = write (with_update p f d.now) d

abbrev pub with_device : (Device → Device) → Db → Db
with_device f db = record db { device = f db.device }

unfoldable pub update_device : (Device → Device) → Tx Done
unfolding write
update_device f = write (with_device f)

-- `Find` with `Where(p)`, in the order of the table
unfoldable pub select : (Job → Bool) → List Job → List Job
select p [] = []
select p (j ∷ js) = let rest = select p js in if p j then j ∷ rest else rest

unfoldable pub all : Tx (List Job)
unfolding read
all = read λ db. ok db.jobs

unfoldable pub get : String → Tx Job
unfolding first_job
get id = first_job id

unfoldable pub device : Tx Device
unfolding read
device = read λ db. ok db.device

-- The columns that callers of `Change` and `Metadata` write.
pub data Field : Type 0 where
  phase error_code error_message sha256 : String → Field
  bundle_id version : List ℕ → Field
  pending_state : State → Field
  installed replaced uninstalled artifact_expired : Bool → Field
  bytes expires_at : ℕ → Field

unfoldable pub set_field : Field → Job → Job
set_field (phase v) j = record j { phase = v }
set_field (error_code v) j = record j { error_code = v }
set_field (error_message v) j = record j { error_message = v }
set_field (sha256 v) j = record j { sha256 = v }
set_field (bundle_id v) j = record j { bundle_id = v }
set_field (version v) j = record j { version = v }
set_field (pending_state v) j = record j { pending_state = v }
set_field (installed v) j = record j { installed = v }
set_field (replaced v) j = record j { replaced = v }
set_field (uninstalled v) j = record j { uninstalled = v }
set_field (artifact_expired v) j = record j { artifact_expired = v }
set_field (bytes v) j = record j { bytes = v }
set_field (expires_at v) j = record j { expires_at = some v }

unfoldable pub set_fields : List Field → Job → Job
set_fields [] j = j
set_fields (f ∷ fs) j = set_fields fs (set_field f j)
