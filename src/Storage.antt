-- ===== src/Storage.antt =====
-- The private data directory (internal/storage): which files a job has in it, and the operations on
-- them. A file system call may fail; `fails n` says whether the `n`-th does.
pub mod Ids
pub mod Opening
pub mod Ipa
pub mod Temp
pub mod Removal
pub mod Emptied
mod Tests
use ipa_now.Common.{
  ℕ, suc, String, ◌≡◌, Bool, true, false, not, ◌&&◌, ◌||◌, Option, none, some, List, [], ◌∷◌, ◌==◌,
  if◌then◌else◌,
}
use Ids.{valid_id}

pub record Temporary : Type 0 where
  pub name : String
  pub is_directory : Bool

-- The directories that `Path` admits, and `work/<id>/output.ipa`, by the IDs that have an entry in
-- each. `tmp` holds the entries among the temporary files.
pub record Files : Type 0 where
  pub work : List String
  pub outputs : List String
  pub inputs : List String
  pub artifacts : List String
  pub tmp : List Temporary
  pub fails : ℕ → Bool
  pub done : ℕ

pub data Kind : Type 0 where
  work inputs artifacts : Kind

unfoldable pub contains : String → List String → Bool
contains id [] = false
contains id (x ∷ xs) = (x == id) || contains id xs

unfoldable pub without : String → List String → List String
without id [] = []
without id (x ∷ xs) = let rest = without id xs in if x == id then rest else x ∷ rest

abbrev pub entries : Kind → Files → List String
entries work f = f.work
entries inputs f = f.inputs
entries artifacts f = f.artifacts

abbrev pub tick : Files → Files
tick f = record f { done = suc f.done }

-- One call of the file system that may fail, and changes nothing then.
abbrev attempt : (Files → Files) → Files → Bool × Files
attempt g f = if f.fails f.done then (false, tick f) else (true, g (tick f))

-- `Mkdir` fails on a directory that exists.
unfoldable pub workspace : String → Files → Bool × Files
unfolding contains
workspace id f =
    if not (valid_id id) || contains id f.work
    then (false, f)
    else attempt (λ g. record g { work = id ∷ g.work }) f

-- `OpenFile` of a new input, which fails on a file that exists (internal/httpapi/server.go)
unfoldable pub create_input : String → Files → Bool × Files
unfolding contains
create_input id f =
    if contains id f.inputs
    then (false, tick f)
    else attempt (λ g. record g { inputs = id ∷ g.inputs }) f

-- A call that changes nothing here: a write, a sync or a close of a file, or `SyncInputs`.
unfoldable pub flush : Files → Bool × Files
flush f = attempt (λ g. g) f

-- `Lstat` or `Open` of an entry
unfoldable pub look : Kind → String → Files → Bool × Files
unfolding contains
look kind id f = (contains id (entries kind f) && not (f.fails f.done), tick f)

-- Only `work` is removed with what it holds. A file that is missing is no error.
abbrev pub drop_entry : Kind → String → Files → Files
drop_entry work id f = record f { work = without id f.work; outputs = without id f.outputs }
drop_entry inputs id f = record f { inputs = without id f.inputs }
drop_entry artifacts id f = record f { artifacts = without id f.artifacts }

unfoldable pub remove : Kind → String → Files → Bool × Files
unfolding without
remove kind id f = if not (valid_id id) then (false, f) else attempt (drop_entry kind id) f

-- The output of the job's own workspace becomes its artifact. The rename is durable only after the
-- directory is synced: a failure after the rename leaves the artifact in place.
unfoldable pub publish : String → Files → Bool × Files
unfolding without contains
publish id f =
    if not (valid_id id) || not (contains id f.outputs) || f.fails f.done
    then (false, tick f)
    else (let g : Files = record (tick f) {
      outputs = without id f.outputs;
      artifacts = id ∷ without id f.artifacts;
    } in
        if g.fails g.done then (false, tick g) else (true, tick g))
