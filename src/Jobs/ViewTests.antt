-- ===== src/Jobs/ViewTests.antt =====
-- Listings and IDs, and the theorems at them.
use ipa_now.Common.{ℕ, ◌≡◌, refl, true, false, none, some, inl, List, [], ◌∷◌, String}
use ipa_now.Common.Sorting.{sorted, insert_sorted}
use ipa_now.Jobs.Model.{queued, unset, Job}
use ipa_now.Jobs.Tx.{Disk, ok, read, statement}
use ipa_now.Jobs.Listing.{list, Newest, list-Newest}
use ipa_now.Jobs.NewId.{new_id, new_id-valid, digit, digit_at}
use ipa_now.Jobs.Queue.{claim, is_claimable}
use ipa_now.Jobs.Offered.{claim-some}
use ipa_now.Storage.Ids.{valid_id}

abbrev job : String → ℕ → Job
job i created = record {
  id = i;
  target = "com.example.app";
  source = "installed";
  state = queued;
  phase = "";
  attempts = 0;
  cancel_requested = false;
  error_code = "";
  error_message = "";
  failure_reason = "";
  cleanup_error = "";
  pending_state = unset;
  installed = false;
  replaced = false;
  uninstalled = false;
  current = 0;
  total = 0;
  bytes = 0;
  sha256 = "";
  bundle_id = [];
  version = [];
  created_at = created;
  updated_at = created;
  available_at = created;
  expires_at = none;
  artifact_expired = false;
}

abbrev stored : Disk
stored = record {
  db = record {
    jobs = job "b" 20 ∷ job "a" 10 ∷ job "c" 30 ∷ [];
    device = record { owner = ""; quarantined = false; reason = "" };
    operations = [];
  };
  now = 100;
  fails = λ _. false;
  done = 0;
}

abbrev shown : List Job
shown = job "c" 30 ∷ job "b" 20 ∷ job "a" 10 ∷ []

lists_newest : (list stored).0 ≡ ok shown
unfolding list sorted insert_sorted read statement
lists_newest = refl

list-Newest_example : Newest stored.db.jobs shown
list-Newest_example = list-Newest stored shown lists_newest

abbrev some_bytes : List ℕ
some_bytes =
    1 ∷ 35 ∷ 69 ∷ 103 ∷ 137 ∷ 171 ∷ 205 ∷ 239 ∷ 1 ∷ 35 ∷ 69 ∷ 103 ∷ 137 ∷ 171 ∷ 205 ∷ 239 ∷ []

encodes : new_id some_bytes ≡ "0123456789abcdef0123456789abcdef"
unfolding new_id digit digit_at
encodes = refl

new_id-valid_example : valid_id (new_id some_bytes) ≡ true
new_id-valid_example = new_id-valid some_bytes refl

-- The claim of a free device
abbrev due_job : Job
due_job = job "b" 20

is_due : is_claimable 100 due_job ≡ true
unfolding is_claimable
is_due = refl

claim-some_example : (out : Job) × ((claim stored).0 ≡ ok (some out))
claim-some_example = claim-some stored due_job (λ n. refl) refl refl (inl refl) is_due
