-- ===== src/Engine/Tests.antt =====
-- Calls of the adapter, and the theorems at them.
use ipa_now.Common.{ℕ, ◌≡◌, ◌≢◌, refl, true, false, none, some, [], ◌∷◌, String, All, find, codes}
use ipa_now.Common.Sorting.{sorted, insert_sorted}
use ipa_now.Jobs.Model.{running, unset, Job}
use ipa_now.Jobs.Tx.{Disk, ok, ◌>>=◌, pure, fail, statement, read, clock, refuse, transaction}
use ipa_now.Jobs.Rows.{first_job}
use ipa_now.Jobs.Journal.{start_operation, insert_operation, operations, of_job}
use ipa_now.Secrets.Session.{Account, load, save}
use ipa_now.Worker.World.{Request, failure}
use ipa_now.Engine.Library.{
  read_answer, fault_of, classify, metadata, Output, decrypting, connecting, Answer,
}
use ipa_now.Engine.Transport.{scope, release}
use ipa_now.Engine.Adapter.{
  Setup, Bench, and_then, take_scope, load_account, save_account, log_in, start, call_library,
  update_account, in_scope, decrypt,
}
use ipa_now.Engine.Decrypted.{Decrypted, decrypt-Decrypted}
use ipa_now.Engine.Told.{Told, decrypt-Told}
use ipa_now.Engine.Cleanup.{Report, cleanup, cleanup_each}
use ipa_now.Engine.Confirmed.{IsConfirmed, cleanup-IsConfirmed}

abbrev a_job : Job
a_job = record {
  id = "j";
  target = "com.example.app";
  source = "app-store";
  state = running;
  phase = "starting";
  attempts = 1;
  cancel_requested = false;
  error_code = "";
  error_message = "";
  failure_reason = "";
  cleanup_error = "";
  pending_state = unset;
  installed = false;
  replaced = false;
  uninstalled = false;
  current = 0;
  total = 0;
  bytes = 0;
  sha256 = "";
  bundle_id = [];
  version = [];
  created_at = 10;
  updated_at = 10;
  available_at = 10;
  expires_at = none;
  artifact_expired = false;
}

abbrev a_disk : Disk
a_disk = record {
  db = record {
    jobs = a_job ∷ [];
    device = record { owner = "j"; quarantined = false; reason = "" };
    operations =
        record { id = "y"; job_id = "j"; created_at = 2 }
        ∷ record { id = "x"; job_id = "j"; created_at = 1 }
        ∷ record { id = "z"; job_id = "k"; created_at = 0 }
        ∷ [];
  };
  now = 100;
  fails = λ _. false;
  done = 0;
}

abbrev output : Output
output = record {
  bundle_id = codes "com.example.app";
  version = codes "1.0";
  installed = true;
  reinstalled = false;
  uninstalled = true;
  is_ok = true;
  scanned = 3;
  missing = 0;
}

abbrev an_answer : Answer
an_answer = record {
  result = some output;
  trouble = none;
  phases = connecting ∷ decrypting ∷ [];
  is_done = false;
}

-- The account has no session yet, and logs in.
abbrev a_setup : Setup Account
a_setup = record {
  settings = record { email = "a@b.c"; password = "secret"; mac_address = "00:22" };
  decode = λ a t. some t;
  encode = λ a. a;
  stat_fails = false;
  read_fails = false;
  has_transport = true;
  has_journal = true;
  context = 7;
  operation = "op";
  login = λ a. some (record a { password_token = "token"; others = [] });
  saved = (false, false);
  library = λ a. an_answer;
  updates = [];
}

abbrev a_bench : Bench Account
a_bench = record { disk = a_disk; session = none; active = none; calls = [] }

abbrev a_request : Request
a_request = record { id = "j"; target = "com.example.app"; source = "app-store" }

called_once :
    (decrypt a_setup a_request a_bench).1.calls
    ≡ (
      "op",
      some (record {
        email = "a@b.c";
        password = "secret";
        mac_address = "00:22";
        password_token = "token";
        others = [];
      }),
    )
      ∷ []
unfolding decrypt take_scope scope release in_scope and_then load_account save_account log_in start
    call_library update_account load save start_operation transaction ◌>>=◌ pure fail statement read
    clock refuse first_job insert_operation find
called_once = refl

-- The device was probed, and the state of its lock could not be read: the attempt may be made again.
tries_again :
    read_answer (record an_answer {
      result = none;
      trouble = some (record {
        is_unconfirmed = false;
        is_locked = true;
        unknown_lock = true;
        is_unverified = false;
        is_network = false;
      });
    })
    ≡ (metadata none, some (failure "device_locked" true true))
unfolding read_answer fault_of classify
tries_again = refl

decrypt-Decrypted_example :
    Decrypted a_setup a_request a_disk []
      (decrypt a_setup a_request a_bench).0
      (decrypt a_setup a_request a_bench).1
    × ((decrypt a_setup a_request a_bench).1.active ≡ none)
decrypt-Decrypted_example = decrypt-Decrypted a_setup a_request a_bench

decrypt-Told_example :
    Told a_setup a_request a_bench
      (decrypt a_setup a_request a_bench).0
      (decrypt a_setup a_request a_bench).1
decrypt-Told_example = decrypt-Told a_setup a_request a_bench

abbrev reports : ℕ → String → Report
reports n op = record { confirmed = true; uninstalled = false; failed = false }

in_order : (operations "j" a_disk).0 ≡ ok ("x" ∷ "y" ∷ [])
unfolding operations of_job sorted insert_sorted read statement
in_order = refl

confirms : (cleanup (λ _. false) reports true "j" a_disk).0.is_confirmed ≡ true
unfolding cleanup cleanup_each operations of_job sorted insert_sorted read statement
confirms = refl

cleanup-IsConfirmed_example :
    (of_job "j" a_disk.db.operations ≢ [])
    × All (λ o. IsConfirmed (λ _. false) reports o.id) (of_job "j" a_disk.db.operations)
cleanup-IsConfirmed_example = cleanup-IsConfirmed (λ _. false) reports true "j" a_disk confirms
