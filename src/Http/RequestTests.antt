-- ===== src/Http/RequestTests.antt =====
-- Requests on a small service, and the theorems at them.
use ipa_now.Common.{
  ◌⊎◌, inl, ℕ, ◌≡◌, ◌++◌, refl, true, false, none, some, List, [], ◌∷◌, String, codes,
}
use ipa_now.Jobs.Model.{unset, running, Job}
use ipa_now.Jobs.Calls.{progresses}
use ipa_now.Jobs.Trace.{Trace}
use ipa_now.Storage.Ids.{valid_id, is_hex}
use ipa_now.Common.{all_of}
use ipa_now.Worker.World.{Env}
use ipa_now.Worker.Attempts.{no_reply}
use ipa_now.Worker.Ended.{IsBeside}
use ipa_now.Secrets.Broker.{idle}
use ipa_now.Http.Message.{get, post, malformed, value, Request, refusal, a_page}
use ipa_now.Http.Guard.{guard, is_host_allowed, is_listed, is_origin_allowed, expected_origin}
use ipa_now.Http.Guard.Passed.{Passed, guard-Passed}
use ipa_now.Http.Service.{Service}
use ipa_now.Http.Handlers.{answer}
use ipa_now.Http.Web.{Site, respond}
use ipa_now.Http.Name.{download_name}
use ipa_now.Http.Name.Safe.{Plain, download_name-Plain}
use ipa_now.Http.Server.{endpoint, write_endpoint, posts_upload, handle}
use ipa_now.Http.Contract.{IsOwn}
use ipa_now.Http.Contract.Kept.{handle-Kept, handle-Reads}
use ipa_now.Http.Upload.Stored.{Uploading, handle-Uploading}

abbrev an_id : String
an_id = "0123456789abcdef0123456789abcdef"

abbrev a_job : Job
a_job = record {
  id = an_id;
  target = "com.example.app";
  source = "installed";
  state = running;
  phase = "starting";
  attempts = 1;
  cancel_requested = false;
  error_code = "";
  error_message = "";
  failure_reason = "";
  cleanup_error = "";
  pending_state = unset;
  installed = false;
  replaced = false;
  uninstalled = false;
  current = 0;
  total = 0;
  bytes = 0;
  sha256 = "";
  bundle_id = codes "../\"evil";
  version = codes "1.0";
  created_at = 10;
  updated_at = 10;
  available_at = 10;
  expires_at = none;
  artifact_expired = false;
}

-- The engine reports its progress before each step.
abbrev an_env : Env
an_env = record {
  others = λ n. (n, progresses an_id "decrypting" n 10) ∷ [];
  time = λ n. n;
  expired = λ _. false;
  monitored = none;
  decrypts = λ n r. record { reply = no_reply; fault = none; output = true; temporary = [] };
  is_cleaner = false;
  cleans = λ n id. record { late = false; failed = false; confirmed = true; uninstalled = false };
  archive = λ _. none;
  lower = λ s. s;
  verifies = λ _. true;
  digest = λ _. (5, "00");
  max_attempts = 2;
  retention = 1000;
}

abbrev a_service : Service
a_service = record {
  settings = record {
    allowed_hosts = "ipa.example" ∷ [];
    allowed_origin = "https://ipa.example";
    max_upload = 1000;
    queue_limit = 5;
    is_apple_enabled = false;
  };
  env = an_env;
  parse_origin = λ o. some o;
  parse_target = λ _. none;
  text = λ _. "com.example.other";
  fresh = λ n. n ∷ 1 ∷ 2 ∷ 3 ∷ 4 ∷ 5 ∷ 6 ∷ 7 ∷ 8 ∷ 9 ∷ 10 ∷ 11 ∷ 12 ∷ 13 ∷ 14 ∷ 15 ∷ [];
  page = λ r. answer 200 a_page;
}

abbrev a_site : Site
a_site = record {
  world = record {
    disk = record {
      db = record {
        jobs = a_job ∷ [];
        device = record { owner = an_id; quarantined = false; reason = "" };
        operations = [];
      };
      now = 100;
      fails = λ _. false;
      done = 0;
    };
    files = record {
      work = [];
      outputs = [];
      inputs = [];
      artifacts = [];
      tmp = [];
      fails = λ _. false;
      done = 0;
    };
    step = 0;
  };
  broker = idle;
  is_uploading = false;
}

-- A cancellation, as the page of the service sends it
abbrev a_request : Request
a_request = record {
  method = post;
  host = "ipa.example";
  marker = "1";
  origin = "https://ipa.example";
  is_tls = false;
  path = "api" ∷ "jobs" ∷ an_id ∷ "cancel" ∷ [];
  payload = record {
    order = malformed;
    no_fields = value tt;
    auth_code = malformed;
    confirmation = malformed;
    sending = record {
      is_acknowledged = true;
      is_binary = true;
      size = 10;
      breaks_off = true;
      archive = none;
    };
  };
}

abbrev a_reading : Request
a_reading = record a_request { method = get; path = "api" ∷ "jobs" ∷ [] }

abbrev an_upload : Request
an_upload = record a_request { path = "api" ∷ "uploads" ∷ [] }

handle-Kept_example :
    Trace
      (λ c. IsBeside c ⊎ IsOwn a_service a_request c)
      a_site.world.disk.db
      (handle a_service a_request a_site).1.world.disk.db
handle-Kept_example = handle-Kept a_service a_request IsBeside a_site λ n. (tt, tt)

handle-Reads_example :
    Trace IsBeside a_site.world.disk.db (handle a_service a_reading a_site).1.world.disk.db
handle-Reads_example = handle-Reads a_service a_reading IsBeside a_site (λ n. (tt, tt)) (inl refl)

upload_endpoint : endpoint post ("api" ∷ "uploads" ∷ []) ≡ posts_upload
unfolding endpoint write_endpoint
upload_endpoint = refl

handle-Uploading_example :
    Uploading a_site (handle a_service an_upload a_site).0 (handle a_service an_upload a_site).1
handle-Uploading_example = handle-Uploading a_service (λ n. refl) an_upload a_site upload_endpoint

an_id-valid : valid_id an_id ≡ true
unfolding valid_id is_hex all_of
an_id-valid = refl

download_name-Plain_example :
    (name : List ℕ) × Plain name × (download_name a_job ≡ name ++ codes ".ipa")
download_name-Plain_example = download_name-Plain a_job an_id-valid

passes : guard (λ o. some o) a_service.settings a_request ≡ none
unfolding guard is_host_allowed is_listed is_origin_allowed expected_origin
passes = refl

guard-Passed_example : Passed (λ o. some o) a_service.settings a_request
guard-Passed_example = guard-Passed (λ o. some o) a_service.settings a_request passes

-- The same from another site
crossing :
    (handle a_service (record a_request { origin = "https://evil.example" }) a_site).0
    ≡ refusal 403 "origin_denied"
unfolding handle guard is_host_allowed is_listed is_origin_allowed expected_origin respond
crossing = refl
