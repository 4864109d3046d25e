-- ===== src/Jobs/Model.antt =====
-- The rows of the job database (internal/jobs/model.go). `State` is a string in the source; its zero
-- value, which only `pending_state` takes, is `unset`. A time is a number, and 0 is the zero time. The
-- two fields that hold what an app says of itself are bytes; the other texts are Unicode.
use ipa_now.Common.{ℕ, String, Bool, true, false, ◌||◌, Option, List}

pub data State : Type 0 where
  unset queued running verifying cleaning completed failed cancelled : State

pub State-discrete : Discrete State
State-discrete = hlevel

-- `a == b` on states
abbrev pub state_eq : State → State → Bool
state_eq unset unset = true
state_eq queued queued = true
state_eq running running = true
state_eq verifying verifying = true
state_eq cleaning cleaning = true
state_eq completed completed = true
state_eq failed failed = true
state_eq cancelled cancelled = true
state_eq _ _ = false

unfoldable pub terminal : State → Bool
terminal s = state_eq s completed || state_eq s failed || state_eq s cancelled

unfoldable pub can_transition : State → State → Bool
unfolding terminal
can_transition queued b = state_eq b running || state_eq b cleaning
can_transition running b = state_eq b verifying || state_eq b cleaning
can_transition verifying b = state_eq b cleaning
can_transition cleaning b = terminal b
can_transition _ b = false

pub record Job : Type 0 where
  pub id : String
  pub target : String
  pub source : String
  pub state : State
  pub phase : String
  pub attempts : ℕ
  pub cancel_requested : Bool
  pub error_code : String
  pub error_message : String
  pub failure_reason : String
  pub cleanup_error : String
  pub pending_state : State
  pub installed : Bool
  pub replaced : Bool
  pub uninstalled : Bool
  pub current : ℕ
  pub total : ℕ
  pub bytes : ℕ
  pub sha256 : String
  pub bundle_id : List ℕ
  pub version : List ℕ
  pub created_at : ℕ
  pub updated_at : ℕ
  pub available_at : ℕ
  pub expires_at : Option ℕ
  pub artifact_expired : Bool

pub record Device : Type 0 where
  pub owner : String
  pub quarantined : Bool
  pub reason : String

pub record Operation : Type 0 where
  pub id : String
  pub job_id : String
  pub created_at : ℕ

-- The three tables. `Open` creates the one device row, and nothing deletes it.
pub record Db : Type 0 where
  pub jobs : List Job
  pub device : Device
  pub operations : List Operation
