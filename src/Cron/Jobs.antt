-- ===== src/Cron/Jobs.antt =====
-- SCHEDULED_JOBS as runner.py reads and writes it, and the results of handlers (handlers.py).
use ddochi_backend.Prelude.{
  ℕ, String, Bool, true, false, Option, none, some, List, [], ◌∷◌, not, ◌&&◌, ltb, if◌then◌else◌,
}
use ddochi_backend.Prelude.Text.{is_empty}
use ddochi_backend.Prelude.Rows.{find_row, update_row}

-- LAST_RUN_STATUS
pub data RunStatus : Type 0 where
  running success failed : RunStatus

-- A row; LAST_RUN_AT is in milliseconds.
pub record Job : Type 0 where
  pub job_id : String
  pub cron_expr : Option String
  pub handler : String
  pub payload : Option String
  pub enabled : Bool
  pub deleted : Bool
  pub last_run_at : Option ℕ
  pub last_run_status : Option RunStatus
  pub last_run_duration : Option ℕ
  pub last_error : Option String

-- `_to_ms`: 0 where the column is NULL
abbrev pub to_ms : Option ℕ → ℕ
to_ms none = 0
to_ms (some ms) = ms

-- WHERE ENABLED = 1 AND DELETED_AT IS NULL
unfoldable pub due_jobs : List Job → List Job
due_jobs [] = []
due_jobs (j ∷ js) = if j.enabled && not j.deleted then j ∷ due_jobs js else due_jobs js

-- `LAST_RUN_AT IS NULL OR LAST_RUN_AT < :1`
abbrev pub before : Option ℕ → ℕ → Bool
before none m = true
before (some l) m = ltb l m

abbrev pub job_key : Job → String
job_key j = j.job_id

-- `ENABLED = 1 AND DELETED_AT IS NULL AND (LAST_RUN_AT IS NULL OR LAST_RUN_AT < :1)`
unfoldable pub claimable : ℕ → Job → Bool
claimable m j = j.enabled && not j.deleted && before j.last_run_at m

abbrev pub claimed_job : ℕ → Job → Job
claimed_job m j = record j { last_run_at = some m; last_run_status = some running }

claim_found : String → ℕ → List Job → Option Job → Bool × List Job
unfolding claimable
claim_found k m js none = (false, js)
claim_found k m js (some j) =
    if claimable m j then (true, update_row job_key k (claimed_job m) js) else (false, js)

-- The compare-and-swap: the UPDATE that claims a run, and whether it changed a row. JOB_ID is the
-- primary key.
unfoldable pub claim : String → ℕ → List Job → Bool × List Job
unfolding claim_found
claim k m js = claim_found k m js (find_row job_key k js)

abbrev pub finished_job : RunStatus → ℕ → String → Job → Job
finished_job st elapsed_ms err j = record j {
  last_run_status = some st;
  last_run_duration = some elapsed_ms;
  last_error = (if is_empty err then none else some err);
}

-- The UPDATE after a run; Oracle stores an empty text as NULL.
unfoldable pub finish : String → RunStatus → ℕ → String → List Job → List Job
finish k st elapsed_ms err js = update_row job_key k (finished_job st elapsed_ms err) js

-- A JSON value of a response, as far as `_failure_reason` looks into it
mutual
  pub data Json : Type 0 where
    null : Json
    bool : Bool → Json
    num : ℕ → Json
    str : String → Json
    arr : Items → Json
    obj : Members → Json

  pub data Items : Type 0 where
    nil : Items
    cons : Json → Items → Items

  pub data Members : Type 0 where
    end : Members
    member : String → Json → Members → Members

-- What a handler of handlers.py returns
pub data Result : Type 0 where
  -- `{'ok': False, 'reason': 'no_token'}`
  no_token : Result
  -- `{'ok': False, 'reason': 'http_error', 'message': ...}`
  http_message : String → Result
  -- `{'ok': False, 'reason': 'http_error', 'status': ...}`
  http_status : ℕ → Result
  -- `{'ok': True, 'reason': 'stub'}`
  stub : Result
  -- `{'ok': True, 'summary': resp.json()}`
  summary : Json → Result
