-- ===== src/Cron/Runner.antt =====
-- `run_tick` and `_failure_reason` of runner.py, and the registry of handlers.py.
use Prim.Native.String
use ddochi_backend.Prelude.{
  ℕ, String, Bool, true, false, List, [], ◌∷◌, ◌++◌, not, ◌||◌, leb, ◌==◌, if◌then◌else◌,
}
use ddochi_backend.Prelude.Text.{str_eq, is_empty, is_in, strip}
use ddochi_backend.Prelude.Int.{decimal}
use ddochi_backend.Prelude.Outcome.{Outcome, ok, raise}
use ddochi_backend.Cron.Match.{find_recent_match}
use ddochi_backend.Cron.Jobs.{
  Job, RunStatus, success, failed, to_ms, due_jobs, claim, finish, Json, null, bool, num, str, arr,
  obj, nil, cons, Members, end, member, Result, no_token, http_message, http_status, stub, summary,
}

-- `_HANDLERS`
abbrev pub handler_names : List String
handler_names =
    "sendProspectDashboard" ∷ "sendMatchingDashboard" ∷ "sendStats" ∷ "sendShedUnifiedDashboard135"
    ∷ "sendShedUnifiedDashboard246" ∷ "sendShedTmDashboard135" ∷ "sendShedTmDashboard246"
    ∷ "sendShedSchedDashboard135" ∷ "sendShedSchedDashboard246" ∷ "sendSproutBoard"
    ∷ "sendRegionShedDashboards" ∷ []

-- Python's truth of a JSON value
unfoldable pub json_truthy : Json → Bool
json_truthy null = false
json_truthy (bool b) = b
json_truthy (num n) = not (n == 0)
json_truthy (str s) = not (is_empty s)
json_truthy (arr nil) = false
json_truthy (arr (cons _ _)) = true
json_truthy (obj end) = false
json_truthy (obj (member _ _ _)) = true

-- `d.get(k)`, None for a missing key
unfoldable pub get_member : String → Members → Json
get_member k end = null
get_member k (member j v ms) = if str_eq j k then v else get_member k ms

abbrev is_false : Json → Bool
is_false (bool false) = true
is_false _ = false

-- `isinstance(v, dict) and (v.get('sent') is False or v.get('error'))`
unfoldable pub is_bad : Json → Bool
unfolding get_member json_truthy
is_bad (obj ms) = is_false (get_member "sent" ms) || json_truthy (get_member "error" ms)
is_bad _ = false

unfoldable pub bad_keys : Members → List String
unfolding is_bad
bad_keys end = []
bad_keys (member k v ms) = if is_bad v then k ∷ bad_keys ms else bad_keys ms

-- `','.join(keys)`
join_commas : List String → String
join_commas [] = ""
join_commas (k ∷ ks) = elim ks [ [] ↦ k | _ ∷ _ ↦ String.◌++◌ k (String.◌++◌ "," (join_commas ks)) ]

-- `_failure_reason` returns None, returns a reason, or raises with a message.
pub data Reason : Type 0 where
  fine : Reason
  failed_for : String → Reason
  raises : String → Reason

results_reason : Json → Reason
unfolding bad_keys join_commas
results_reason (obj ms) = elim (bad_keys ms) [
  | [] ↦ fine
  | k ∷ ks ↦ failed_for (String.◌++◌ "send failed: " (join_commas (k ∷ ks)))
]
results_reason _ = fine

-- `(result.get('summary') or {}).get('results')` and what follows
summary_reason : Json → Reason
unfolding results_reason get_member
summary_reason (obj ms) = results_reason (get_member "results" ms)
summary_reason (arr (cons _ _)) = raises "'list' object has no attribute 'get'"
summary_reason (str s) = if is_empty s then fine else raises "'str' object has no attribute 'get'"
summary_reason (num n) = if n == 0 then fine else raises "'int' object has no attribute 'get'"
summary_reason (bool b) = if b then raises "'bool' object has no attribute 'get'" else fine
summary_reason _ = fine

unfoldable pub failure_reason : Result → Reason
unfolding summary_reason
failure_reason no_token = failed_for "no_token"
failure_reason (http_message m) = failed_for (strip (String.◌++◌ "http_error " m))
failure_reason (http_status n) = failed_for (String.◌++◌ "http_error " (decimal n))
failure_reason stub = fine
failure_reason (summary j) = summary_reason j

-- What happened when a handler was awaited: it returned, or raised (a time-out too).
pub data Ending : Type 0 where
  returned : Result → Ending
  raised : String → Ending

pub record Call : Type 0 where
  pub ending : Ending
  pub elapsed_ms : ℕ
  -- whether the UPDATE after the run went through
  pub finish_works : Bool

-- `ok` and `err_msg` after the `try`
pub record Verdict : Type 0 where
  pub is_ok : Bool
  pub err_msg : String

abbrev verdict_of_reason : Reason → Verdict
verdict_of_reason fine = record { is_ok = true; err_msg = "" }
verdict_of_reason (failed_for r) = record { is_ok = false; err_msg = r }
verdict_of_reason (raises m) = record { is_ok = false; err_msg = m }

unfoldable pub verdict_of : Ending → Verdict
unfolding failure_reason
verdict_of (returned r) = verdict_of_reason (failure_reason r)
verdict_of (raised m) = record { is_ok = false; err_msg = m }

pub record Fired : Type 0 where
  pub job_id : String
  pub matched_at : ℕ
  pub is_ok : Bool
  pub ms : ℕ
  pub error : String

abbrev pub status_of : Bool → RunStatus
status_of true = success
status_of false = failed

-- The result of one round of the loop, or of the loop, and the table that it leaves
abbrev pub Ticked : Type 0
Ticked = Outcome (List Fired) × List Job

-- The end of a claimed run
unfoldable pub record_run : Job → ℕ → Call → List Job → List Fired × List Job
unfolding verdict_of
record_run job m c table =
    let v = verdict_of c.ending in
    (
      record {
        job_id = job.job_id;
        matched_at = m;
        is_ok = v.is_ok;
        ms = c.elapsed_ms;
        error = v.err_msg;
      }
          ∷ [],
      (if c.finish_works
          then finish job.job_id (status_of v.is_ok) c.elapsed_ms v.err_msg table
          else table),
    )

abbrev pub append_fired : List Fired → Ticked → Ticked
append_fired fired (raise e, table) = (raise e, table)
append_fired fired (ok more, table) = (ok (fired ++ more), table)

-- The rest of the loop, unless the round raised
abbrev pub then_jobs : Ticked → (List Job → Ticked) → Ticked
then_jobs (raise e, table) rest = (raise e, table)
then_jobs (ok fired, table) rest = append_fired fired (rest table)

-- `call` is what awaiting the job's handler leads to, at the matched minute.
module _ (call : Job → ℕ → Call) (now_ms window_ms : ℕ) where
  unfoldable pub run_claimed : Job → ℕ → Bool × List Job → List Fired × List Job
  unfolding record_run
  run_claimed job m (false, table) = ([], table)
  run_claimed job m (true, table) =
      if not (is_in job.handler handler_names)
      then ([], table)
      else record_run job m (call job m) table

  abbrev pub after_search : Job → List Job → Outcome ℕ → Ticked
  after_search job table (raise e) = (raise e, table)
  after_search job table (ok m) =
      if m == 0 || leb m (to_ms job.last_run_at)
      then (ok [], table)
      else let (fired, table') = run_claimed job m (claim job.job_id m table) in (ok fired, table')

  -- One job of the snapshot
  unfoldable pub run_job : Job → List Job → Ticked
  unfolding run_claimed
  run_job job table =
      after_search job table
        (find_recent_match job.cron_expr now_ms (to_ms job.last_run_at) window_ms)

  -- The loop over the snapshot; an exception of the search leaves the loop.
  unfoldable pub run_jobs : List Job → List Job → Ticked
  run_jobs [] table = (ok [], table)
  run_jobs (job ∷ jobs) table = then_jobs (run_job job table) (run_jobs jobs)

  -- `run_tick`; the jobs are read once, before the loop.
  unfoldable pub run_tick : List Job → Ticked
  unfolding due_jobs
  run_tick table = run_jobs (due_jobs table) table
