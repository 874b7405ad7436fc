-- ===== src/Cron/Tests.antt =====
-- The cron theorems at concrete jobs and times.
use ddochi_backend.Prelude.{
  ℕ, ◌+◌, ◌%◌, ◌≤◌, ◌<◌, ◌≡◌, refl, true, false, none, some, List, [], ◌∷◌, arith,
}
use ddochi_backend.Prelude.Outcome.{ok, raise, value_error}
use ddochi_backend.Prelude.Text.{split_on}
use ddochi_backend.Prelude.Int.{int_value}
use ddochi_backend.Cron.Field.{has_char}
use ddochi_backend.Cron.Unread.{IsNoNumber}
use ddochi_backend.Cron.Match.{words, match_cron, minute_ms, start_of, find_recent_match}
use ddochi_backend.Prelude.Rows.{find_row}
use ddochi_backend.Cron.Jobs.{Job, to_ms, due_jobs, claim, stub}
use ddochi_backend.Cron.Recent.{
  IsTotal, Answers, find_recent_match_latest, find_recent_match_bounds,
}
use ddochi_backend.Cron.Claims.{History, claims, claim_step, here, next, Rising, Reach-Rising}
use ddochi_backend.Cron.Runner.{Call, Fired, returned, run_job, run_jobs, run_tick}
use ddochi_backend.Cron.Ticks.{Follows, run_tick-Follows, run_jobs_raise}

-- 2026-10-05 09:20 KST
abbrev nine_twenty : ℕ
nine_twenty = 1791159600000

abbrev hour_ms : ℕ
hour_ms = 3600000

every_minute : IsTotal (match_cron (some "* * * * *")) (start_of nine_twenty 0 hour_ms)
unfolding match_cron
every_minute = λ t. (true, refl)

find_recent_match_latest_example :
    (r : ℕ) × (find_recent_match (some "* * * * *") nine_twenty 0 hour_ms ≡ ok r)
    × Answers (match_cron (some "* * * * *")) (start_of nine_twenty 0 hour_ms) nine_twenty r
find_recent_match_latest_example =
    find_recent_match_latest (some "* * * * *") nine_twenty 0 hour_ms every_minute

on_the_hour : find_recent_match (some "0 * * * *") nine_twenty 0 hour_ms ≡ ok 1791158400000
unfolding find_recent_match
on_the_hour = refl

find_recent_match_bounds_example :
    (1791158400000 % minute_ms ≡ 0)
    × (1791158400000 ≤ nine_twenty)
    × (nine_twenty < 1791158400000 + minute_ms + hour_ms)
    × (0 ≤ 1791158400000)
find_recent_match_bounds_example =
    find_recent_match_bounds (some "0 * * * *") nine_twenty 0 hour_ms 1791158400000 on_the_hour
      (omega arith)

abbrev hourly : Job
hourly = record {
  job_id = "stats";
  cron_expr = some "0 * * * *";
  handler = "sendStats";
  payload = none;
  enabled = true;
  deleted = false;
  last_run_at = none;
  last_run_status = none;
  last_run_duration = none;
  last_error = none;
}

abbrev start : History
start = record { jobs = hourly ∷ []; claims = [] }

Reach-Rising_example : Rising (claim_step "stats" 120000 (claim_step "stats" 60000 start)).claims
Reach-Rising_example =
    Reach-Rising (hourly ∷ []) (next (next here (claims "stats" 60000)) (claims "stats" 120000))

abbrev answers_stub : Job → ℕ → Call
answers_stub job m = record { ending = returned stub; elapsed_ms = 5; finish_works = true }

run_tick-Follows_example :
    Follows nine_twenty hour_ms
      (due_jobs start.jobs)
      start
      (run_tick answers_stub nine_twenty hour_ms start.jobs).1
run_tick-Follows_example = run_tick-Follows answers_stub nine_twenty hour_ms start

abbrev one_run : List Fired
one_run =
    record { job_id = "stats"; matched_at = 1791158400000; is_ok = true; ms = 5; error = "" } ∷ []

fires_once : (run_job answers_stub nine_twenty hour_ms hourly (hourly ∷ [])).0 ≡ ok one_run
unfolding run_job find_recent_match claim find_row
fires_once = refl

abbrev misspelt : Job
misspelt = record hourly { job_id = "typo"; cron_expr = some "x * * * *" }

no_number : IsNoNumber "x"
unfolding has_char int_value split_on
no_number = record { no_star = refl; no_step = refl; no_range = refl; no_int = refl }

five_fields : words "x * * * *" ≡ "x" ∷ "*" ∷ "*" ∷ "*" ∷ "*" ∷ []
unfolding words
five_fields = refl

one_part : split_on b',' "x" ≡ "x" ∷ []
unfolding split_on
one_part = refl

window_open : start_of nine_twenty (to_ms misspelt.last_run_at) hour_ms ≤ nine_twenty
unfolding start_of
window_open = omega arith

run_jobs_raise_example :
    run_jobs answers_stub nine_twenty hour_ms (misspelt ∷ hourly ∷ []) (misspelt ∷ hourly ∷ [])
    ≡ (raise value_error, misspelt ∷ hourly ∷ [])
run_jobs_raise_example =
    run_jobs_raise answers_stub nine_twenty hour_ms misspelt (hourly ∷ []) (misspelt ∷ hourly ∷ [])
      "x * * * *" "x" "*" "*" "*" "*" "x" [] refl five_fields refl one_part no_number window_open
