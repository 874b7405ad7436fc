-- ===== src/Cron/Ticks.antt =====
-- What one tick does: rounds of claims and ends of runs, and what it records of each run.
use mathlib.Core.Path.{subst}
use ddochi_backend.Prelude.{
  ℕ, ◌<◌, ◌≤◌, ◌≡◌, refl, ◌⊎◌, inl, inr, ◌↔◌, String, Bool, true, false, some, List, [], ◌∷◌, ◌||◌,
  leb, ◌==◌, arith, All, Bool-cases,
}
use ddochi_backend.Prelude.Text.{str_eq, is_in, split_on}
use ddochi_backend.Prelude.Outcome.{Outcome, ok, raise, value_error}
use ddochi_backend.Cron.Match.{words, start_of, find_recent_match}
use ddochi_backend.Cron.Unread.{IsNoNumber, find_recent_match-raise}
use ddochi_backend.Cron.Jobs.{Job, RunStatus, to_ms, due_jobs, claim, finish, Result}
use ddochi_backend.Cron.Claims.{History, claim_step, claims, finishes, Reach, here, next}
use ddochi_backend.Cron.Runner.{
  Call, Fired, Ticked, Ending, returned, raised, fine, failure_reason, verdict_of, status_of,
  record_run, run_claimed, after_search, run_job, append_fired, then_jobs, run_jobs, run_tick,
  handler_names,
}

Reach-trans : {h i j : History} → Reach h i → Reach i j → Reach h j
Reach-trans r here = r
Reach-trans r (next q st) = next (Reach-trans r q) st

append_fired_table : (fired : List Fired) (t : Ticked) → (append_fired fired t).1 ≡ t.1
append_fired_table fired (raise e, table) = refl
append_fired_table fired (ok more, table) = refl

module _ (now_ms window_ms : ℕ) where
  -- The minute is what the search finds for the job as it was read, later than its last run.
  abbrev pub IsFound : Job → ℕ → Type 0
  IsFound job m =
      (find_recent_match job.cron_expr now_ms (to_ms job.last_run_at) window_ms ≡ ok m)
      × (to_ms job.last_run_at < m)

  -- What one round of the loop does to the table: nothing, one compare-and-swap claim of the job's
  -- minute, or such a claim that is granted and the end of its run.
  pub data Round (job : Job) (h : History) : History → Type 0 where
    idles : Round job h h
    only_claims : (m : ℕ) → IsFound job m → Round job h (claim_step job.job_id m h)
    runs :
        (m : ℕ) (st : RunStatus) (elapsed_ms : ℕ) (err : String)
        → IsFound job m
        → (claim job.job_id m h.jobs).0 ≡ true
        → Round job h (record (claim_step job.job_id m h) {
          jobs = finish job.job_id st elapsed_ms err (claim_step job.job_id m h).jobs;
        })

  -- One round for each job of the list in its order, or of a first part of it
  pub data Rounds : List Job → History → History → Type 0 where
    stops : {jobs : List Job} {h : History} → Rounds jobs h h
    goes_on :
        {job : Job} {jobs : List Job} {h i j : History}
        → Round job h i
        → Rounds jobs i j
        → Rounds (job ∷ jobs) h j

  Round-Reach : {job : Job} {h i : History} → Round job h i → Reach h i
  Round-Reach idles = here
  Round-Reach {job} (only_claims m f) = next here (claims job.job_id m)
  Round-Reach {job} (runs m st ms err f g) =
      next (next here (claims job.job_id m)) (finishes job.job_id st ms err)

  Rounds-Reach : {jobs : List Job} {h i : History} → Rounds jobs h i → Reach h i
  Rounds-Reach stops = here
  Rounds-Reach (goes_on r rs) = Reach-trans (Round-Reach r) (Rounds-Reach rs)

  abbrev After : Job → History → List Job → Type 0
  After job h jobs' = (cs : List (String × ℕ)) × Round job h (record { jobs = jobs'; claims = cs })

  -- The table `jobs'` is reached from `h` by rounds for the jobs, which are steps under which no
  -- minute of a job is claimed twice.
  abbrev pub Follows : List Job → History → List Job → Type 0
  Follows jobs h jobs' =
      (cs : List (String × ℕ)) × Rounds jobs h (record { jobs = jobs'; claims = cs })
      × Reach h (record { jobs = jobs'; claims = cs })

  followed :
      (jobs : List Job) (h : History) (jobs' : List Job) (cs : List (String × ℕ))
      → Rounds jobs h (record { jobs = jobs'; claims = cs })
      → Follows jobs h jobs'
  followed jobs h jobs' cs r = (cs, r, Rounds-Reach r)

module _ (call : Job → ℕ → Call) (now_ms window_ms : ℕ) where
  record_run-After :
      (job : Job) (m : ℕ) (c : Call) (h : History)
      → IsFound now_ms window_ms job m
      → (claim job.job_id m h.jobs).0 ≡ true
      → After now_ms window_ms job h (record_run job m c (claim job.job_id m h.jobs).1).1
  unfolding record_run
  record_run-After job m c h f granted =
      let i = claim_step job.job_id m h in
      elim (Bool-cases c.finish_works) [
        | inl works ↦
            let v = verdict_of c.ending in
            (i.claims, rw works (runs m (status_of v.is_ok) c.elapsed_ms v.err_msg f granted))
        | inr fails ↦ (i.claims, rw fails (only_claims m f))
      ]

  run_claimed-After :
      (job : Job) (m : ℕ) (g : Bool) (h : History)
      → IsFound now_ms window_ms job m
      → (claim job.job_id m h.jobs).0 ≡ g
      → After now_ms window_ms job h
          (run_claimed call now_ms window_ms job m (g, (claim job.job_id m h.jobs).1)).1
  unfolding run_claimed
  run_claimed-After job m false h f e = ((claim_step job.job_id m h).claims, only_claims m f)
  run_claimed-After job m true h f e = elim (Bool-cases (is_in job.handler handler_names)) [
    | inl known ↦ rw known (record_run-After job m (call job m) h f e)
    | inr unknown ↦ rw unknown ((claim_step job.job_id m h).claims, only_claims m f)
  ]

  after_search-After :
      (job : Job) (o : Outcome ℕ) (h : History)
      → find_recent_match job.cron_expr now_ms (to_ms job.last_run_at) window_ms ≡ o
      → After now_ms window_ms job h (after_search call now_ms window_ms job h.jobs o).1
  after_search-After job (raise e) h eq = (h.claims, idles)
  after_search-After job (ok m) h eq = elim (Bool-cases (m == 0 || leb m (to_ms job.last_run_at))) [
    | inl skip ↦ rw skip (h.claims, idles)
    | inr go ↦
        let later : to_ms job.last_run_at < m = ground arith in
        rw go (run_claimed-After job m (claim job.job_id m h.jobs).0 h (eq, later) refl)
  ]

  run_job-After :
      (job : Job) (h : History)
      → After now_ms window_ms job h (run_job call now_ms window_ms job h.jobs).1
  unfolding run_job
  run_job-After job h =
      after_search-After job
        (find_recent_match job.cron_expr now_ms (to_ms job.last_run_at) window_ms) h refl

  -- The table after a round and the rest of the loop is the round's, or the rest's.
  run_job_cases :
      (t : Ticked) (jobs : List Job)
      → ((then_jobs t (run_jobs call now_ms window_ms jobs)).1 ≡ t.1)
        ⊎ ((then_jobs t (run_jobs call now_ms window_ms jobs)).1
            ≡ (run_jobs call now_ms window_ms jobs t.1).1)
  run_job_cases (raise e, table) jobs = inl refl
  run_job_cases (ok fired, table) jobs = inr (append_fired_table fired _)

  run_jobs-Rounds :
      (jobs : List Job) (h : History)
      → (cs : List (String × ℕ)) × Rounds now_ms window_ms jobs h
          (record { jobs = (run_jobs call now_ms window_ms jobs h.jobs).1; claims = cs })
  unfolding run_jobs
  run_jobs-Rounds [] h = (h.claims, stops)
  run_jobs-Rounds (job ∷ jobs) h =
      let (cs, r) = run_job-After job h in
      elim (run_job_cases (run_job call now_ms window_ms job h.jobs) jobs) [
        | inl last ↦ (cs, rw last (goes_on r stops))
        | inr more ↦
            let (ds, q) =
              run_jobs-Rounds jobs
                (record { jobs = (run_job call now_ms window_ms job h.jobs).1; claims = cs }) in
            (ds, rw more (goes_on r q))
      ]

  -- A tick does to the table what rounds for the enabled jobs do, in their order, perhaps not to the
  -- last: each round changes nothing, or claims by compare-and-swap the minute that the search found
  -- for its job, or does so, is granted the claim and writes the end of the run. So the table is
  -- reached by the steps under which no minute of a job is claimed twice.
  pub run_tick-Follows :
      (h : History)
      → Follows now_ms window_ms (due_jobs h.jobs) h (run_tick call now_ms window_ms h.jobs).1
  unfolding run_tick
  run_tick-Follows h =
      let (cs, r) = run_jobs-Rounds (due_jobs h.jobs) h in
      followed now_ms window_ms (due_jobs h.jobs) h _ cs r

  -- What holds of a run that is reported: it is of a job of the snapshot, for a whole minute that
  -- the search found, later than the job's last run.
  pub record IsDue (job : Job) (f : Fired) : Type 0 where
    of_job : f.job_id ≡ job.job_id
    found :
        find_recent_match job.cron_expr now_ms (to_ms job.last_run_at) window_ms ≡ ok f.matched_at
    later : to_ms job.last_run_at < f.matched_at
    known : is_in job.handler handler_names ≡ true
    judged : f.is_ok ≡ (verdict_of (call job f.matched_at).ending).is_ok

  run_claimed-IsDue :
      (job : Job) (m : ℕ) (g : Bool × List Job)
      → find_recent_match job.cron_expr now_ms (to_ms job.last_run_at) window_ms ≡ ok m
      → to_ms job.last_run_at < m
      → All (IsDue job) (run_claimed call now_ms window_ms job m g).0
  unfolding run_claimed record_run
  run_claimed-IsDue job m (false, t) e l = tt
  run_claimed-IsDue job m (true, t) e l = elim (Bool-cases (is_in job.handler handler_names)) [
    | inl known ↦
        rw known (record { of_job = refl; found = e; later = l; known = known; judged = refl }, tt)
    | inr unknown ↦ rw unknown tt
  ]

  after_search-IsDue :
      (job : Job) (o : Outcome ℕ) (t : List Job) {fired : List Fired}
      → find_recent_match job.cron_expr now_ms (to_ms job.last_run_at) window_ms ≡ o
      → (after_search call now_ms window_ms job t o).0 ≡ ok fired
      → All (IsDue job) fired
  after_search-IsDue job (raise e) t eq h = cc
  after_search-IsDue job (ok m) t {fired} eq h =
      elim (Bool-cases (m == 0 || leb m (to_ms job.last_run_at))) [
        | inl skip ↦ let none_ : [] ≡ fired = ground arith in subst (All (IsDue job)) none_ tt
        | inr go ↦
            let same : (run_claimed call now_ms window_ms job m (claim job.job_id m t)).0 ≡ fired =
              ground arith in
            subst (All (IsDue job)) same
              (run_claimed-IsDue job m (claim job.job_id m t) eq (ground arith))
      ]

  -- Every run that one round of the loop reports is due.
  pub run_job-IsDue :
      (job : Job) (t : List Job) (fired : List Fired)
      → (run_job call now_ms window_ms job t).0 ≡ ok fired
      → All (IsDue job) fired
  unfolding run_job
  run_job-IsDue job t fired h =
      after_search-IsDue job
        (find_recent_match job.cron_expr now_ms (to_ms job.last_run_at) window_ms) t refl h

  -- A minute field whose first part is no number, range, step or star stops the tick with a
  -- ValueError at the job, where the window up to now is not empty and the expression has five
  -- fields: the table stays as the earlier jobs left it, and no later job of the snapshot runs.
  pub run_jobs_raise :
      (job : Job) (jobs t : List Job) (expr minute hour dom mon dow part : String)
      (parts : List String)
      → job.cron_expr ≡ some expr
      → words expr ≡ minute ∷ hour ∷ dom ∷ mon ∷ dow ∷ []
      → str_eq minute "*" ≡ false
      → split_on b',' minute ≡ part ∷ parts
      → IsNoNumber part
      → start_of now_ms (to_ms job.last_run_at) window_ms ≤ now_ms
      → run_jobs call now_ms window_ms (job ∷ jobs) t ≡ (raise value_error, t)
  unfolding run_jobs run_job
  run_jobs_raise job jobs t expr minute hour dom mon dow part parts e fields star split bad open_ =
      rw
        (
          e,
          find_recent_match-raise expr minute hour dom mon dow part parts now_ms
              (to_ms job.last_run_at) window_ms fields star split bad open_,
        )
        refl

-- A run counts as a success exactly if the handler returned and its result names no failure.
pub verdict_ok_iff :
    (e : Ending)
    → ((verdict_of e).is_ok ≡ true) ↔ ((r : Result) × (e ≡ returned r) × (failure_reason r ≡ fine))
unfolding verdict_of
verdict_ok_iff (raised m) = ((λ h. cc), λ (r, e, f). cc)
verdict_ok_iff (returned r) = ((λ h. (r, refl, ground arith)), λ (r', e, f). ground arith)
