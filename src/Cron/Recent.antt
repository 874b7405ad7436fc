-- ===== src/Cron/Recent.antt =====
-- The look-back search finds the latest matching minute of the window.
use ddochi_backend.Prelude.{
  ℕ, zero, suc, ◌+◌, ◌-◌, ◌*◌, ◌/◌, ◌%◌, ◌≤◌, ◌<◌, ◌≡◌, ◌≢◌, refl, sym, ap, ◌⊎◌, inl, inr, String,
  Bool, true, false, Option, arith, ltb, Bool-cases, ltb→lt,
}
use ddochi_backend.Prelude.Outcome.{Outcome, ok}
use ddochi_backend.Cron.Match.{
  match_cron, minute_ms, start_of, floor_minute, search_back, find_recent_match,
}

module _ (matches : ℕ → Outcome Bool) (start : ℕ) where
  -- The time `k` minutes before `t` is the first, going back, that matches.
  pub record IsLatest (t r k : ℕ) : Type 0 where
    in_window : start + k * minute_ms ≤ t
    hit : matches (t - k * minute_ms) ≡ ok true
    result : r ≡ floor_minute (t - k * minute_ms)
    earlier : (j : ℕ) → j < k → matches (t - j * minute_ms) ≡ ok false

  -- No time of the window matches.
  pub record IsQuiet (t r : ℕ) : Type 0 where
    result : r ≡ 0
    quiet : (j : ℕ) → start + j * minute_ms ≤ t → matches (t - j * minute_ms) ≡ ok false

  abbrev pub Answers : ℕ → ℕ → Type 0
  Answers t r = ((k : ℕ) × IsLatest t r k) ⊎ IsQuiet t r

  IsQuiet-now : (t : ℕ) → t < start → IsQuiet t 0
  IsQuiet-now t h = record { result = refl; quiet = λ j w. absurd (omega arith) }

  no_back : (t : ℕ) → t - 0 * minute_ms ≡ t
  no_back t = omega arith

  IsLatest-now : (t : ℕ) → start ≤ t → matches t ≡ ok true → IsLatest t (floor_minute t) 0
  IsLatest-now t h m = record {
    in_window = omega arith;
    hit = rw (no_back t) m;
    result = ap floor_minute (sym (no_back t));
    earlier = λ j lt. absurd (omega arith);
  }

  step_back : (t j : ℕ) → t - suc j * minute_ms ≡ t - minute_ms - j * minute_ms
  step_back t j = omega arith

  IsQuiet-last : (t : ℕ) → t < minute_ms → matches t ≡ ok false → IsQuiet t 0
  IsQuiet-last t h m = record { result = refl; quiet = go }
    where
      go : (j : ℕ) → start + j * minute_ms ≤ t → matches (t - j * minute_ms) ≡ ok false
      go zero w = rw (no_back t) m
      go (suc j) w = absurd (omega arith)

  later_answer :
      (t r : ℕ) → minute_ms ≤ t → matches t ≡ ok false → Answers (t - minute_ms) r → Answers t r
  later_answer t r h m (inl (k, a)) = inl (
    suc k,
    record {
      in_window = omega (arith, a.in_window);
      hit = rw (step_back t k) a.hit;
      result = rw (step_back t k) a.result;
      earlier = go;
    },
  )
    where
      go : (j : ℕ) → j < suc k → matches (t - j * minute_ms) ≡ ok false
      go zero lt = rw (no_back t) m
      go (suc j) lt = rw (step_back t j) (a.earlier j (omega arith))
  later_answer t r h m (inr q) = inr (record { result = q.result; quiet = go })
    where
      go : (j : ℕ) → start + j * minute_ms ≤ t → matches (t - j * minute_ms) ≡ ok false
      go zero w = rw (no_back t) m
      go (suc j) w = rw (step_back t j) (q.quiet j (omega arith))

  abbrev pub IsTotal : Type 0
  IsTotal = (t : ℕ) → (b : Bool) × (matches t ≡ ok b)

  -- One round of the loop at a time in the window, by the answer for that time
  round-Answers :
      (fuel t : ℕ) (b : Bool)
      → start ≤ t
      → matches t ≡ ok b
      → (minute_ms ≤ t
          → (r : ℕ) × (search_back fuel matches start (t - minute_ms) ≡ ok r)
            × Answers (t - minute_ms) r)
      → (r : ℕ) × (search_back (suc fuel) matches start t ≡ ok r) × Answers t r
  unfolding search_back
  round-Answers fuel t true h m rest =
      let late : ltb t start ≡ false = ground arith in
      (floor_minute t, rw (late, m), inl (0, IsLatest-now t h m))
  round-Answers fuel t false h m rest =
      let late : ltb t start ≡ false = ground arith in
      elim (Bool-cases (ltb t minute_ms)) [
        | inl last ↦ (0, rw (late, m, last), inr (IsQuiet-last t (ltb→lt _ _ last) m))
        | inr more ↦
            let full : minute_ms ≤ t = ground arith in
            let (r, e, a) = rest full in (r, rw (late, m, more) e, later_answer t r full m a)
      ]

  search_back-Answers :
      IsTotal
      → (fuel t : ℕ) → t / minute_ms < fuel
      → (r : ℕ) × (search_back fuel matches start t ≡ ok r) × Answers t r
  unfolding search_back
  search_back-Answers total zero t enough = absurd (omega arith)
  search_back-Answers total (suc fuel) t enough =
      let (b, m) = total t in
      elim (Bool-cases (ltb t start)) [
        | inl early ↦ (0, rw early, inr (IsQuiet-now t (ltb→lt _ _ early)))
        | inr late ↦
            round-Answers fuel t b (ground arith) m
              (λ full. search_back-Answers total fuel (t - minute_ms) (omega arith))
      ]

-- For an expression that never raises, the search returns, and what it returns is the floor to
-- the minute of the latest time `now - k` minutes of the window that matches, every later one
-- having been tested and failed; or 0, and then no such time of the window matches.
pub find_recent_match_latest :
    (expr : Option String) (now_ms last_run_ms window_ms : ℕ)
    → IsTotal (match_cron expr) (start_of now_ms last_run_ms window_ms)
    → (r : ℕ) × (find_recent_match expr now_ms last_run_ms window_ms ≡ ok r)
      × Answers (match_cron expr) (start_of now_ms last_run_ms window_ms) now_ms r
unfolding find_recent_match
find_recent_match_latest expr now_ms last_run_ms window_ms total =
    search_back-Answers (match_cron expr) (start_of now_ms last_run_ms window_ms) total
      (now_ms / minute_ms + 1) now_ms (omega arith)

-- A search that returns was given enough rounds, whether or not the expression can raise.
search_back_bounds :
    (matches : ℕ → Outcome Bool) (start fuel t r : ℕ)
    → search_back fuel matches start t ≡ ok r
    → r ≢ 0
    → (start < r + minute_ms) × (r ≤ t) × (r % minute_ms ≡ 0)
unfolding search_back floor_minute
search_back_bounds matches start zero t r h n = cc
search_back_bounds matches start (suc fuel) t r h n =
    ground (arith, search_back_bounds matches start fuel (t - minute_ms) r)

-- A minute that is found is a whole minute, not in the future, in the window to within a minute,
-- and not before the last run.
pub find_recent_match_bounds :
    (expr : Option String) (now_ms last_run_ms window_ms r : ℕ)
    → find_recent_match expr now_ms last_run_ms window_ms ≡ ok r
    → r ≢ 0
    → (r % minute_ms ≡ 0) × (r ≤ now_ms) × (now_ms < r + minute_ms + window_ms) × (last_run_ms ≤ r)
unfolding find_recent_match start_of
find_recent_match_bounds expr now_ms last_run_ms window_ms r h n =
    let (from_, upto, whole) =
      search_back_bounds (match_cron expr) (start_of now_ms last_run_ms window_ms)
        (now_ms / minute_ms + 1) now_ms r h n in
    (whole, upto, omega arith, omega arith)
