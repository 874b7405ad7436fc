-- ===== src/Cron/Match.antt =====
-- `match_cron` and `find_recent_match` of cron_match.py.
use Prim.Native.Char.{code}
use Prim.Native.String
use ddochi_backend.Prelude.{
  ℕ, zero, suc, ◌+◌, ◌-◌, ◌*◌, ◌/◌, ◌%◌, max, ◌≡◌, refl, String, Bool, true, false, Option, none,
  some, List, [], ◌∷◌, ltb, if◌then◌else◌,
}
use ddochi_backend.Prelude.Text.{is_space, is_empty}
use ddochi_backend.Prelude.Outcome.{Outcome, ok, raise, no_fuel, ◌>>=◌}
use ddochi_backend.Cron.Field.{match_field}
use ddochi_backend.Cron.Clock.{from_timestamp_kst}

-- `s.split()`: the words between white space; `cur` holds the word that is open.
words_from : String → String → List String
unfolding is_space
words_from cur String.[] = if is_empty cur then [] else cur ∷ []
words_from cur (String.◌∷◌ c s) =
    let closed = words_from "" s in
    let longer = words_from (String.◌++◌ cur (String.◌∷◌ c "")) s in
    if is_space (code c) then (if is_empty cur then closed else cur ∷ closed) else longer

-- `str(expr or '').strip().split()`
unfoldable pub words : String → List String
unfolding words_from
words s = words_from "" s

-- `a and b` of two calls: the second is made only if the first answers True.
abbrev pub and_then : Outcome Bool → Outcome Bool → Outcome Bool
and_then a b = a >>= λ x. if x then b else ok false

-- The five fields against the minute that `at_ms` lies in
unfoldable pub match_fields : List String → ℕ → Outcome Bool
unfolding match_field from_timestamp_kst
match_fields (minute ∷ hour ∷ dom ∷ mon ∷ dow ∷ []) at_ms =
    let d = from_timestamp_kst at_ms in
    let cron_dow = (d.weekday + 1) % 7 in
    and_then (match_field minute d.minute 0 59) (
      and_then (match_field hour d.hour 0 23) (
        and_then (match_field dom d.day 1 31)
          (and_then (match_field mon d.month 1 12) (match_field dow cron_dow 0 6))))
match_fields _ at_ms = ok false

-- `expr` is none where the column is NULL.
unfoldable pub match_cron : Option String → ℕ → Outcome Bool
unfolding match_fields words
match_cron none at_ms = ok false
match_cron (some expr) at_ms = match_fields (words expr) at_ms

abbrev pub minute_ms : ℕ
minute_ms = 60 * 1000

-- `-(-last_run_ms // minute_ms) * minute_ms if last_run_ms else 0`
unfoldable pub past_last_min : ℕ → ℕ
past_last_min last_run_ms = (last_run_ms + (minute_ms - 1)) / minute_ms * minute_ms

-- `max(now_ms - window_ms, past_last_min)`: the second is at least 0, so that the difference may
-- stop at 0.
unfoldable pub start_of : ℕ → ℕ → ℕ → ℕ
unfolding past_last_min
start_of now_ms last_run_ms window_ms = max (now_ms - window_ms) (past_last_min last_run_ms)

-- `(t // minute_ms) * minute_ms`
unfoldable pub floor_minute : ℕ → ℕ
floor_minute t = t / minute_ms * minute_ms

-- `while t >= start`, on fuel. Below one minute the next `t` is negative, hence below `start`.
unfoldable pub search_back : ℕ → (ℕ → Outcome Bool) → ℕ → ℕ → Outcome ℕ
search_back zero matches start t = raise no_fuel
search_back (suc fuel) matches start t =
    let rest = search_back fuel matches start (t - minute_ms) in
    let further = if ltb t minute_ms then ok 0 else rest in
    if ltb t start then ok 0 else matches t >>= λ hit. if hit then ok (floor_minute t) else further

unfoldable pub find_recent_match : Option String → ℕ → ℕ → ℕ → Outcome ℕ
unfolding match_cron start_of search_back floor_minute
find_recent_match expr now_ms last_run_ms window_ms =
    search_back (now_ms / minute_ms + 1) (match_cron expr) (start_of now_ms last_run_ms window_ms)
      now_ms

tests :
    (match_cron (some "20 9 * * 1") 1791159600000 ≡ ok true)
    × (find_recent_match (some "0 * * * *") 1791159600000 0 3600000 ≡ ok 1791158400000)
    × (find_recent_match (some "0 * * * *") 1791159600000 1791158400001 3600000 ≡ ok 0)
unfolding find_recent_match
tests = (refl, refl, refl)
