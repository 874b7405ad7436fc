-- ===== src/Cron/Unread.antt =====
-- Expressions that `cron_match.py` cannot read: where `int` raises a ValueError.
use ddochi_backend.Prelude.{
  ℕ, suc, ◌+◌, ◌/◌, ◌≤◌, ◌≡◌, refl, ◌∙◌, ap, String, Bool, false, none, some, List, [], ◌∷◌, ltb,
  arith,
}
use ddochi_backend.Prelude.Text.{str_eq, split_on}
use ddochi_backend.Prelude.Int.{int_value}
use ddochi_backend.Prelude.Outcome.{Outcome, raise, value_error}
use ddochi_backend.Cron.Field.{
  py_int, has_char, split_step, range_of, match_part, match_parts, match_field,
}
use ddochi_backend.Cron.Match.{
  words, match_fields, match_cron, minute_ms, start_of, search_back, find_recent_match,
}

-- Neither a star nor a range nor with a step, and not a text that `int` takes
pub record IsNoNumber (part : String) : Type 0 where
  pub no_star : str_eq part "*" ≡ false
  pub no_step : has_char b'/' part ≡ false
  pub no_range : has_char b'-' part ≡ false
  pub no_int : int_value part ≡ none

py_int-raise : (part : String) → int_value part ≡ none → py_int part ≡ raise value_error
unfolding py_int
py_int-raise part h = rw (py_int, h) refl

match_part-raise :
    (part : String) (value lo hi : ℕ)
    → IsNoNumber part
    → match_part part value lo hi ≡ raise value_error
unfolding match_part split_step range_of
match_part-raise part value lo hi n =
    rw (n.no_step, n.no_star, n.no_range, py_int-raise part n.no_int) refl

match_field-raise :
    (field part : String) (parts : List String) (value lo hi : ℕ)
    → str_eq field "*" ≡ false
    → split_on b',' field ≡ part ∷ parts
    → IsNoNumber part
    → match_field field value lo hi ≡ raise value_error
unfolding match_field match_parts
match_field-raise field part parts value lo hi star split n =
    rw (star, split, match_part-raise part value lo hi n) refl

search_back-raise :
    (matches : ℕ → Outcome Bool) (start fuel t : ℕ)
    → matches t ≡ raise value_error
    → start ≤ t
    → search_back (suc fuel) matches start t ≡ raise value_error
unfolding search_back
search_back-raise matches start fuel t h open_ =
    let late : ltb t start ≡ false = ground arith in rw (late, h) refl

-- The search tries the present minute first, and raises there.
pub find_recent_match-raise :
    (expr minute hour dom mon dow part : String) (parts : List String)
    (now_ms last_run_ms window_ms : ℕ)
    → words expr ≡ minute ∷ hour ∷ dom ∷ mon ∷ dow ∷ []
    → str_eq minute "*" ≡ false
    → split_on b',' minute ≡ part ∷ parts
    → IsNoNumber part
    → start_of now_ms last_run_ms window_ms ≤ now_ms
    → find_recent_match (some expr) now_ms last_run_ms window_ms ≡ raise value_error
unfolding find_recent_match match_cron match_fields
find_recent_match-raise expr minute hour dom mon dow part parts now_ms last_run_ms window_ms fields
      star split n open_ =
    let rounds : now_ms / minute_ms + 1 ≡ suc (now_ms / minute_ms) = omega arith in
    let now_raises : match_cron (some expr) now_ms ≡ raise value_error =
      rw (fields, match_field-raise minute part parts _ 0 59 star split n) refl in
    ap
      (λ fuel.
        search_back fuel (match_cron (some expr)) (start_of now_ms last_run_ms window_ms) now_ms)
      rounds
    ∙ search_back-raise (match_cron (some expr)) (start_of now_ms last_run_ms window_ms)
        (now_ms / minute_ms) now_ms now_raises open_
