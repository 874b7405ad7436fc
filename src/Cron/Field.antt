-- ===== src/Cron/Field.antt =====
-- `_match_field` of cron_match.py.
use ddochi_backend.Prelude.{
  ℕ, ◌+◌, ◌-◌, ◌%◌, ◌≡◌, refl, String, Bool, true, false, none, some, List, [], ◌∷◌, ◌&&◌, leb,
  ◌==◌, if◌then◌else◌,
}
use ddochi_backend.Prelude.Text.{str_eq, split_on}
use ddochi_backend.Prelude.Int.{ℤ, pos, negsuc, abs, int_value}
use ddochi_backend.Prelude.Outcome.{Outcome, ok, raise, value_error, zero_division, ◌>>=◌}

-- `int(s)`
unfoldable pub py_int : String → Outcome ℤ
py_int s = elim (int_value s) [ none ↦ raise value_error | some n ↦ ok n ]

-- `a, b = parts`
unfoldable pub two_parts : List String → Outcome (String × String)
two_parts (a ∷ b ∷ []) = ok (a, b)
two_parts _ = raise value_error

-- `c in s` for one character
unfoldable pub has_char : ℕ → String → Bool
has_char c s = elim (split_on c s) [ [] ↦ false | w ∷ ws ↦ elim ws [ [] ↦ false | v ∷ vs ↦ true ] ]

-- The part before `/`, and the step
unfoldable pub split_step : String → Outcome (String × ℤ)
split_step part =
    if has_char b'/' part
    then (do (rng, s) ← two_parts (split_on b'/' part); step ← py_int s; ok (rng, step))
    else ok (part, pos 1)

-- `lo` and `hi`; a part with no `-` in it has no negative number.
unfoldable pub range_of : String → ℕ → ℕ → Outcome (ℤ × ℤ)
range_of part lo_bound hi_bound =
    if str_eq part "*"
    then ok (pos lo_bound, pos hi_bound)
    else if has_char b'-' part
    then (do (a, b) ← two_parts (split_on b'-' part); lo ← py_int a; hi ← py_int b; ok (lo, hi))
    else (do n ← py_int part; ok (n, n))

-- `(value - lo) % step == 0`, the difference being at least 0
unfoldable pub steps_to : ℤ → ℕ → Outcome Bool
steps_to step distance =
    if abs step == 0 then raise zero_division else ok (distance % abs step == 0)

-- `lo <= value <= hi and (value - lo) % step == 0`
unfoldable pub hits : ℤ → ℤ → ℤ → ℕ → Outcome Bool
unfolding steps_to
hits (pos lo) (pos hi) step value =
    if leb lo value && leb value hi then steps_to step (value - lo) else ok false
hits (negsuc lo) (pos hi) step value =
    if leb value hi then steps_to step (value + (lo + 1)) else ok false
hits lo (negsuc hi) step value = ok false

unfoldable pub match_part : String → ℕ → ℕ → ℕ → Outcome Bool
unfolding split_step range_of hits two_parts py_int has_char int_value split_on
match_part raw_part value lo_bound hi_bound = do
  (part, step) ← split_step raw_part
  (lo, hi) ← range_of part lo_bound hi_bound
  hits lo hi step value

-- The loop over the parts
unfoldable pub match_parts : List String → ℕ → ℕ → ℕ → Outcome Bool
unfolding match_part
match_parts [] value lo_bound hi_bound = ok false
match_parts (p ∷ ps) value lo_bound hi_bound = do
  hit ← match_part p value lo_bound hi_bound
  if hit then ok true else match_parts ps value lo_bound hi_bound

unfoldable pub match_field : String → ℕ → ℕ → ℕ → Outcome Bool
unfolding match_parts
match_field field value lo_bound hi_bound =
    if str_eq field "*" then ok true else match_parts (split_on b',' field) value lo_bound hi_bound

tests :
    (match_field "*/15" 45 0 59 ≡ ok true)
    × (match_field "1-5" 6 0 6 ≡ ok false)
    × (match_field "0,20-30/5" 25 0 59 ≡ ok true)
    × (match_field "x" 3 0 59 ≡ raise value_error)
    × (match_field "*/0" 3 0 59 ≡ raise zero_division)
    × (match_field "5/0" 3 0 59 ≡ ok false)
unfolding match_field
tests = (refl, refl, refl, refl, refl, refl)
