-- ===== src/Buttons/Signing.antt =====
-- The signed buttons: `api/telegram/callback_hmac.py`, which signs, `tel_router_py/hmac_verify.py`,
-- which verifies, and `_hj_sign_ts` and `_hj_cb` of `api/telegram/habjaeyang.py`.
-- `digest secret message` is the base64 text of HMAC-SHA256, an argument, as is the end of a day,
-- which `datetime` computes. Times are milliseconds; a chat is the text of its id.
use Prim.Native.Char.{code}
use Prim.Native.String
use ddochi_backend.Prelude.{
  ℕ, ◌+◌, ◌-◌, ◌*◌, max, min, String, Bool, true, false, Option, none, some, List, [], ◌∷◌, not,
  ◌&&◌, ◌||◌, ltb, leb, ◌==◌, if◌then◌else◌,
}
use ddochi_backend.Prelude.Outcome.{Outcome, ok, ◌>>=◌}
use ddochi_backend.Prelude.Text.{is_empty, split_on, prefix_of, text_or_empty}
use ddochi_backend.Prelude.Int.{ℤ, pos, negsuc, decimal, int_value}
use ddochi_backend.Pairing.Bearer.{compare_digest}

abbrev pub Digest : Type 0
Digest = (secret message : String) → String

-- `a|b`
abbrev pub with_bar : String → String → String
with_bar a b = String.◌++◌ a (String.◌++◌ "|" b)

-- `str(i)`
abbrev pub int_decimal : ℤ → String
int_decimal (pos n) = decimal n
int_decimal (negsuc n) = String.◌++◌ "-" (decimal (n + 1))

-- `_compute_hmac` of `api/telegram/callback_hmac.py`
unfoldable pub compute_hmac : Digest → (secret action args ts chat : String) → String
compute_hmac digest secret action args ts chat =
    prefix_of 11 (digest secret (with_bar action (with_bar args (with_bar ts chat))))

-- `sign_callback_data`, with its time
unfoldable pub sign_callback_data : Digest → (secret action args chat : String) → (ts : ℕ) → String
unfolding compute_hmac
sign_callback_data digest secret action args chat ts = with_bar action (
    with_bar args
      (with_bar (decimal ts) (compute_hmac digest secret action args (decimal ts) chat)))

-- What `verify_callback_data` returns
pub data Verdict : Type 0 where
  refused : String → Verdict
  verified : (action args : String) → ℤ → Verdict

-- A character of `[a-z0-9_-]`, in either case; four letters outside ASCII match one of a to z.
abbrev pub is_action_char : ℕ → Bool
is_action_char c =
    (leb b'a' c && leb c b'z')
    || (leb b'A' c && leb c b'Z')
    || (leb b'0' c && leb c b'9')
    || c == b'_'
    || c == b'-'
    || c == 304
    || c == 305
    || c == 383
    || c == 8490

-- A final newline is passed over.
unfoldable pub all_action : String → Bool
all_action String.[] = true
all_action (String.◌∷◌ c s) =
    (is_action_char (code c) && all_action s) || (code c == b'\n' && is_empty s)

-- `ACTION_RE.match`
unfoldable pub is_action : String → Bool
unfolding all_action
is_action String.[] = false
is_action (String.◌∷◌ c s) = is_action_char (code c) && all_action s

-- `abs(now - ts)`
abbrev pub distance : ℕ → ℤ → ℕ
distance now (pos n) = (now - n) + (n - now)
distance now (negsuc n) = now + n + 1

abbrev pub after_compare : (action args : String) → ℤ → Bool → Outcome Verdict
after_compare action args ts same =
    ok (if same then verified action args ts else refused "hmac_mismatch")

-- `_compute_hmac` of `tel_router_py/hmac_verify.py`
unfoldable pub router_hmac : Digest → (secret action args ts chat : String) → String
router_hmac digest secret action args ts chat = prefix_of 11 (
    digest secret (
      String.◌++◌ action (
        String.◌++◌ "|"
          (String.◌++◌ args (String.◌++◌ "|" (String.◌++◌ ts (String.◌++◌ "|" chat)))))))

unfoldable pub check_time :
    Digest → (secret action args chat mac : String) → (window now : ℕ) → Option ℤ → Outcome Verdict
unfolding router_hmac compare_digest
check_time digest secret action args chat mac window now none = ok (refused "bad_ts")
check_time digest secret action args chat mac window now (some ts) =
    if ltb window (distance now ts)
    then ok (refused "ts_expired")
    else compare_digest mac (router_hmac digest secret action args (int_decimal ts) chat)
      >>= after_compare action args ts

unfoldable pub check_parts :
    Digest → (secret chat : String) → (window now : ℕ) → List String → Outcome Verdict
unfolding is_action check_time
check_parts digest secret chat window now (action ∷ args ∷ ts ∷ mac ∷ []) =
    if not (is_action action)
    then ok (refused "bad_action")
    else check_time digest secret action args chat mac window now (int_value ts)
check_parts digest secret chat window now _ = ok (refused "bad_format")

unfoldable pub verify_callback_data :
    Digest
    → (secret : String) → Option String
    → (chat : String) → (window now : ℕ) → Outcome Verdict
unfolding check_parts split_on
verify_callback_data digest secret data_ chat window now =
    if is_empty secret
    then ok (refused "hmac_secret_unset")
    else if is_empty (text_or_empty data_)
    then ok (refused "empty")
    else check_parts digest secret chat window now (split_on b'|' (text_or_empty data_))

-- `CALLBACK_TS_WINDOW_MS`, also `_WEEK_MS`
abbrev pub week_ms : ℕ
week_ms = 7 * 24 * 3600000

abbrev pub within_week : ℕ → Option ℕ → ℕ
within_week now none = now
within_week now (some end_) = max now (min end_ (now + week_ms))

-- `_hj_sign_ts`: `end_of_day` is the last second in Korea of the date in the text, if it is one.
unfoldable pub hj_sign_ts : (end_of_day : String → Option ℕ) → Option String → (now : ℕ) → ℕ
hj_sign_ts end_of_day at now = within_week now (end_of_day (prefix_of 10 (text_or_empty at)))

-- `_hj_cb`: without a secret or a chat the button is not signed.
unfoldable pub hj_cb :
    Digest
    → (secret : String) → (chat : Option String) → (sarang_id code_ : String) → (ts : ℕ) → String
unfolding sign_callback_data
hj_cb digest secret none sarang_id code_ ts = with_bar "hj" (with_bar sarang_id code_)
hj_cb digest secret (some chat) sarang_id code_ ts =
    if is_empty secret
    then with_bar "hj" (with_bar sarang_id code_)
    else sign_callback_data digest secret "hj" (String.◌++◌ sarang_id (String.◌++◌ "." code_)) chat
        ts
