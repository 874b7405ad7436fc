-- ===== src/Sarang/Bot.antt =====
-- `telegram_callback` of `api/views/internal_telegram.py`: what the bot router passes on for a tap.
use ddochi_backend.Prelude.{ℕ, String, Bool, true, false, Option, none, not, if◌then◌else◌}
use ddochi_backend.Prelude.Outcome.{Outcome, ok, ◌>>=◌}
use ddochi_backend.Prelude.Text.{str_eq, strip, text_or_empty, non_empty}
use ddochi_backend.Pairing.Bearer.{check_internal_auth}
use ddochi_backend.Sarang.Tables.{Store}
use ddochi_backend.Sarang.Taps.{Tapped, handle_hj}
use ddochi_backend.Sarang.ResultTaps.{handle_callback}

pub record CallbackRequest : Type 0 where
  pub is_post : Bool
  pub header : String
  pub action : String
  pub args : String
  pub from_id : Option String

pub data CallbackReply : Type 0 where
  denied : ℕ → CallbackReply
  toast : Option String → CallbackReply

abbrev pub toast_reply : Tapped → CallbackReply × Store
toast_reply (t, s) = (toast t, s)

unfoldable pub callback_authorized :
    (new_id : ℕ → String) (now : String)
    → CallbackRequest
    → Store
    → Bool
    → Outcome (CallbackReply × Store)
unfolding handle_hj handle_callback
callback_authorized new_id now r s false = ok (denied 401, s)
callback_authorized new_id now r s true =
    let who = non_empty (strip (text_or_empty r.from_id)) in
    if str_eq r.action "mr"
    then handle_callback new_id who r.args s >>= (λ t. ok (toast_reply t))
    else if str_eq r.action "hj"
    then ok (toast_reply (handle_hj new_id now who r.args s))
    else ok (toast none, s)

-- `telegram_callback`
unfoldable pub telegram_callback :
    (new_id : ℕ → String) (now token : String)
    → CallbackRequest
    → Store
    → Outcome (CallbackReply × Store)
unfolding callback_authorized
telegram_callback new_id now token r s =
    if not r.is_post
    then ok (denied 405, s)
    else check_internal_auth token r.header >>= callback_authorized new_id now r s
