-- ===== src/Pairing/Admin.antt =====
-- The administrator's side: `api/views/telegram_pair.py`, after the check of the access token.
-- `now` is SYSTIMESTAMP, `codes` are the three codes that `_generate_code` would draw.
use Prim.Native.String
use Prim.Native.Char.{code}
use ddochi_backend.Prelude.{
  ℕ, ◌+◌, String, Bool, Option, none, some, List, [], ◌∷◌, not, ◌&&◌, ◌||◌, ◌==◌, is_none,
  if◌then◌else◌,
}
use ddochi_backend.Prelude.Text.{is_empty, strip, text_or_empty}
use ddochi_backend.Pairing.Channels.{ChannelDef, channel_def, title_key}
use ddochi_backend.Pairing.Config.{null, Patch, patch_team_config}
use ddochi_backend.Pairing.Rows.{
  Pairing, Store, update_pairing, is_for, is_open, first_where, delete_where, ten_minutes,
  is_expired, is_refused,
}

pub record Request : Type 0 where
  pub is_post : Bool
  pub sabun : String
  pub team : Option String
  pub channel_type : Option String

pub data Reply : Type 0 where
  fail : ℕ → String → Reply
  -- `telegram_pair_start`: the code and its `command`
  started : String → String → Reply
  -- the states of `telegram_pair_status`
  none_yet : Reply
  pending : String → Reply
  expired : Reply
  completed : (chat_id chat_title : Option String) → Reply
  -- a success message
  done : String → Reply

-- `s.rstrip('팀')`
unfoldable pub drop_team_suffix : String → String
drop_team_suffix String.[] = String.[]
drop_team_suffix (String.◌∷◌ c s) =
    let rest = drop_team_suffix s in
    if is_empty rest && code c == 54016 then String.[] else String.◌∷◌ c rest

unfoldable pub request_team : Request → String
unfolding drop_team_suffix
request_team r = drop_team_suffix (strip (text_or_empty r.team))

unfoldable pub request_channel : Request → String
request_channel r = strip (text_or_empty r.channel_type)

-- `_pair_command`, with TELEGRAM_BOT_USERNAME
unfoldable pub pair_command : (bot k : String) → String
pair_command bot k =
    if is_empty bot
    then String.◌++◌ "/pair " k
    else String.◌++◌ "/pair@" (String.◌++◌ bot (String.◌++◌ " " k))

abbrev pub extend : ℕ → Pairing → Pairing
extend now p = record p { expires_at = now + ten_minutes }

abbrev pub new_pairing : String → String → String → String → ℕ → Pairing
new_pairing k team channel sabun now = record {
  code = k;
  team_id = team;
  channel_type = channel;
  issued_by = sabun;
  expires_at = now + ten_minutes;
  completed_at = none;
  chat_id = none;
  chat_title = none;
}

-- `for _ in range(3)`: the first code whose INSERT is not refused
unfoldable pub issue : (bot team channel sabun : String) → ℕ → Store → List String → Reply × Store
unfolding pair_command
issue bot team channel sabun now s [] = (fail 500 "코드 발급 실패, 다시 시도해줘", s)
issue bot team channel sabun now s (k ∷ ks) =
    let p = new_pairing k team channel sabun now in
    let rest = issue bot team channel sabun now s ks in
    if is_refused p s
    then rest
    else (started k (pair_command bot k), record s { pairings = p ∷ s.pairings })

-- From the query for an open code to the end
unfoldable pub start_found :
    (bot team channel sabun : String) → ℕ → List String → Store → Option Pairing → Reply × Store
unfolding pair_command
start_found bot team channel sabun now codes s (some p) = (
  started p.code (pair_command bot p.code),
  record s { pairings = update_pairing p.code (extend now) s.pairings },
)
start_found bot team channel sabun now codes s none = issue bot team channel sabun now s codes

unfoldable pub telegram_pair_start :
    (bot : String) → ℕ → List String → Request → Store → Reply × Store
telegram_pair_start bot now codes r s =
    if not r.is_post
    then (fail 405 "method_not_allowed", s)
    else if is_empty (request_team r)
    then (fail 400 "team 필요", s)
    else if is_none (channel_def (request_channel r))
    then (fail 400 "invalid channelType", s)
    else start_found bot (request_team r) (request_channel r) r.sabun now codes s
        (first_where (is_open (request_team r) (request_channel r)) s.pairings)

abbrev pub status_of : ℕ → Option Pairing → Reply
status_of now none = none_yet
status_of now (some p) =
    if not (is_none p.completed_at)
    then completed p.chat_id p.chat_title
    else if is_expired now p
    then expired
    else pending p.code

abbrev pub is_bad : Request → Bool
is_bad r = is_empty (request_team r) || is_none (channel_def (request_channel r))

unfoldable pub telegram_pair_status : ℕ → Request → Store → Reply
telegram_pair_status now r s =
    if not r.is_post
    then fail 405 "method_not_allowed"
    else if is_bad r
    then fail 400 "team, channelType 필요"
    else status_of now (first_where (is_for (request_team r) (request_channel r)) s.pairings)

-- `lastMsgIdField`, when the channel has one
abbrev pub last_message : ChannelDef → Patch
last_message d = elim d.last_msg_id_field [ none ↦ [] | some f ↦ (f, null) ∷ [] ]

abbrev pub disconnect_patch : ChannelDef → Patch
disconnect_patch d = (d.field, null) ∷ (title_key d.field, null) ∷ last_message d

unfoldable pub disconnect_found : String → Store → Option ChannelDef → Reply × Store
disconnect_found team s none = (fail 400 "team, channelType 필요", s)
disconnect_found team s (some d) = (
  done (String.◌++◌ d.label " 연결 해제 완료"),
  record s { configs = patch_team_config team (disconnect_patch d) s.configs },
)

unfoldable pub telegram_pair_disconnect : Request → Store → Reply × Store
telegram_pair_disconnect r s =
    if not r.is_post
    then (fail 405 "method_not_allowed", s)
    else if is_empty (request_team r)
    then (fail 400 "team, channelType 필요", s)
    else disconnect_found (request_team r) s (channel_def (request_channel r))

unfoldable pub telegram_pair_cancel : Request → Store → Reply × Store
telegram_pair_cancel r s =
    if not r.is_post
    then (fail 405 "method_not_allowed", s)
    else if is_bad r
    then (fail 400 "team, channelType 필요", s)
    else (
      done "취소됐어",
      record s {
        pairings = delete_where (is_open (request_team r) (request_channel r)) s.pairings;
      },
    )
