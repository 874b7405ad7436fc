-- ===== src/Pairing/Complete.antt =====
-- `telegram_pair_complete` of `api/views/telegram_pair_internal.py`: the bot router reports a code
-- that was sent to a chat. Of the first message of a dashboard (`refresh_prospect_dashboard`,
-- `refresh_matching_dashboard`, `send_fresh_dashboard` and its callers) the writing of its id is
-- modelled; `sent` says whether one is sent, by the time of day, the chat and Telegram's answer, with
-- what id and on what day, for a channel, the team or union and the configurations. Whether it raises
-- is only logged.
use ddochi_backend.Prelude.{
  ℕ, ◌+◌, String, Bool, true, false, Option, none, some, List, [], ◌∷◌, not, ◌||◌, is_none,
  if◌then◌else◌,
}
use ddochi_backend.Prelude.Text.{
  str_eq, is_empty, is_in, non_empty, prefix_of, strip, text_or_empty,
}
use ddochi_backend.Prelude.Case.{upper}
use ddochi_backend.Prelude.Outcome.{Outcome, ok, raise}
use ddochi_backend.Pairing.Channels.{ChannelDef, channel_def, title_key}
use ddochi_backend.Pairing.Config.{str, json, value_of, Patch, ConfigRow, patch_team_config}
use ddochi_backend.Pairing.Rows.{Pairing, Store, find_pairing, update_pairing, is_expired}
use ddochi_backend.Pairing.Welcome.{welcome_text, welcome_button}
use ddochi_backend.Pairing.Bearer.{check_internal_auth}
use ddochi_backend.Pairing.Admin.{last_message}

-- Settings: TELEGRAM_INTERNAL_TOKEN, MY_TELEGRAM_LINK; and what is sent
pub record Service : Type 0 where
  pub token : String
  pub link_base : String
  pub sent : String → String → List ConfigRow → Option (String × String)

pub record CompleteRequest : Type 0 where
  pub is_post : Bool
  pub authorization : String
  pub code : Option String
  pub chat_id : Option String
  pub chat_title : Option String

pub record Connected : Type 0 where
  pub team : String
  pub channel_type : String
  pub label : String
  pub chat_title : Option String
  pub welcome_text : Option String
  pub welcome_button : Option (String × String)

pub data CompleteReply : Type 0 where
  fail : ℕ → String → CompleteReply
  not_found already_used expired : CompleteReply
  -- `channel_def_not_found`, with the team and the channel type
  warned : String → String → CompleteReply
  connected : Connected → CompleteReply

unfoldable pub request_code : CompleteRequest → String
request_code r = upper (strip (text_or_empty r.code))

unfoldable pub request_chat : CompleteRequest → String
request_chat r = strip (text_or_empty r.chat_id)

unfoldable pub request_title : CompleteRequest → Option String
request_title r = non_empty (prefix_of 200 (text_or_empty r.chat_title))

-- `{'135 연합': '135', '246 연합': '246'}.get(team_id, team_id)`
abbrev shed_group : String → String
shed_group team =
    if str_eq team "135 연합" then "135" else if str_eq team "246 연합" then "246" else team

-- Whose dashboard the channel shows at first, if it shows one
unfoldable pub first_group : String → String → Option String
first_group channel team =
    if is_in channel ("prospect" ∷ "matching" ∷ "stats" ∷ [])
    then some team
    else if is_in channel ("shedUnified" ∷ "tmDash" ∷ "schedDash" ∷ [])
    then some (shed_group team)
    else none

-- `msg_id_field` and `msg_date_field`
dated : (id_field date_field i day : String) → Patch
dated id_field date_field i day = (id_field, json i) ∷ (date_field, str day) ∷ []

-- The patch that writes a new message's id, by the channel
unfoldable pub message_patch : (channel i day : String) → Patch
unfolding dated
message_patch channel i day =
    if str_eq channel "prospect"
    then ("lastProspectMsgId", json i) ∷ []
    else if str_eq channel "matching"
    then ("lastMatchingMsgId", json i) ∷ []
    else if str_eq channel "stats"
    then dated "lastStatsMsgId" "lastStatsMsgDate" i day
    else if str_eq channel "shedUnified"
    then dated "lastShedMsgId" "lastShedMsgDate" i day
    else if str_eq channel "tmDash"
    then dated "lastTmMsgId" "lastTmMsgDate" i day
    else dated "lastSchedMsgId" "lastSchedMsgDate" i day

-- `_team_id_for_group`
abbrev pub team_id_for_group : String → String
team_id_for_group group =
    if str_eq group "135" then "135 연합" else if str_eq group "246" then "246 연합" else group

-- The team whose CONFIG has the message
abbrev pub message_team : (channel group : String) → String
message_team channel group =
    if is_in channel ("prospect" ∷ "matching" ∷ "stats" ∷ [])
    then group
    else team_id_for_group group

unfoldable pub write_message :
    (channel group : String) → Option (String × String) → List ConfigRow → List ConfigRow
write_message channel group none rows = rows
write_message channel group (some (i, day)) rows =
    patch_team_config (message_team channel group) (message_patch channel i day) rows

abbrev pub send_to : Service → String → Option String → List ConfigRow → List ConfigRow
send_to v channel none rows = rows
send_to v channel (some group) rows = write_message channel group (v.sent channel group rows) rows

-- The first message of a dashboard, for the channels that have one
unfoldable pub first_message : Service → String → String → List ConfigRow → List ConfigRow
first_message v channel team rows = send_to v channel (first_group channel team) rows

-- `COMPLETED_AT = SYSTIMESTAMP, CHAT_ID = :1, CHAT_TITLE = :2`
abbrev pub complete_row : ℕ → String → Option String → Pairing → Pairing
complete_row now chat title p = record p {
  completed_at = some now;
  chat_id = some chat;
  chat_title = title;
}

abbrev pub connect_patch : ChannelDef → String → Option String → Patch
connect_patch d chat title =
    (d.field, str chat) ∷ (title_key d.field, value_of title) ∷ last_message d

-- From the look-up of the channel to the end
unfoldable pub connect :
    Service → Pairing → String → Option String → Store → Option ChannelDef → CompleteReply × Store
unfolding welcome_text welcome_button
connect v p chat title s none = (warned p.team_id p.channel_type, s)
connect v p chat title s (some d) = (
  connected (record {
    team = p.team_id;
    channel_type = p.channel_type;
    label = d.label;
    chat_title = title;
    welcome_text = welcome_text p.channel_type p.team_id;
    welcome_button = welcome_button v.link_base p.channel_type;
  }),
  record s {
    configs =
        first_message v p.channel_type p.team_id
          (patch_team_config p.team_id (connect_patch d chat title) s.configs);
  },
)

-- The UPDATE of the code's row, which has no condition but the code, and what follows
unfoldable pub write_completion :
    Service → ℕ → (k chat : String) → Option String → Pairing → Store → CompleteReply × Store
write_completion v now k chat title p s =
    connect v p chat title
      (record s { pairings = update_pairing k (complete_row now chat title) s.pairings })
      (channel_def p.channel_type)

-- What the row that was read decides
pub data Verdict : Type 0 where
  missing used late : Verdict
  go_on : Pairing → Verdict

unfoldable pub verdict_of_row : ℕ → Option Pairing → Verdict
verdict_of_row now none = missing
verdict_of_row now (some p) =
    if not (is_none p.completed_at) then used else if is_expired now p then late else go_on p

-- The row for the code at `now`; when there is none, the query is run again after 300 ms, on the
-- table of that moment.
unfoldable pub read_row : ℕ → String → (at_once later : Store) → Verdict
read_row now k at_once later = elim (find_pairing k at_once.pairings) [
  | none ↦ verdict_of_row (now + 300000) (find_pairing k later.pairings)
  | some p ↦ verdict_of_row now (some p)
]

unfoldable pub after_verdict :
    Service → ℕ → (k chat : String) → Option String → Store → Verdict → CompleteReply × Store
after_verdict v now k chat title s missing = (not_found, s)
after_verdict v now k chat title s used = (already_used, s)
after_verdict v now k chat title s late = (expired, s)
after_verdict v now k chat title s (go_on p) = write_completion v now k chat title p s

unfoldable pub complete_authorized :
    Service → ℕ → CompleteRequest → Store → Outcome Bool → CompleteReply × Store
complete_authorized v now r s (raise e) = (fail 500 "TypeError", s)
complete_authorized v now r s (ok false) = (fail 401 "unauthorized", s)
complete_authorized v now r s (ok true) =
    if is_empty (request_code r) || is_empty (request_chat r)
    then (fail 400 "code, chatId required", s)
    else after_verdict v now (request_code r) (request_chat r) (request_title r) s
        (read_row now (request_code r) s s)

-- The handler when nothing else writes between its queries
unfoldable pub telegram_pair_complete :
    Service → ℕ → CompleteRequest → Store → CompleteReply × Store
telegram_pair_complete v now r s =
    if not r.is_post
    then (fail 405 "method_not_allowed", s)
    else complete_authorized v now r s (check_internal_auth v.token r.authorization)
