-- ===== src/Pairing/Tests.antt =====
-- One team's pairing, on concrete rows: runs of the handlers and uses of the theorems.
use ddochi_backend.Prelude.{
  ◌≡◌, refl, ℕ, ◌+◌, ◌≤◌, String, Bool, true, false, Option, none, some, List, [], ◌∷◌, arith,
}
use ddochi_backend.Prelude.Text.{is_empty, str_eq}
use ddochi_backend.Prelude.Outcome.{ok}
use ddochi_backend.Pairing.Channels.{ChannelDef, channel_def, channel_defs}
use ddochi_backend.Pairing.Config.{ConfigRow, str, null, load_team_config, get_value}
use ddochi_backend.Pairing.Bearer.{check_internal_auth}
use ddochi_backend.Pairing.Rows.{Pairing, Store, ten_minutes}
use ddochi_backend.Pairing.Admin.{
  Request, pending, started, new_pairing, telegram_pair_start, telegram_pair_status,
  telegram_pair_cancel, telegram_pair_disconnect, request_team, request_channel,
}
use ddochi_backend.Pairing.Complete.{
  Service, CompleteRequest, connected, request_code, request_chat, telegram_pair_complete,
  after_verdict, read_row,
}
use ddochi_backend.Pairing.Fields.{is_live}
use ddochi_backend.Pairing.Completing.{is_completed, Accepted, complete_sound}
use ddochi_backend.Pairing.Steps.{here, next, cancel, accepted_once}
use ddochi_backend.Pairing.Fresh.{unique_codes}
use ddochi_backend.Pairing.Connecting.{start_connects, disconnect_clears}

abbrev prayer_def : ChannelDef
prayer_def = record { field = "prayerChatId"; label = "기도문"; last_msg_id_field = none }

abbrev other_row : ConfigRow
other_row = record { team_id = "2"; deleted = false; config = λ j. none }

-- Team 1 has an open code for its prayer room.
abbrev open_row : Pairing
open_row = new_pairing "ABCD2345" "1" "prayer" "100" 0

abbrev office : Store
office = record { pairings = open_row ∷ []; configs = other_row ∷ []; members = "100" ∷ [] }

abbrev bot_service : Service
bot_service = record {
  token = "t0ken";
  link_base = "";
  sent = λ channel group rows. some ("77", "2026-11-25");
}

abbrev ask : Request
ask = record { is_post = true; sabun = "100"; team = some " 1팀 "; channel_type = some "prayer" }

abbrev report : CompleteRequest
report = record {
  is_post = true;
  authorization = "Bearer t0ken";
  code = some " abcd2345";
  chat_id = some "-42";
  chat_title = some "기도방";
}

ask_renews : (telegram_pair_start "bot" 5 [] ask office).0 ≡ started "ABCD2345" "/pair@bot ABCD2345"
unfolding telegram_pair_start request_team ddochi_backend.Prelude.Text.strip channel_def
    channel_defs request_channel ddochi_backend.Pairing.Admin.start_found
    ddochi_backend.Pairing.Rows.first_where ddochi_backend.Pairing.Rows.is_open
ask_renews = refl

ask_pends : telegram_pair_status 5 ask office ≡ pending "ABCD2345"
unfolding telegram_pair_status request_team ddochi_backend.Prelude.Text.strip channel_def
    channel_defs request_channel ddochi_backend.Pairing.Rows.first_where
    ddochi_backend.Pairing.Rows.is_for ddochi_backend.Pairing.Rows.is_expired
ask_pends = refl

allowed : check_internal_auth "t0ken" "Bearer t0ken" ≡ ok true
unfolding check_internal_auth
allowed = refl

accepted : is_completed (telegram_pair_complete bot_service 7 report office).0 ≡ true
unfolding telegram_pair_complete ddochi_backend.Pairing.Complete.complete_authorized
    check_internal_auth request_code ddochi_backend.Prelude.Case.upper
    ddochi_backend.Prelude.Text.strip request_chat after_verdict read_row
    ddochi_backend.Prelude.Rows.find_row ddochi_backend.Pairing.Complete.verdict_of_row
    ddochi_backend.Pairing.Rows.is_expired ddochi_backend.Pairing.Complete.write_completion
    ddochi_backend.Pairing.Complete.connect channel_def channel_defs
accepted = refl

def_found : channel_def "prayer" ≡ some prayer_def
unfolding channel_def channel_defs
def_found = refl

complete_sound_example : Accepted bot_service 7 report office
complete_sound_example = complete_sound bot_service 7 report office accepted

accepted_once_example :
    (is_completed
        (telegram_pair_complete bot_service 9 report
          (telegram_pair_cancel ask (telegram_pair_complete bot_service 7 report office).1).1).0
      ≡ false)
    × ((telegram_pair_complete bot_service 9 report
          (telegram_pair_cancel ask (telegram_pair_complete bot_service 7 report office).1).1).1
        ≡ (telegram_pair_cancel ask (telegram_pair_complete bot_service 7 report office).1).1)
accepted_once_example =
    accepted_once {bot = "bot"} bot_service bot_service 7 9 report report office accepted
      (next here (cancel ask (telegram_pair_complete bot_service 7 report office).1)) refl

is_unique : unique_codes (open_row ∷ []) ≡ true
unfolding unique_codes ddochi_backend.Prelude.Rows.find_row
is_unique = refl

team_live : is_live (request_team ask) (other_row ∷ []) ≡ true
unfolding is_live ddochi_backend.Prelude.Rows.find_row request_team
    ddochi_backend.Prelude.Text.strip
team_live = refl

asked_prayer : channel_def (request_channel ask) ≡ some prayer_def
unfolding channel_def channel_defs request_channel ddochi_backend.Prelude.Text.strip
asked_prayer = refl

reported_code : request_code report ≡ "ABCD2345"
unfolding request_code ddochi_backend.Prelude.Case.upper ddochi_backend.Prelude.Text.strip
reported_code = refl

code_given : is_empty (request_code report) ≡ false
unfolding request_code ddochi_backend.Prelude.Case.upper ddochi_backend.Prelude.Text.strip
code_given = refl

chat_given : is_empty (request_chat report) ≡ false
unfolding request_chat ddochi_backend.Prelude.Text.strip
chat_given = refl

soon : 8 ≤ 5 + ten_minutes
soon = omega arith

start_connects_example :
    (is_completed
        (telegram_pair_complete bot_service 8 report
          (telegram_pair_start "bot" 5 [] ask office).1).0
      ≡ true)
    × (get_value "prayerChatId" (
          load_team_config
            (request_team ask)
            (telegram_pair_complete bot_service 8 report
              (telegram_pair_start "bot" 5 [] ask office).1).1.configs)
        ≡ str (request_chat report))
start_connects_example =
    start_connects "bot" "ABCD2345" "/pair@bot ABCD2345" 5 8 [] ask office bot_service report
      prayer_def is_unique team_live ask_renews asked_prayer refl allowed reported_code code_given
      chat_given soon

team_given : is_empty (request_team ask) ≡ false
unfolding request_team ddochi_backend.Prelude.Text.strip
team_given = refl

team_differs : str_eq (request_team ask) "2" ≡ false
unfolding request_team ddochi_backend.Prelude.Text.strip
team_differs = refl

disconnect_clears_example :
    (get_value "prayerChatId"
        (load_team_config (request_team ask) (telegram_pair_disconnect ask office).1.configs)
      ≡ null)
    × (load_team_config "2" (telegram_pair_disconnect ask office).1.configs
        ≡ load_team_config "2" office.configs)
disconnect_clears_example =
    disconnect_clears ask office prayer_def "2" refl team_given asked_prayer team_live team_differs

abbrev forged_report : CompleteRequest
forged_report = record {
  is_post = true;
  authorization = "t0ken!";
  code = some "ABCD2345";
  chat_id = some "-42";
  chat_title = none;
}

forged_refused : is_completed (telegram_pair_complete bot_service 9 forged_report office).0 ≡ false
unfolding telegram_pair_complete ddochi_backend.Pairing.Complete.complete_authorized
    check_internal_auth
forged_refused = refl
