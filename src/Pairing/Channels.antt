-- ===== src/Pairing/Channels.antt =====
-- `CHANNEL_DEFS` of `api/views/telegram_pair.py`: the keys of a channel in a team's CONFIG.
use ddochi_backend.Prelude.{String, Option, none, some, List, [], ◌∷◌, if◌then◌else◌}
use ddochi_backend.Prelude.Text.{str_eq}

pub record ChannelDef : Type 0 where
  pub field : String
  pub label : String
  pub last_msg_id_field : Option String

def_with : String → String → Option String → ChannelDef
def_with f l m = record { field = f; label = l; last_msg_id_field = m }

-- `CHANNEL_DEFS`
unfoldable pub channel_defs : List (String × ChannelDef)
unfolding def_with
channel_defs =
    ("dashboard", def_with "chatId" "대시보드" (some "lastMessageId"))
    ∷ ("stats", def_with "statsChatId" "일일보고" (some "lastStatsMsgId"))
    ∷ ("prayer", def_with "prayerChatId" "기도문" none)
    ∷ ("matching", def_with "matchingChatId" "매칭현황판" (some "lastMatchingMsgId"))
    ∷ ("prospect", def_with "prospectChatId" "합당한 자 현황판" (some "lastProspectMsgId"))
    ∷ ("feedback", def_with "feedbackChatId" "매칭피드백" (some "lastFeedbackMsgId"))
    ∷ ("returnHome", def_with "returnHomeChatId" "귀소할일" none)
    ∷ ("community", def_with "communityChatId" "커뮤니티" none)
    ∷ ("schedule", def_with "scheduleChatId" "일정방" none)
    ∷ ("activityReport", def_with "activityReportChatId" "일정통계" none)
    ∷ ("currentSchedule", def_with "currentScheduleChatId" "현재일정" none)
    ∷ ("activityCoord", def_with "activityCoordChatId" "활동소통" none)
    ∷ ("sheetDashboard", def_with "sheetDashboardChatId" "섭외명단" (some "lastSheetDashMsgId"))
    ∷ ("talkDashboard", def_with "talkDashboardChatId" "말걸기" (some "lastTalkDashMsgId"))
    ∷ ("shedUnified", def_with "shedUnifiedChatId" "통합현황판" (some "lastShedMsgId"))
    ∷ ("tmDash", def_with "tmDashChatId" "TM현황" (some "lastTmMsgId"))
    ∷ ("schedDash", def_with "schedDashChatId" "예약타임테이블" (some "lastSchedMsgId"))
    ∷ []

unfoldable pub find_def : String → List (String × ChannelDef) → Option ChannelDef
find_def k [] = none
find_def k ((name, d) ∷ more) = if str_eq name k then some d else find_def k more

-- `CHANNEL_DEFS.get(channel_type)`
unfoldable pub channel_def : String → Option ChannelDef
unfolding find_def
channel_def k = find_def k channel_defs

-- `field[:-2] + 'Title' if field.endswith('Id') else field + 'Title'`
unfoldable pub title_key : String → String
title_key String.[] = "Title"
title_key (String.◌∷◌ c s) =
    let rest = String.◌∷◌ c (title_key s) in if str_eq (String.◌∷◌ c s) "Id" then "Title" else rest
