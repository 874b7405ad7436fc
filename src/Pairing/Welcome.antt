-- ===== src/Pairing/Welcome.antt =====
-- `_WELCOME` of `api/views/telegram_pair_internal.py`: the greeting of a chat that is connected.
use Prim.Native.String
use ddochi_backend.Prelude.{String, Option, none, some, List, [], ◌∷◌, if◌then◌else◌}
use ddochi_backend.Prelude.Text.{str_eq, is_empty}

-- `_WELCOME`: what follows the team's name in brackets, with what precedes it
abbrev welcome_parts : List (String × String × String)
welcome_parts =
    ("dashboard", "👋 [", "] 또치섬 대시보드가 연결되었어!")
    ∷ ("prayer", "🙏 [", "] 향연(기도문) 방이 연결되었어! 이제 이곳에 향연이 피어오를거야.")
    ∷ ("feedback", "📋 [", "] 매칭피드백 방이 연결되었어!")
    ∷ ("returnHome", "🏠 [", "] 귀소할일 알림방이 연결되었어!")
    ∷ ("community", "📖 [", "] 전도 노트(커뮤니티) 알림방이 연결되었어!")
    ∷ ("schedule", "🌅 [", "] 아침 일정 브리핑 방이 연결되었어!")
    ∷ ("activityReport", "📊 [", "] 일정통계 전송방이 연결되었어! 설정한 시간에 자동으로 활동 현황이 전송될거야.")
    ∷ ("currentSchedule", "🏔 [", "] 현재일정 전송방이 연결되었어! \"지금 우리 시온산은\" 메시지가 설정한 시간에 발송돼.")
    ∷ ("activityCoord", "🫵 [", "] 활동소통 방이 연결되었어! '대학 너 나와' 메시지가 이곳에 발송돼.")
    ∷ ("sheetDashboard", "📋 [", "] 섭외 명단 대시보드 방이 연결되었어! 매일 09:00에 새로운 유입 + 부재중 현황이 발송돼.")
    ∷ ("talkDashboard", "🗣\u{fe0f} [", "] 말걸기 대시보드 방이 연결되었어! 일일보고 제출 시 자동으로 갱신돼.")
    ∷ []

find_parts : String → List (String × String × String) → Option (String × String)
find_parts k [] = none
find_parts k ((name, before, after) ∷ more) =
    let rest = find_parts k more in if str_eq name k then some (before, after) else rest

unfoldable pub welcome_text : String → String → Option String
unfolding find_parts
welcome_text channel team = elim (find_parts channel welcome_parts) [
  | none ↦ none
  | some w ↦ some (String.◌++◌ w.0 (String.◌++◌ team w.1))
]

abbrev button_of : String → Option (String × String)
button_of channel =
    if str_eq channel "dashboard"
    then some ("입국하기 🛫", "?startapp=dailyReport")
    else if str_eq channel "prayer"
    then some ("🙏 향 붙이러 가기", "?startapp=prayer")
    else if str_eq channel "feedback"
    then some ("센터 가보자! 🏃", "?startapp=center")
    else none

unfoldable pub welcome_button : String → String → Option (String × String)
welcome_button link_base channel =
    if is_empty link_base
    then none
    else elim (button_of channel) [ none ↦ none | some b ↦ some (b.0, String.◌++◌ link_base b.1) ]
