-- ===== src/Sarang/Results.antt =====
-- `record_match_result`, `record_postpone`, `postpone_meeting` and the results of `update_match` of
-- `api/views/assets.py`. The refresh of the dashboards is left out.
use Prim.Native.String
use Prim.Native.Char.{code}
use ddochi_backend.Prelude.{
  ℕ, ◌+◌, String, Bool, true, false, Option, none, some, List, [], ◌∷◌, not, ◌&&◌, ◌||◌, ltb, ◌==◌,
  if◌then◌else◌,
}
use ddochi_backend.Prelude.Text.{str_eq, is_empty, strip, text_or_empty, non_empty, prefix_of}
use ddochi_backend.Prelude.Rows.{update_row}
use ddochi_backend.Pairing.Bearer.{drop_prefix}
use ddochi_backend.Sarang.Tables.{
  Stage, stage_rank, matching, consult, Sarang, MatchResult, cancel, delay, unfit, dropout,
  second_meet, consult_win, Match, Store, match_key, update_where,
}
use ddochi_backend.Sarang.Attempts.{latest_open}
use ddochi_backend.Sarang.Approval.{Reply, fail, done, set_stage}

-- `_MATCH_STAGE`
abbrev pub match_stage : MatchResult → Option Stage
match_stage unfit = some matching
match_stage dropout = some matching
match_stage second_meet = some matching
match_stage consult_win = some consult
match_stage _ = none

-- `STAGE IN (_STAGES_BEFORE[stage])`: the stages that come before it in the funnel
abbrev pub is_before : Stage → Stage → Bool
is_before now goal = ltb (stage_rank now) (stage_rank goal)

abbrev pub raises : String → Stage → Sarang → Bool
raises k goal x = str_eq x.sarang_id k && is_before x.stage goal

-- `_match_stage_stmt`: the UPDATE of STAGE, if there is one
unfoldable pub match_stage_stmt : String → Option Stage → List Sarang → List Sarang
unfolding update_where
match_stage_stmt k none sarangs = sarangs
match_stage_stmt k (some goal) sarangs = update_where (raises k goal) (set_stage goal) sarangs

abbrev pub finish : MatchResult → Option String → Match → Match
finish r sub m = record m { result = some r; sub_reason = sub; finished = true }

unfoldable pub result_found :
    String → MatchResult → Option String → Store → Option Match → Bool × Store
result_found k r sub s none = (false, s)
result_found k r sub s (some cur) = (
  true,
  record s {
    matches = update_row match_key cur.match_id (finish r sub) s.matches;
    sarangs = match_stage_stmt k (match_stage r) s.sarangs;
  },
)

unfoldable pub record_match_result : String → MatchResult → Option String → Store → Bool × Store
record_match_result k r sub s = result_found k r sub s (latest_open k s.matches)

-- `log_type`: 밀림처리 or 2차만남
pub data Postpone : Type 0 where
  delayed second : Postpone

abbrev pub postpone_result : Postpone → MatchResult
postpone_result delayed = delay
postpone_result second = second_meet

abbrev pub postpone_event : Postpone → String
postpone_event delayed = "밀림처리"
postpone_event second = "2차만남"

abbrev pub next_degree : Postpone → Match → ℕ
next_degree delayed m = m.match_degree
next_degree second m = m.match_degree + 1

abbrev pub next_attempt : Postpone → Match → ℕ
next_attempt delayed m = m.attempt_count + 1
next_attempt second m = 1

-- `s.replace('T', ' ')`
unfoldable pub with_space : String → String
with_space String.[] = String.[]
with_space (String.◌∷◌ c s) =
    let rest = with_space s in if code c == b'T' then String.◌++◌ " " rest else String.◌∷◌ c rest

-- The new attempt's time, or NULL
unfoldable pub new_time : String → Option String
unfolding with_space
new_time d =
    if is_empty d then none else if str_eq d "미정" then none else some (prefix_of 16 (with_space d))

abbrev pub following : String → String → Postpone → Option String → Match → Match
following id k p time m = record {
  match_id = id;
  sarang_id = k;
  match_degree = next_degree p m;
  attempt_count = next_attempt p m;
  matched_at = time;
  match_location = m.match_location;
  teacher_member_id = m.teacher_member_id;
  result = none;
  sub_reason = none;
  finished = false;
}

-- The first UPDATE leaves SUB_REASON.
abbrev pub close_for : Postpone → Match → Match
close_for p m = record m { result = some (postpone_result p); finished = true }

unfoldable pub postpone_found :
    (new_id : ℕ → String) (k sabun new_date reason : String)
    → Postpone
    → Store
    → Option Match
    → Bool × Store
unfolding new_time
postpone_found new_id k sabun new_date reason p s none = (false, s)
postpone_found new_id k sabun new_date reason p s (some cur) = (
  true,
  record s {
    matches =
        following (new_id 1) k p (new_time new_date) cur
        ∷ update_row match_key cur.match_id (close_for p) s.matches;
    activities =
        record {
          activity_id = new_id 0;
          sarang_id = k;
          actor_member_id = sabun;
          event_type = postpone_event p;
          content = non_empty reason;
        }
        ∷ s.activities;
    sarangs = match_stage_stmt k (match_stage (postpone_result p)) s.sarangs;
  },
)

unfoldable pub record_postpone :
    (new_id : ℕ → String) (k sabun new_date reason : String) → Postpone → Store → Bool × Store
record_postpone new_id k sabun new_date reason p s =
    postpone_found new_id k sabun new_date reason p s (latest_open k s.matches)

abbrev pub postpone_named : String → Option Postpone
postpone_named s =
    if str_eq s "밀림처리" then some delayed else if str_eq s "2차만남" then some second else none

abbrev pub recorded_reply : String → Bool × Store → Reply × Store
recorded_reply message (false, s) = (fail 404 "진행 중인 매칭 일정이 없어요", s)
recorded_reply message (true, s) = (done message, s)

unfoldable pub postpone_type :
    (new_id : ℕ → String) (k sabun new_date reason : String)
    → Store
    → Option Postpone
    → Reply × Store
postpone_type new_id k sabun new_date reason s none = (fail 400 "rowIndex/logType 필요", s)
postpone_type new_id k sabun new_date reason s (some p) =
    if is_empty k
    then (fail 400 "rowIndex/logType 필요", s)
    else recorded_reply (String.◌++◌ (postpone_event p) " 처리 완료!")
        (record_postpone new_id k sabun new_date reason p s)

-- `postpone_meeting`, behind the gate
unfoldable pub postpone_meeting :
    (new_id : ℕ → String) (sabun : String) (is_post : Bool)
    (row_index log_type new_date log_content : Option String)
    → Store
    → Reply × Store
postpone_meeting new_id sabun is_post row_index log_type new_date log_content s =
    if not is_post
    then (fail 405 "method_not_allowed", s)
    else postpone_type new_id (strip (text_or_empty row_index)) sabun
        (strip (text_or_empty new_date)) (strip (text_or_empty log_content)) s
        (postpone_named (text_or_empty log_type))

-- `_RESULT_SUB_REASON_MAP`
abbrev pub sub_reason_map : List (String × MatchResult × String)
sub_reason_map =
    ("경계취소", cancel, "BOUNDARY_CANCEL")
    ∷ ("갈부취소", cancel, "CONFLICT_CANCEL")
    ∷ ("환경취소", cancel, "ENV_CANCEL")
    ∷ ("연두취소", cancel, "CONTACT_LOST_CANCEL")
    ∷ ("환경비합", unfit, "ENV_UNFIT")
    ∷ ("인성비합", unfit, "PERSONALITY_UNFIT")
    ∷ ("정신질환", unfit, "MENTAL_HEALTH")
    ∷ ("건강비합", unfit, "HEALTH_UNFIT")
    ∷ ("경계탈락", dropout, "BOUNDARY_DROPOUT")
    ∷ ("갈부탈락", dropout, "CONFLICT_DROPOUT")
    ∷ []

unfoldable pub find_reason :
    String → List (String × MatchResult × String) → Option (MatchResult × Option String)
find_reason k [] = none
find_reason k ((label, r, sub) ∷ more) =
    let rest = find_reason k more in if str_eq label k then some (r, some sub) else rest

-- The first of the three icons that the text starts with is dropped.
unfoldable pub without_icon : String → String
unfolding drop_prefix
without_icon s =
    let a = drop_prefix s "❌" s in
    let b = drop_prefix s "⭕\u{fe0f}" s in
    let c = drop_prefix s "⭕" s in if not (str_eq a s) then a else if not (str_eq b s) then b else c

-- The result that the web's text stands for
unfoldable pub result_named : String → Option (MatchResult × Option String)
unfolding find_reason
result_named detail =
    if str_eq detail "상담연결" || str_eq detail "상담따기"
    then some (consult_win, none)
    else find_reason detail sub_reason_map

unfoldable pub status_named :
    (k match_result : String) → Store → Option (MatchResult × Option String) → Reply × Store
status_named k match_result s none = (fail 400 (String.◌++◌ "알 수 없는 결과: " match_result), s)
status_named k match_result s (some (r, sub)) =
    recorded_reply "결과가 입력됐어!" (record_match_result k r sub s)

-- The part of `update_match` for `type='status'`
unfoldable pub update_match_status : (k match_result : String) → Store → Reply × Store
unfolding without_icon result_named
update_match_status k match_result s =
    status_named k match_result s (result_named (without_icon match_result))
