-- ===== src/Sarang/Submit.antt =====
-- `submit_result` of `api/views/assets.py`: calls, messages, fixed meetings, and the card that is
-- written. The card's sending and the refresh of the dashboards are left out. Of `new_id`, 0 is for
-- the log, 2 for a new card. `RESERVED_TM_AT` and `MATCH_SCHEDULED_AT` keep the text that
-- TO_TIMESTAMP reads.
use ddochi_backend.Prelude.{
  ℕ, String, Bool, true, false, Option, none, some, List, ◌∷◌, not, ◌&&◌, ◌||◌, if◌then◌else◌,
}
use Prim.Native.String
use ddochi_backend.Prelude.Text.{str_eq, is_empty, strip, text_or_empty}
use ddochi_backend.Prelude.Rows.{update_row}
use ddochi_backend.Sarang.Tables.{
  meeting_fixed, hab_jae_yang, Sarang, pending, HjColumn, school_major_job, schedule, qna,
  HabJaeYang, TmResult, no_answer, unfit, reject, invalid, reserved_tm, meet_fix, TmLog, Activity,
  MemberRow, Store, sarang_key, card_key, first_where, active_card,
}
use ddochi_backend.Sarang.Approval.{Reply, fail, done, set_stage}
use ddochi_backend.Sarang.Labels.{
  parse_min_label, parse_transfer_label, ox, clean, trunc, trunc_chars,
}

-- `habjaeyang` of the body; `entry` has its long answers.
pub record HjForm : Type 0 where
  pub guide : Option String
  pub tm_name : Option String
  pub path : Option String
  pub tool : Option String
  pub verbal_man_fix : Option String
  pub mt_date : Option String
  pub mt_time : Option String
  pub mt_place : Option String
  pub gwacheon_min : Option String
  pub gwacheon_transfer : Option String
  pub center_min : Option String
  pub center_transfer : Option String
  pub entry : HjColumn → Option String
  pub center_env : Option String
  pub drug : Option String
  pub mental : Option String
  pub mbti : Option String
  pub gender : Option String
  pub near_st : Option String

pub record SubmitRequest : Type 0 where
  pub is_post : Bool
  pub row_index : Option String
  pub log_type : Option String
  pub log_content : Option String
  pub next_call_date : Option String
  pub habjaeyang : HjForm

pub data LogKind : Type 0 where
  called : TmResult → LogKind
  reserved : LogKind
  messaged : String → LogKind
  fixed_meeting written : LogKind

-- `logType`, by TM_RESULT and ACTIVITY_EVENT
unfoldable pub kind_named : String → Option LogKind
kind_named s =
    if str_eq s "안받음"
    then some (called no_answer)
    else if str_eq s "비합처리"
    then some (called unfit)
    else if str_eq s "거절처리"
    then some (called reject)
    else if str_eq s "무효처리"
    then some (called invalid)
    else if str_eq s "티엠예약"
    then some reserved
    else if str_eq s "선문자"
    then some (messaged "선문자발송")
    else if str_eq s "안받문"
    then some (messaged "부재중문자발송")
    else if str_eq s "만남픽스"
    then some fixed_meeting
    else if str_eq s "합재양작성"
    then some written
    else none

abbrev pub is_member_named : String → MemberRow → Bool
is_member_named n m = str_eq m.name n && not m.deleted

abbrev pub id_of : Option MemberRow → Option String
id_of none = none
id_of (some m) = some m.member_id

-- `_member_id_by_name`
unfoldable pub member_id_by_name : Option String → List MemberRow → Option String
unfolding first_where
member_id_by_name name members =
    let n = strip (text_or_empty name) in
    if is_empty n then none else id_of (first_where (is_member_named n) members)

-- `mt_datetime`
abbrev pub mt_datetime : HjForm → Option String
mt_datetime hj =
    let d = strip (text_or_empty hj.mt_date) in
    let t = strip (text_or_empty hj.mt_time) in
    if is_empty d || is_empty t then none else some (String.◌++◌ d (String.◌++◌ "T" t))

-- The columns of the card's long answers, each cut to its size
abbrev pub cell_of : HjForm → HjColumn → Option String
cell_of hj school_major_job = trunc_chars 300 (clean (hj.entry school_major_job))
cell_of hj schedule = trunc_chars 300 (clean (hj.entry schedule))
cell_of hj qna = trunc 1000 (clean (hj.entry qna))
cell_of hj col = trunc_chars 1000 (clean (hj.entry col))

-- `hj_args_common`, written into a card
abbrev pub write_card : HjForm → List MemberRow → HabJaeYang → HabJaeYang
write_card hj members c = record c {
  guide_member_id = member_id_by_name hj.guide members;
  caller_member_id = member_id_by_name hj.tm_name members;
  route = trunc_chars 50 (clean hj.path);
  tool = trunc_chars 50 (clean hj.tool);
  is_verbal_meet = ox hj.verbal_man_fix;
  match_scheduled_at = mt_datetime hj;
  match_location = trunc_chars 100 (clean hj.mt_place);
  gwacheon_travel_time = parse_min_label hj.gwacheon_min;
  gwacheon_transfer_count = parse_transfer_label hj.gwacheon_transfer;
  center_travel_time = parse_min_label hj.center_min;
  center_transfer_count = parse_transfer_label hj.center_transfer;
  cell = cell_of hj;
  has_center_env = ox hj.center_env;
  is_taking_meds = ox hj.drug;
  has_mental_illness = ox hj.mental;
}

-- A row that INSERT makes, before the columns of the form: the defaults of the table
abbrev pub blank_card : String → String → HabJaeYang
blank_card id k = record {
  hab_jae_yang_id = id;
  sarang_id = k;
  is_active = true;
  guide_member_id = none;
  caller_member_id = none;
  teacher_member_id = none;
  teacher_name_override = none;
  match_scheduled_at = none;
  match_location = none;
  route = none;
  tool = none;
  is_verbal_meet = false;
  gwacheon_travel_time = none;
  gwacheon_transfer_count = none;
  center_travel_time = none;
  center_transfer_count = none;
  cell = λ col. none;
  has_center_env = false;
  is_taking_meds = false;
  has_mental_illness = false;
  has_replied = false;
  is_window_opened = false;
  approval_status = pending;
  reject_reason = none;
}

-- UPDATE of the active card, or INSERT of a new one
unfoldable pub put_card :
    String
    → String
    → HjForm
    → List MemberRow
    → List HabJaeYang
    → Option HabJaeYang
    → List HabJaeYang
put_card id k hj members cards none = write_card hj members (blank_card id k) ∷ cards
put_card id k hj members cards (some c) =
    update_row card_key c.hab_jae_yang_id (write_card hj members) cards

-- MBTI, GENDER and RESIDENCE_STATION are written if they are given.
abbrev pub or_kept : Option String → Option String → Option String
or_kept given old = elim (clean given) [ none ↦ old | some v ↦ some v ]

abbrev pub write_sarang : HjForm → Sarang → Sarang
write_sarang hj x = record x {
  stage = hab_jae_yang;
  mbti = or_kept hj.mbti x.mbti;
  gender = or_kept hj.gender x.gender;
  station = or_kept hj.near_st x.station;
}

abbrev pub tm_log : String → String → String → TmResult → Option String → Option String → TmLog
tm_log id k sabun r sub at = record {
  tm_id = id;
  sarang_id = k;
  caller_member_id = sabun;
  result = r;
  sub_reason = sub;
  reserved_tm_at = at;
}

abbrev pub event : String → String → String → String → Activity
event id k sabun name = record {
  activity_id = id;
  sarang_id = k;
  actor_member_id = sabun;
  event_type = name;
  content = none;
}

-- A value that may be None, in an f-string
abbrev pub shown : Option String → String
shown none = "None"
shown (some v) = v

unfoldable pub submit_kind :
    (new_id : ℕ → String) (k sabun : String)
    → SubmitRequest
    → Store
    → Option LogKind
    → Reply × Store
unfolding put_card active_card first_where
submit_kind new_id k sabun r s none =
    (fail 400 (String.◌++◌ "아직 지원 안 되는 처리예요: " (shown r.log_type)), s)
submit_kind new_id k sabun r s (some (called result)) = (
  done "",
  record s { tm_logs = tm_log (new_id 0) k sabun result (clean r.log_content) none ∷ s.tm_logs },
)
submit_kind new_id k sabun r s (some reserved) = (
  done "",
  record s {
    tm_logs = tm_log (new_id 0) k sabun reserved_tm none (clean r.next_call_date) ∷ s.tm_logs;
  },
)
submit_kind new_id k sabun r s (some (messaged name)) =
    (done "", record s { activities = event (new_id 0) k sabun name ∷ s.activities })
submit_kind new_id k sabun r s (some fixed_meeting) = (
  done "",
  record s {
    tm_logs = tm_log (new_id 0) k sabun meet_fix none none ∷ s.tm_logs;
    sarangs = update_row sarang_key k (set_stage meeting_fixed) s.sarangs;
  },
)
submit_kind new_id k sabun r s (some written) = (
  done "",
  record s {
    cards = put_card (new_id 2) k r.habjaeyang s.members s.cards (active_card k s.cards);
    activities = event (new_id 0) k sabun "합재양작성" ∷ s.activities;
    sarangs = update_row sarang_key k (write_sarang r.habjaeyang) s.sarangs;
  },
)

-- `submit_result`, behind the gate
unfoldable pub submit_result :
    (new_id : ℕ → String) (sabun : String) → SubmitRequest → Store → Reply × Store
unfolding kind_named submit_kind
submit_result new_id sabun r s =
    if not r.is_post
    then (fail 405 "method_not_allowed", s)
    else if is_empty (strip (text_or_empty r.row_index))
    then (fail 400 "rowIndex 필요", s)
    else submit_kind new_id (strip (text_or_empty r.row_index)) sabun r s
        (kind_named (text_or_empty r.log_type))
