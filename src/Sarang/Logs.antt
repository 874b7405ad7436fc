-- ===== src/Sarang/Logs.antt =====
-- `delete_log` and `cancel_shed_habjaeyang` of
-- `api/views/assets.py`. The refresh of the dashboards is left out.
use ddochi_backend.Prelude.{
  String, Bool, true, false, Option, none, some, List, not, ◌&&◌, ◌||◌, is_none, if◌then◌else◌,
}
use ddochi_backend.Prelude.Text.{str_eq, is_empty, strip, text_or_empty}
use ddochi_backend.Prelude.Rows.{update_row}
use ddochi_backend.Sarang.Tables.{
  tm, HabJaeYang, Match, meet_fix, TmLog, Activity, Store, sarang_key, card_key, first_where,
  update_where, delete_where, active_card,
}
use ddochi_backend.Sarang.Approval.{Reply, fail, done, set_stage}

abbrev pub is_meet_fix : TmLog → Bool
is_meet_fix l = elim l.result [ meet_fix ↦ true | _ ↦ false ]

-- `delete_log`: `TM_ID = :1 AND SARANG_ID = :2`
abbrev pub is_tm_log : String → String → TmLog → Bool
is_tm_log i k l = str_eq l.tm_id i && str_eq l.sarang_id k

unfoldable pub back_to_tm : String → Store → Store
back_to_tm k s = record s { sarangs = update_row sarang_key k (set_stage tm) s.sarangs }

unfoldable pub delete_tm_log : String → Store → Option TmLog → Reply × Store
unfolding delete_where back_to_tm
delete_tm_log k s none = (fail 404 "로그를 찾을 수 없어요", s)
delete_tm_log k s (some l) =
    let gone = record s {
      tm_logs = delete_where (λ (x : TmLog). str_eq x.tm_id l.tm_id) s.tm_logs;
    } in
    (done "", if is_meet_fix l then back_to_tm k gone else gone)

abbrev pub is_attempt : String → String → Match → Bool
is_attempt i k m = str_eq m.match_id i && str_eq m.sarang_id k

-- `RESULT = NULL, SUB_REASON = NULL, STATUS = 'SCHEDULED'`
abbrev pub reopen : Match → Match
reopen m = record m { result = none; sub_reason = none; finished = false }

unfoldable pub undo_result : String → String → Store → Reply × Store
unfolding first_where update_where
undo_result i k s =
    if is_none (first_where (is_attempt i k) s.matches)
    then (fail 404 "로그를 찾을 수 없어요", s)
    else (done "", record s { matches = update_where (is_attempt i k) reopen s.matches })

abbrev pub is_activity : String → String → Activity → Bool
is_activity i k a = str_eq a.activity_id i && str_eq a.sarang_id k

unfoldable pub delete_activity : String → String → Store → Reply × Store
unfolding first_where delete_where
delete_activity i k s =
    if is_none (first_where (is_activity i k) s.activities)
    then (fail 404 "로그를 찾을 수 없어요", s)
    else (done "", record s { activities = delete_where (is_activity i k) s.activities })

-- From the ids to the end, by `source`
unfoldable pub delete_from : (source i k : String) → Store → Reply × Store
unfolding first_where
delete_from source i k s =
    if str_eq source "tm"
    then delete_tm_log k s (first_where (is_tm_log i k) s.tm_logs)
    else if str_eq source "match"
    then undo_result i k s
    else delete_activity i k s

-- `body.get('source') or 'tm'`
abbrev pub source_of : Option String → String
source_of o = let t = text_or_empty o in if is_empty t then "tm" else t

-- `delete_log`, behind the gate
unfoldable pub delete_log :
    (is_post : Bool) (row_index id source : Option String) → Store → Reply × Store
delete_log is_post row_index id source s =
    if not is_post
    then (fail 405 "method_not_allowed", s)
    else if is_empty (strip (text_or_empty row_index)) || is_empty (strip (text_or_empty id))
    then (fail 400 "rowIndex/id 필요", s)
    else delete_from (source_of source) (strip (text_or_empty id)) (strip (text_or_empty row_index))
        s

abbrev pub delete_found {ℓ} : {A : Type ℓ} → (A → String) → Option A → List A → List A
delete_found key none rows = rows
delete_found key (some r) rows = delete_where (λ x. str_eq (key x) (key r)) rows

abbrev pub tm_key : TmLog → String
tm_key l = l.tm_id

abbrev pub activity_key : Activity → String
activity_key a = a.activity_id

-- The newest 만남픽스 call and the newest 합재양작성 event of a prospect
abbrev pub is_fix_of : String → TmLog → Bool
is_fix_of k l = str_eq l.sarang_id k && is_meet_fix l

abbrev pub is_writing_of : String → Activity → Bool
is_writing_of k a = str_eq a.sarang_id k && str_eq a.event_type "합재양작성"

abbrev pub deactivate : HabJaeYang → HabJaeYang
deactivate c = record c { is_active = false }

unfoldable pub cancel_found : String → Store → Option HabJaeYang → Reply × Store
unfolding first_where delete_where
cancel_found k s none = (fail 404 "취소할 합재양을 찾을 수 없어요", s)
cancel_found k s (some c) = (
  done "",
  record s {
    cards = update_row card_key c.hab_jae_yang_id deactivate s.cards;
    tm_logs = delete_found tm_key (first_where (is_fix_of k) s.tm_logs) s.tm_logs;
    activities =
        delete_found activity_key (first_where (is_writing_of k) s.activities) s.activities;
    sarangs = update_row sarang_key k (set_stage tm) s.sarangs;
  },
)

-- `cancel_shed_habjaeyang`, behind the gate
unfoldable pub cancel_shed_habjaeyang :
    (is_post : Bool) (doc_id : Option String) → Store → Reply × Store
cancel_shed_habjaeyang is_post doc_id s =
    if not is_post
    then (fail 405 "method_not_allowed", s)
    else if is_empty (strip (text_or_empty doc_id))
    then (fail 400 "필수 값 누락", s)
    else cancel_found (strip (text_or_empty doc_id)) s
        (active_card (strip (text_or_empty doc_id)) s.cards)
