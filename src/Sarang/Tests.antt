-- ===== src/Sarang/Tests.antt =====
-- One prospect with a card, its attempts at a match, and the taps and forms for it.
use ddochi_backend.Prelude.{
  ◌≡◌, refl, ℕ, ◌+◌, ◌≤◌, String, Bool, true, false, Option, none, some, List, [], ◌∷◌, not, ◌||◌,
  is_none, ◌==◌, map, if◌then◌else◌,
}
use Prim.Native.String
use ddochi_backend.Prelude.Outcome.{Outcome, ok, raise}
use ddochi_backend.Prelude.Text.{str_eq}
use ddochi_backend.Prelude.Rows.{map_row, find_row}
use ddochi_backend.Sarang.Tables.{
  MemberRow, Stage, hab_jae_yang, approval, matching, Sarang, pending, approved, HabJaeYang, cancel,
  unfit, consult_win, Match, Store, active_card, card_key, sarang_key,
}
use ddochi_backend.Sarang.Attempts.{latest_open, has_attempt}
use ddochi_backend.Sarang.Approval.{
  Reply, fail, done, toggled, replied, window_opened, first_attempt, toggle_hj_status,
  set_habjaeyang_approval, update_approval, set_stage, decide_card,
}
use ddochi_backend.Sarang.Results.{
  delayed, second, record_match_result, record_postpone, update_match_status, postpone_meeting,
}
use ddochi_backend.Sarang.Logs.{undo_result, delete_log, cancel_shed_habjaeyang}
use ddochi_backend.Sarang.Submit.{blank_card}
use ddochi_backend.Sarang.Labels.{trunc_bytes}
use ddochi_backend.Sarang.Teacher.{assign_teacher, unknown_name, no_target, no_name}
use ddochi_backend.Sarang.Editing.{edit_match}
use ddochi_backend.Sarang.Steps.{approve, give_result, postpone, here, next}
use ddochi_backend.Sarang.Ordering.{IsHistory, unique_matches}
use ddochi_backend.Sarang.Active.{one_active}
use ddochi_backend.Sarang.Lifecycle.{Reach-IsHistory}
use ddochi_backend.Sarang.Cards.{unchanged, steps, deletes, Changes-one_active}
use ddochi_backend.Sarang.Funnel.{Raised, results_raise, approved_result}
use ddochi_backend.Sarang.Undo.{undo-record}
use ddochi_backend.Sarang.Cutting.{IsCut, trunc_bytes-IsCut}
use ddochi_backend.Sarang.Taps.{build_hj_keyboard, hj_code, handle_hj}
use ddochi_backend.Sarang.ResultTaps.{reason_code, handle_callback}
use ddochi_backend.Sarang.Tapping.{
  reason_as_web, offers, offered_approve, returns, handle_callback-returns,
}
use ddochi_backend.Sarang.Calls.{Room}

abbrev id_a : String
id_a = "0123456789ABCDEF0123456789ABCDEF"

abbrev min_ : Sarang
min_ = record {
  sarang_id = id_a;
  inflow_member_id = "100";
  stage = hab_jae_yang;
  mbti = none;
  gender = none;
  age = none;
  name = "민";
  phone = "010-1234-5678";
  phone_normalized = "01012345678";
  station = none;
  deleted = false;
}

abbrev card : HabJaeYang
card = record (blank_card "C1" id_a) {
  has_replied = true;
  is_window_opened = true;
  match_scheduled_at = some "2026-10-20T14:00";
}

abbrev office : Store
office = record {
  sarangs = min_ ∷ [];
  cards = card ∷ [];
  matches = [];
  tm_logs = [];
  activities = [];
  members = [];
}

abbrev ids : String → ℕ → String
ids base n = if n == 0 then base else String.◌++◌ base "x"

-- The attempt that the approval opens, and the card after it
abbrev first_one : Match
first_one = first_attempt "m1x" "now" card

abbrev approved_card : HabJaeYang
approved_card = record card { approval_status = approved }

abbrev tap_toast : Outcome (Option String × Store) → Option (Option String)
tap_toast (ok (t, s)) = some t
tap_toast (raise e) = none

card_alone : one_active office.cards ≡ true
unfolding one_active
card_alone = refl

abbrev after_approval : Store
after_approval = (set_habjaeyang_approval (ids "m1") "now" "100" id_a approved none office).1

abbrev after_result : Store
after_result = (record_match_result id_a unfit (some "ENV_UNFIT") after_approval).1

abbrev after_delay : Store
after_delay = (record_postpone (ids "m2") id_a "100" "미정" "" delayed after_approval).1

abbrev stages : Store → List Stage
stages s = map (λ (x : Sarang). x.stage) s.sarangs

abbrev numbers : Store → List (ℕ × Bool)
numbers s = map (λ (m : Match). (m.attempt_count, is_none m.result)) s.matches

runs :
    (stages after_approval ≡ approval ∷ [])
    × (numbers after_approval ≡ (1, true) ∷ [])
    × (stages after_result ≡ matching ∷ [])
    × (numbers after_delay ≡ (2, true) ∷ (1, false) ∷ [])
    × (stages after_delay ≡ approval ∷ [])
unfolding set_habjaeyang_approval ddochi_backend.Sarang.Approval.approve_found active_card
    ddochi_backend.Sarang.Approval.write_approval ddochi_backend.Prelude.Rows.update_row has_attempt
    record_match_result ddochi_backend.Sarang.Results.result_found latest_open
    ddochi_backend.Sarang.Results.match_stage_stmt record_postpone
    ddochi_backend.Sarang.Results.postpone_found
runs = (refl, refl, refl, refl, refl)

forms :
    ((toggle_hj_status true (some id_a) (some "replied") office).0 ≡ toggled false)
    × ((update_approval (ids "m") "now" "100" true (some id_a) (some "보류") none office).0
        ≡ fail 400 "rowIndex, status 필요")
unfolding toggle_hj_status ddochi_backend.Sarang.Approval.toggle_named
    ddochi_backend.Prelude.Text.strip ddochi_backend.Sarang.Approval.toggle_hj_field
    ddochi_backend.Sarang.Approval.toggle_found active_card update_approval
    ddochi_backend.Sarang.Approval.approve_named
forms = (refl, refl)

no_card_left : (cancel_shed_habjaeyang true (some "nobody") office).0 ≡ fail 404 "취소할 합재양을 찾을 수 없어요"
unfolding cancel_shed_habjaeyang ddochi_backend.Prelude.Text.strip
    ddochi_backend.Sarang.Logs.cancel_found active_card
no_card_left = refl

-- The result of the first of two attempts is deleted: both are open then.
reopened :
    numbers (delete_log true (some id_a) (some "m1x") (some "match") after_delay).1
    ≡ (2, true) ∷ (1, true) ∷ []
unfolding delete_log ddochi_backend.Prelude.Text.strip ddochi_backend.Sarang.Logs.delete_from
    undo_result record_postpone ddochi_backend.Sarang.Results.postpone_found latest_open
    set_habjaeyang_approval ddochi_backend.Sarang.Approval.approve_found active_card
    ddochi_backend.Sarang.Approval.write_approval has_attempt ddochi_backend.Prelude.Rows.update_row
reopened = refl

-- The stage stays where the deleted result put it.
stage_kept :
    stages (delete_log true (some id_a) (some "m1x") (some "match") after_result).1 ≡ matching ∷ []
unfolding delete_log ddochi_backend.Prelude.Text.strip ddochi_backend.Sarang.Logs.delete_from
    undo_result record_match_result ddochi_backend.Sarang.Results.result_found latest_open
    set_habjaeyang_approval ddochi_backend.Sarang.Approval.approve_found active_card
    ddochi_backend.Sarang.Approval.write_approval has_attempt ddochi_backend.Prelude.Rows.update_row
    ddochi_backend.Sarang.Results.match_stage_stmt
stage_kept = refl

-- A prospect in consultation is back at the approval when its card is approved again.
lowered :
    stages
      (set_habjaeyang_approval
        (ids "m3")
        "now"
        "100"
        id_a
        approved
        none
        (record_match_result id_a consult_win none after_approval).1).1
    ≡ approval ∷ []
unfolding set_habjaeyang_approval ddochi_backend.Sarang.Approval.approve_found active_card
    record_match_result ddochi_backend.Sarang.Results.result_found latest_open
    ddochi_backend.Sarang.Approval.write_approval has_attempt ddochi_backend.Prelude.Rows.update_row
    ddochi_backend.Sarang.Results.match_stage_stmt
lowered = refl

taps :
    ((handle_hj (ids "m1") "now" none (String.◌++◌ id_a ".a") office).0 ≡ some "🎉 재가 완료!")
    × ((handle_hj (ids "m1") "now" none (String.◌++◌ id_a ".x6") office).0
        ≡ some "🚫 반려 처리 완료 (잘못올림)")
    × ((handle_hj (ids "m1") "now" none (String.◌++◌ id_a ".x7") office).0
        ≡ some "⚠\u{fe0f} 알 수 없는 사유")
    × ((handle_hj (ids "m1") "now" none "noid" office).0 ≡ some "⚠\u{fe0f}")
    × (tap_toast (handle_callback (ids "m2") none "89abcdef.U2" after_approval)
        ≡ some (some "인성비합 입력 완료"))
    × (tap_toast (handle_callback (ids "m2") none "89abcdef.D0" after_approval)
        ≡ some (some "입력 완료"))
    × (tap_toast (handle_callback (ids "m2") none "89abcdef.W" after_result)
        ≡ some (some "이미 처리됐어"))
unfolding handle_hj ddochi_backend.Prelude.Text.prefix_of ddochi_backend.Prelude.Rows.find_row
    set_habjaeyang_approval ddochi_backend.Sarang.Approval.approve_found active_card handle_callback
    ddochi_backend.Sarang.Approval.write_approval has_attempt
    ddochi_backend.Prelude.Text.string_length ddochi_backend.Prelude.Case.upper
    ddochi_backend.Prelude.Rows.update_row record_match_result
    ddochi_backend.Sarang.Results.result_found latest_open
taps = (refl, refl, refl, refl, refl, refl, refl)

abbrev kim : MemberRow
kim = record { member_id = "7"; name = "김철수"; telegram_id = none; deleted = false }

abbrev staffed : Store
staffed = record office { members = kim ∷ [] }

abbrev teachers : Store → List (Option String × Option String)
teachers s = map (λ (c : HabJaeYang). (c.teacher_member_id, c.teacher_name_override)) s.cards

teacher_edits :
    (teachers (assign_teacher "89abcdef" (some "김철수 (수요일)") staffed).1 ≡ (some "7", none) ∷ [])
    × (teachers (edit_match true (some id_a) (some "teacher") (some "이영희(타지역)") staffed).1
        ≡ (none, some "이영희(타지역)") ∷ [])
    × ((assign_teacher "89abcdef" (some "이영희") staffed).0 ≡ unknown_name)
    × ((assign_teacher "00000000" (some "김철수") staffed).0 ≡ no_target)
    × ((assign_teacher "89abcdef" (some "(타지역)") staffed).0 ≡ no_name)
unfolding assign_teacher ddochi_backend.Prelude.Case.upper ddochi_backend.Prelude.Rows.update_row
    edit_match
teacher_edits = (refl, refl, refl, refl, refl)

-- A number without digits is refused by the table.
phone_edit : (edit_match true (some id_a) (some "phone") (some "-") office).0 ≡ fail 500 ""
unfolding edit_match
phone_edit = refl

start-IsHistory : IsHistory office.matches
unfolding unique_matches
start-IsHistory = record { unique = refl; ordered = tt }

Reach-IsHistory_example : IsHistory after_delay.matches
unfolding ddochi_backend.Prelude.Rows.find_row set_habjaeyang_approval
    ddochi_backend.Sarang.Approval.approve_found active_card
    ddochi_backend.Sarang.Approval.write_approval has_attempt
Reach-IsHistory_example = Reach-IsHistory start-IsHistory (
    next (next here (approve (ids "m1") "now" "100" id_a approved none office refl))
      (postpone (ids "m2") id_a "100" "미정" "" delayed after_approval refl))

Changes-one_active_example :
    one_active (delete_log true (some id_a) (some "m1") (some "match") after_result).1.cards ≡ true
unfolding ddochi_backend.Prelude.Rows.find_row
Changes-one_active_example = Changes-one_active card_alone (
    deletes true (some id_a) (some "m1") (some "match") (
      steps (steps unchanged (approve (ids "m1") "now" "100" id_a approved none office refl))
        (give_result id_a unfit (some "ENV_UNFIT") after_approval)))

results_raise_example :
    Raised id_a after_approval.sarangs after_result.sarangs
    × Raised id_a after_approval.sarangs after_delay.sarangs
results_raise_example =
    results_raise id_a unfit (some "ENV_UNFIT") (ids "m2") "100" "미정" "" delayed after_approval

approved_result_example :
    (record_match_result id_a cancel none
      (set_habjaeyang_approval (ids "m3") "now" "100" id_a approved none after_result).1).0
    ≡ (not (has_attempt id_a after_result.matches)
        || not (is_none (latest_open id_a after_result.matches)))
unfolding active_card record_match_result ddochi_backend.Sarang.Results.result_found latest_open
    set_habjaeyang_approval ddochi_backend.Sarang.Approval.approve_found
    ddochi_backend.Sarang.Approval.write_approval has_attempt ddochi_backend.Prelude.Rows.update_row
approved_result_example =
    approved_result (ids "m3") "now" "100" id_a none after_result approved_card cancel none refl
      refl refl

undo-record_example :
    ((undo_result "m1x" id_a (record_match_result id_a unfit none after_approval).1).0 ≡ done "")
    × ((undo_result "m1x" id_a (record_match_result id_a unfit none after_approval).1).1.matches
        ≡ after_approval.matches)
unfolding unique_matches set_habjaeyang_approval ddochi_backend.Sarang.Approval.approve_found
    active_card ddochi_backend.Sarang.Approval.write_approval has_attempt
    ddochi_backend.Prelude.Rows.find_row latest_open
undo-record_example = undo-record id_a unfit none after_approval first_one refl refl refl refl

trunc_bytes-IsCut_example : IsCut 7 "가나다" (trunc_bytes 7 "가나다")
trunc_bytes-IsCut_example = trunc_bytes-IsCut 7 "가나다"

reason_as_web_example :
    (reason_code id_a "C2" after_approval (
      cancel,
      ("경계취소", "BOUNDARY_CANCEL")
          ∷ ("갈부취소", "CONFLICT_CANCEL")
          ∷ ("환경취소", "ENV_CANCEL")
          ∷ ("연두취소", "CONTACT_LOST_CANCEL")
          ∷ [],
    )).1
    ≡ (update_match_status id_a "갈부취소" after_approval).1
unfolding ddochi_backend.Prelude.Int.digits_value ddochi_backend.Sarang.Taps.nth
reason_as_web_example =
    reason_as_web "C" "C2" id_a "갈부취소" "CONFLICT_CANCEL" after_approval cancel _ refl refl

abbrev after_tap : Store
after_tap = (hj_code (ids "m1") "now" (some "100") id_a "a" office).1

offered_approve_example :
    (card.has_replied ≡ true)
    × (card.is_window_opened ≡ true)
    × (card.approval_status ≡ pending)
    × ((hj_code (ids "m1") "now" (some "100") id_a "a" office).0 ≡ some "🎉 재가 완료!")
    × (find_row card_key card.hab_jae_yang_id after_tap.cards
        ≡ some (decide_card approved none card))
    × (find_row sarang_key id_a after_tap.sarangs
        ≡ map_row (set_stage approval) (find_row sarang_key id_a office.sarangs))
    × (has_attempt id_a after_tap.matches ≡ true)
unfolding active_card offers build_hj_keyboard find_row
offered_approve_example = offered_approve (ids "m1") "now" "100" id_a office card refl refl refl

handle_callback-returns_example :
    returns (handle_callback (ids "m2") none "89ABCDEF.S0" after_approval) ≡ true
handle_callback-returns_example =
    handle_callback-returns (ids "m2") none "89ABCDEF.S0" after_approval

abbrev room : Room
room = record {
  calls =
      record {
        prospect_id = "P1";
        caller_name = some "민지";
        caller_sabun = "100";
        started_at = 1000;
        last_heartbeat = some 90000;
      }
      ∷ record {
        prospect_id = "P2";
        caller_name = none;
        caller_sabun = "200";
        started_at = 1000;
        last_heartbeat = none;
      }
      ∷ [];
  people = record { sabun = "200"; name = none; last_heartbeat = 1000 } ∷ [];
}
