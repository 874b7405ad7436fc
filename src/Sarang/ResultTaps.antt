-- ===== src/Sarang/ResultTaps.antt =====
-- The taps on a result: `_find_open` and `handle_callback` of `api/telegram/match_result_input.py`.
-- The messages that a tap edits are left out; digits are ASCII.
use Prim.Native.String
use ddochi_backend.Prelude.{
  ℕ, zero, suc, ◌-◌, String, Bool, Option, none, some, List, [], ◌∷◌, not, ◌&&◌, leb, is_none,
  if◌then◌else◌,
}
use ddochi_backend.Prelude.Outcome.{Outcome, ok, raise, value_error}
use ddochi_backend.Prelude.Text.{str_eq, prefix_of, string_length}
use ddochi_backend.Prelude.Case.{upper}
use ddochi_backend.Prelude.Int.{digits_value}
use ddochi_backend.Prelude.Digits.{all_digits}
use ddochi_backend.Sarang.Tables.{
  Sarang, MatchResult, cancel, unfit, dropout, consult_win, Match, Store, first_where,
}
use ddochi_backend.Sarang.Attempts.{latest_where}
use ddochi_backend.Sarang.Results.{record_match_result, Postpone, delayed, second, record_postpone}
use ddochi_backend.Sarang.Taps.{
  partition_dot, tail_of, is_digits, nth, numbered, resolve_actor, Tapped,
}

unfoldable pub drop_chars : ℕ → String → String
drop_chars zero s = s
drop_chars (suc n) String.[] = String.[]
drop_chars (suc n) (String.◌∷◌ c s) = drop_chars n s

-- `UPPER(SUBSTR(SARANG_ID, -8)) = UPPER(:1)`; of a shorter id SUBSTR is NULL.
unfoldable pub ends_with_short : String → String → Bool
unfolding drop_chars
ends_with_short short id =
    leb 8 (string_length id) && str_eq (upper (drop_chars (string_length id - 8) id)) (upper short)

abbrev pub is_shown : String → Sarang → Bool
is_shown id x = str_eq x.sarang_id id && not x.deleted

-- The WHERE clause of `_find_open`
unfoldable pub is_open_short : String → List Sarang → Match → Bool
unfolding ends_with_short first_where
is_open_short short sarangs m =
    is_none m.result
    && ends_with_short short m.sarang_id
    && not (is_none (first_where (is_shown m.sarang_id) sarangs))

-- `_find_open`
unfoldable pub find_open : String → Store → Option Match
unfolding is_open_short latest_where
find_open short s = latest_where (is_open_short short s.sarangs) s.matches

-- SUB_REASONS, with the result of the letter
abbrev pub sub_reasons : String → Option (MatchResult × List (String × String))
sub_reasons letter =
    if str_eq letter "C"
    then some (
      cancel,
      ("경계취소", "BOUNDARY_CANCEL")
          ∷ ("갈부취소", "CONFLICT_CANCEL")
          ∷ ("환경취소", "ENV_CANCEL")
          ∷ ("연두취소", "CONTACT_LOST_CANCEL")
          ∷ [],
    )
    else if str_eq letter "U"
    then some (
      unfit,
      ("환경비합", "ENV_UNFIT")
          ∷ ("인성비합", "PERSONALITY_UNFIT")
          ∷ ("정신질환", "MENTAL_HEALTH")
          ∷ ("건강비합", "HEALTH_UNFIT")
          ∷ [],
    )
    else if str_eq letter "X"
    then some (dropout, ("경계탈락", "BOUNDARY_DROPOUT") ∷ ("갈부탈락", "CONFLICT_DROPOUT") ∷ [])
    else none

-- POSTPONE
abbrev pub postpone_of : String → Option Postpone
postpone_of letter =
    if str_eq letter "D" then some delayed else if str_eq letter "S" then some second else none

unfoldable pub give_reason : String → Store → MatchResult → Option (String × String) → Tapped
give_reason k s r none = (some "⚠\u{fe0f} 알 수 없는 사유", s)
give_reason k s r (some (label, sub)) =
    (some (String.◌++◌ label " 입력 완료"), (record_match_result k r (some sub) s).1)

-- The actor of the log may not be NULL.
unfoldable pub postpone_open :
    (new_id : ℕ → String) (k : String) → Postpone → Store → Option String → Outcome Tapped
postpone_open new_id k p s none = raise value_error
postpone_open new_id k p s (some actor) =
    ok (some "입력 완료", (record_postpone new_id k actor "미정" "" p s).1)

-- The codes but the reasons
unfoldable pub other_code :
    (new_id : ℕ → String) (actor : Option String) (k c : String) → Store → Outcome Tapped
unfolding postpone_open
other_code new_id actor k c s =
    if not (is_none (postpone_of c))
    then ok (some "날짜를 답장으로 보내줘", s)
    else if str_eq c "D0"
    then postpone_open new_id k delayed s actor
    else if str_eq c "S0"
    then postpone_open new_id k second s actor
    else ok (some "⚠\u{fe0f} 알 수 없는 버튼", s)

abbrev pub reason_code : (k c : String) → Store → MatchResult × List (String × String) → Tapped
reason_code k c s (r, reasons) = give_reason k s r (numbered reasons (digits_value (tail_of c)))

unfoldable pub by_letter :
    (new_id : ℕ → String) (actor : Option String) (k c : String)
    → Store
    → Option (MatchResult × List (String × String))
    → Outcome Tapped
unfolding all_digits digits_value nth give_reason other_code
by_letter new_id actor k c s none = other_code new_id actor k c s
by_letter new_id actor k c s (some reasons) =
    if is_digits (tail_of c) then ok (reason_code k c s reasons) else other_code new_id actor k c s

unfoldable pub result_code :
    (new_id : ℕ → String) (actor : Option String) (k c : String) → Store → Outcome Tapped
unfolding by_letter
result_code new_id actor k c s =
    if str_eq c "b"
    then ok (none, s)
    else if str_eq c "W"
    then ok (some "상담연결 입력 완료", (record_match_result k consult_win none s).1)
    else if not (is_none (sub_reasons c))
    then ok (none, s)
    else by_letter new_id actor k c s (sub_reasons (prefix_of 1 c))

unfoldable pub result_for :
    (new_id : ℕ → String) (telegram_id : Option String) (c : String)
    → Store
    → Option Match
    → Outcome Tapped
unfolding resolve_actor result_code
result_for new_id telegram_id c s none = ok (some "이미 처리됐어", s)
result_for new_id telegram_id c s (some m) =
    result_code new_id (resolve_actor telegram_id m.sarang_id s) m.sarang_id c s

-- `handle_callback`
unfoldable pub handle_callback :
    (new_id : ℕ → String) (telegram_id : Option String) (args : String) → Store → Outcome Tapped
unfolding partition_dot find_open result_for
handle_callback new_id telegram_id args s =
    result_for new_id telegram_id (partition_dot args).1 s (find_open (partition_dot args).0 s)
