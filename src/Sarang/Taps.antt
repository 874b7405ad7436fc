-- ===== src/Sarang/Taps.antt =====
-- The taps on a card: `_resolve_actor` and `_handle_hj` of `api/views/internal_telegram.py`, and
-- `build_hj_keyboard` of `api/telegram/habjaeyang.py`. The messages that a tap edits and the
-- refresh of dashboards are left out; digits are ASCII.
use Prim.Native.Char.{code}
use Prim.Native.String
use ddochi_backend.Prelude.{
  ℕ, zero, suc, String, Bool, true, false, Option, none, some, List, [], ◌∷◌, not, ◌&&◌, ◌||◌, ◌==◌,
  if◌then◌else◌,
}
use ddochi_backend.Prelude.Text.{str_eq, is_empty, prefix_of}
use ddochi_backend.Prelude.Int.{digits_value}
use ddochi_backend.Prelude.Digits.{all_digits}
use ddochi_backend.Prelude.Rows.{find_row}
use ddochi_backend.Sarang.Tables.{
  Sarang, ApprovalStatus, pending, approved, rejected, HabJaeYang, MemberRow, Store, sarang_key,
  first_where,
}
use ddochi_backend.Sarang.Approval.{
  Flag, replied, window_opened, toggle_hj_field, Approved, no_card, blocked, recorded,
  set_habjaeyang_approval,
}

-- `s.rpartition('.')`, or none without a dot
unfoldable pub rpartition_dot : String → Option (String × String)
rpartition_dot String.[] = none
rpartition_dot (String.◌∷◌ c s) = elim (rpartition_dot s) [
  | some (a, b) ↦ some (String.◌∷◌ c a, b)
  | none ↦ if code c == b'.' then some (String.[], s) else none
]

-- The first and last parts of `s.partition('.')`
unfoldable pub partition_dot : String → String × String
partition_dot String.[] = (String.[], String.[])
partition_dot (String.◌∷◌ c s) =
    let (a, b) = partition_dot s in if code c == b'.' then (String.[], s) else (String.◌∷◌ c a, b)

abbrev pub tail_of : String → String
tail_of String.[] = String.[]
tail_of (String.◌∷◌ c s) = s

-- `code[1:].isdigit()`
abbrev pub is_digits : String → Bool
is_digits s = not (is_empty s) && all_digits s

unfoldable pub nth {ℓ} : {A : Type ℓ} → List A → ℕ → Option A
nth [] n = none
nth (x ∷ xs) zero = some x
nth (x ∷ xs) (suc n) = nth xs n

-- `xs[n - 1]` for n from 1 to the length, else none
abbrev pub numbered {ℓ} : {A : Type ℓ} → List A → ℕ → Option A
numbered xs zero = none
numbered xs (suc n) = nth xs n

abbrev pub has_telegram : String → MemberRow → Bool
has_telegram t m = elim m.telegram_id [ none ↦ false | some u ↦ str_eq u t ]

abbrev pub inflow_of : Option Sarang → Option String
inflow_of none = none
inflow_of (some x) = some x.inflow_member_id

abbrev pub linked : Option String → List MemberRow → Option MemberRow
linked none members = none
linked (some t) members = if is_empty t then none else first_where (has_telegram t) members

abbrev pub or_inflow : Option MemberRow → String → List Sarang → Option String
or_inflow none k sarangs = inflow_of (find_row sarang_key k sarangs)
or_inflow (some m) k sarangs = some m.member_id

-- `_resolve_actor`
unfoldable pub resolve_actor : Option String → String → Store → Option String
unfolding first_where
resolve_actor telegram_id k s = or_inflow (linked telegram_id s.members) k s.sarangs

-- HJ_REJECT_REASONS
abbrev pub reject_reasons : List String
reject_reasons = "매칭취소" ∷ "환경반려" ∷ "인성반려" ∷ "중섭반려" ∷ "답장안옴" ∷ "잘못올림" ∷ []

-- One row after the flags of `build_hj_keyboard`, as the texts and codes of its buttons
abbrev pub decision_row : Bool → ApprovalStatus → List (String × String)
decision_row ready approved = ("🎉 재가 완료", "n") ∷ []
decision_row ready rejected = ("🚫 반려됨", "n") ∷ []
decision_row ready pending =
    if ready then ("🛡\u{fe0f} 재가", "a") ∷ ("❌ 반려", "x") ∷ [] else ("❌ 반려", "x") ∷ []

-- `build_hj_keyboard`, before its codes are signed
unfoldable pub build_hj_keyboard : HabJaeYang → List (List (String × String))
build_hj_keyboard c =
    ((if c.has_replied then "✅ 답장 💬" else "💬 답장", "r")
      ∷ (if c.is_window_opened then "✅ 창개설 🚪" else "🚪 창개설", "w")
      ∷ [])
    ∷ decision_row (c.has_replied && c.is_window_opened) c.approval_status
    ∷ []

-- The toast, and the store after
abbrev pub Tapped : Type 0
Tapped = Option String × Store

abbrev pub rejected_toast : String → Approved × Store → Tapped
rejected_toast reason (no_card, s) = (some "⚠\u{fe0f} 합재양 없음", s)
rejected_toast reason (_, s) = (some (String.◌++◌ "🚫 반려 처리 완료 (" (String.◌++◌ reason ")")), s)

abbrev pub approved_toast : Approved × Store → Tapped
approved_toast (no_card, s) = (some "⚠\u{fe0f} 합재양 없음", s)
approved_toast (blocked, s) = (some "⚠\u{fe0f} 답장/창개설 먼저 해줘", s)
approved_toast (recorded i, s) = (some "🎉 재가 완료!", s)

abbrev pub flag_toast : Flag → Option Bool × Store → Tapped
flag_toast f (none, s) = (some "⚠\u{fe0f} 합재양 없음", s)
flag_toast replied (some true, s) = (some "✅ 답장 표시", s)
flag_toast replied (some false, s) = (some "⏪ 답장 해제", s)
flag_toast window_opened (some true, s) = (some "✅ 창 개설", s)
flag_toast window_opened (some false, s) = (some "⏪ 창 해제", s)

unfoldable pub reject_for :
    (new_id : ℕ → String) (now k : String) → Store → Option String → Option String → Tapped
reject_for new_id now k s none actor = (some "⚠\u{fe0f} 알 수 없는 사유", s)
reject_for new_id now k s (some reason) none = (some "⚠\u{fe0f} 처리 실패", s)
reject_for new_id now k s (some reason) (some actor) =
    rejected_toast reason (set_habjaeyang_approval new_id now actor k rejected (some reason) s)

unfoldable pub approve_by : (new_id : ℕ → String) (now k : String) → Store → Option String → Tapped
approve_by new_id now k s none = (some "⚠\u{fe0f} 처리 실패", s)
approve_by new_id now k s (some actor) =
    approved_toast (set_habjaeyang_approval new_id now actor k approved none s)

unfoldable pub hj_code :
    (new_id : ℕ → String) (now : String) (actor : Option String) (k c : String) → Store → Tapped
unfolding all_digits digits_value nth reject_for approve_by
hj_code new_id now actor k c s =
    if str_eq c "x"
    then (some "사유를 선택해줘", s)
    else if str_eq c "b"
    then (none, s)
    else if str_eq (prefix_of 1 c) "x" && is_digits (tail_of c)
    then reject_for new_id now k s (numbered reject_reasons (digits_value (tail_of c))) actor
    else if str_eq c "n" || str_eq c "noop"
    then (some "🦔", s)
    else if str_eq c "r" || str_eq c "reply"
    then flag_toast replied (toggle_hj_field replied k s)
    else if str_eq c "w" || str_eq c "window"
    then flag_toast window_opened (toggle_hj_field window_opened k s)
    else if str_eq c "a" || str_eq c "approve"
    then approve_by new_id now k s actor
    else (some "⚠\u{fe0f} 알 수 없는 동작", s)

unfoldable pub hj_parts :
    (new_id : ℕ → String) (now : String) (telegram_id : Option String)
    → Store
    → Option (String × String)
    → Tapped
unfolding resolve_actor hj_code
hj_parts new_id now telegram_id s none = (some "⚠\u{fe0f}", s)
hj_parts new_id now telegram_id s (some (k, c)) =
    if is_empty k
    then (some "⚠\u{fe0f}", s)
    else hj_code new_id now (resolve_actor telegram_id k s) k c s

-- `_handle_hj`
unfoldable pub handle_hj :
    (new_id : ℕ → String) (now : String) (telegram_id : Option String) (args : String)
    → Store
    → Tapped
unfolding rpartition_dot hj_parts
handle_hj new_id now telegram_id args s = hj_parts new_id now telegram_id s (rpartition_dot args)
