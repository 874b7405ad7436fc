-- ===== src/Sarang/Approval.antt =====
-- `_toggle_hj_field`, `toggle_hj_status`, `_set_habjaeyang_approval` and `update_approval` of
-- `api/views/assets.py`. The messages to Telegram are left out. `new_id` draws the ids of rows
-- (`uuid.uuid4().hex.upper()`), one for each number.
use ddochi_backend.Prelude.{
  ℕ, String, Bool, true, false, Option, none, some, ◌∷◌, not, ◌&&◌, ◌||◌, if◌then◌else◌,
}
use ddochi_backend.Prelude.Text.{str_eq, is_empty, strip, text_or_empty, non_empty, prefix_of}
use ddochi_backend.Prelude.Rows.{update_row}
use ddochi_backend.Sarang.Tables.{
  Stage, approval, Sarang, ApprovalStatus, approved, rejected, HabJaeYang, Match, Store, sarang_key,
  card_key, update_where, is_active_of, active_card,
}
use ddochi_backend.Sarang.Attempts.{has_attempt}

pub data Reply : Type 0 where
  fail : ℕ → String → Reply
  -- `value` of toggle_hj_status
  toggled : Bool → Reply
  done : String → Reply

-- HAS_REPLIED and IS_WINDOW_OPENED
pub data Flag : Type 0 where
  replied window_opened : Flag

abbrev pub flag_of : Flag → HabJaeYang → Bool
flag_of replied c = c.has_replied
flag_of window_opened c = c.is_window_opened

abbrev pub set_flag : Flag → Bool → HabJaeYang → HabJaeYang
set_flag replied b c = record c { has_replied = b }
set_flag window_opened b c = record c { is_window_opened = b }

unfoldable pub toggle_found : Flag → String → Store → Option HabJaeYang → Option Bool × Store
unfolding update_where
toggle_found f k s none = (none, s)
toggle_found f k s (some cur) =
    let new_val = not (flag_of f cur) in
    (some new_val, record s { cards = update_where (is_active_of k) (set_flag f new_val) s.cards })

-- `_toggle_hj_field`
unfoldable pub toggle_hj_field : Flag → String → Store → Option Bool × Store
toggle_hj_field f k s = toggle_found f k s (active_card k s.cards)

abbrev pub flag_named : String → Option Flag
flag_named s =
    if str_eq s "replied"
    then some replied
    else if str_eq s "windowOpened"
    then some window_opened
    else none

abbrev pub toggle_reply : Option Bool × Store → Reply × Store
toggle_reply (none, s) = (fail 404 "활성 합재양 없음", s)
toggle_reply (some b, s) = (toggled b, s)

unfoldable pub toggle_named : String → Store → Option Flag → Reply × Store
toggle_named k s none = (fail 400 "invalid request", s)
toggle_named k s (some f) =
    if is_empty k then (fail 400 "invalid request", s) else toggle_reply (toggle_hj_field f k s)

unfoldable pub toggle_hj_status :
    (is_post : Bool) (doc_id field : Option String) → Store → Reply × Store
toggle_hj_status is_post doc_id field s =
    if not is_post
    then (fail 405 "method_not_allowed", s)
    else toggle_named (strip (text_or_empty doc_id)) s (flag_named (text_or_empty field))

-- What `_set_habjaeyang_approval` returns
pub data Approved : Type 0 where
  no_card blocked : Approved
  -- `habJaeYangId`
  recorded : String → Approved

abbrev pub is_approved : ApprovalStatus → Bool
is_approved approved = true
is_approved _ = false

abbrev pub decide_card : ApprovalStatus → Option String → HabJaeYang → HabJaeYang
decide_card v reason c = record c { approval_status = v; reject_reason = reason }

abbrev pub set_stage : Stage → Sarang → Sarang
set_stage g x = record x { stage = g }

-- The first attempt, copied from the card; SYSTIMESTAMP where the card has no time
abbrev pub first_attempt : (id now : String) → HabJaeYang → Match
first_attempt id now c = record {
  match_id = id;
  sarang_id = c.sarang_id;
  match_degree = 1;
  attempt_count = 1;
  matched_at = some (elim c.match_scheduled_at [ none ↦ now | some t ↦ t ]);
  match_location = c.match_location;
  teacher_member_id = none;
  result = none;
  sub_reason = none;
  finished = false;
}

abbrev pub approval_event : ApprovalStatus → String
approval_event v = if is_approved v then "재가처리" else "반려처리"

-- The transaction
unfoldable pub write_approval :
    (new_id : ℕ → String) (now sabun k : String)
    → ApprovalStatus
    → Option String
    → HabJaeYang
    → Store
    → Store
write_approval new_id now sabun k v reason c s = record s {
  cards = update_row card_key c.hab_jae_yang_id (decide_card v reason) s.cards;
  activities =
      record {
        activity_id = new_id 0;
        sarang_id = k;
        actor_member_id = sabun;
        event_type = approval_event v;
        content = reason;
      }
      ∷ s.activities;
  sarangs =
      if is_approved v then update_row sarang_key k (set_stage approval) s.sarangs else s.sarangs;
  matches =
      if is_approved v && not (has_attempt k s.matches)
      then first_attempt (new_id 1) now c ∷ s.matches
      else s.matches;
}

unfoldable pub approve_found :
    (new_id : ℕ → String) (now sabun k : String)
    → ApprovalStatus
    → Option String
    → Store
    → Option HabJaeYang
    → Approved × Store
approve_found new_id now sabun k v reason s none = (no_card, s)
approve_found new_id now sabun k v reason s (some c) =
    if is_approved v && (not c.has_replied || not c.is_window_opened)
    then (blocked, s)
    else (recorded c.hab_jae_yang_id, write_approval new_id now sabun k v reason c s)

-- `_set_habjaeyang_approval`, with `reason or None`
unfoldable pub set_habjaeyang_approval :
    (new_id : ℕ → String) (now sabun k : String)
    → ApprovalStatus
    → Option String
    → Store
    → Approved × Store
set_habjaeyang_approval new_id now sabun k v reason s =
    approve_found new_id now sabun k v reason s (active_card k s.cards)

abbrev pub verdict_named : String → Option ApprovalStatus
verdict_named s =
    if str_eq s "재가" then some approved else if str_eq s "반려" then some rejected else none

abbrev pub approval_reply : String → Approved × Store → Reply × Store
approval_reply status (no_card, s) = (fail 404 "활성 합재양이 없어요", s)
approval_reply status (blocked, s) = (fail 400 "답장과 창개설을 먼저 완료해야 재가할 수 있어요", s)
approval_reply status (recorded id, s) = (done status, s)

unfoldable pub approve_named :
    (new_id : ℕ → String) (now sabun k status : String)
    → Option String
    → Store
    → Option ApprovalStatus
    → Reply × Store
approve_named new_id now sabun k status reason s none = (fail 400 "rowIndex, status 필요", s)
approve_named new_id now sabun k status reason s (some v) =
    if is_empty k
    then (fail 400 "rowIndex, status 필요", s)
    else approval_reply status (set_habjaeyang_approval new_id now sabun k v reason s)

-- `update_approval`, behind the gate
unfoldable pub update_approval :
    (new_id : ℕ → String) (now sabun : String) (is_post : Bool)
    (row_index status reason : Option String)
    → Store
    → Reply × Store
update_approval new_id now sabun is_post row_index status reason s =
    if not is_post
    then (fail 405 "method_not_allowed", s)
    else approve_named new_id now sabun (strip (text_or_empty row_index))
        (strip (text_or_empty status)) (non_empty (prefix_of 500 (strip (text_or_empty reason)))) s
        (verdict_named (strip (text_or_empty status)))
