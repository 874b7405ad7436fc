-- ===== src/Sarang/Editing.antt =====
-- `edit_match` and the edits of a card by `update_match` of `api/views/assets.py`. The refresh of
-- the dashboards and of the card in Telegram is left out. A time keeps the text that TO_TIMESTAMP
-- reads.
use Prim.Native.String
use ddochi_backend.Prelude.{
  String, Bool, Option, none, some, List, [], ◌∷◌, not, ◌&&◌, ◌||◌, is_none, if◌then◌else◌,
}
use ddochi_backend.Prelude.Text.{
  str_eq, is_empty, strip, split_on, digits_of, prefix_of, text_or_empty, non_empty,
}
use ddochi_backend.Prelude.Rows.{update_row}
use ddochi_backend.Sarang.Tables.{
  Sarang, HjColumn, self_image, HabJaeYang, Match, MemberRow, Store, sarang_key, card_key,
  match_key, update_where, is_active_of, active_card,
}
use ddochi_backend.Sarang.Attempts.{latest_open}
use ddochi_backend.Sarang.Approval.{Reply, fail, done}
use ddochi_backend.Sarang.Results.{with_space, update_match_status}
use ddochi_backend.Sarang.Labels.{clean, trunc_chars}
use ddochi_backend.Sarang.Submit.{member_id_by_name, or_kept}
use ddochi_backend.Sarang.Teacher.{teacher_name, web_columns, write_teacher}

abbrev pub not_listed : String → String
not_listed name = String.◌++◌ "사용자 [" (String.◌++◌ name "] 명단에 없어!")

-- An answer without a status code has 200.
unfoldable pub edit_teacher :
    String → String → Store → Option (Option String × Option String) → Reply × Store
unfolding teacher_name
edit_teacher raw card_id s none = (fail 200 (not_listed (teacher_name raw)), s)
edit_teacher raw card_id s (some columns) = (done "반영 완료!", write_teacher card_id columns s)

abbrev pub set_matched_at : String → Match → Match
set_matched_at t m = record m { matched_at = non_empty t }

abbrev pub set_scheduled_at : String → HabJaeYang → HabJaeYang
set_scheduled_at t c = record c { match_scheduled_at = non_empty t }

-- The open attempt, or the card before there is one
unfoldable pub edit_date : String → String → Store → Option Match → Store
edit_date t card_id s (some m) = record s {
  matches = update_row match_key m.match_id (set_matched_at t) s.matches;
}
edit_date t card_id s none = record s {
  cards = update_row card_key card_id (set_scheduled_at t) s.cards;
}

abbrev pub first_part : List String → String
first_part [] = ""
first_part (a ∷ more) = strip a

abbrev pub second_part : List String → String
second_part (a ∷ b ∷ more) = strip b
second_part _ = ""

abbrev pub set_guide : String → HabJaeYang → HabJaeYang
set_guide id c = record c { guide_member_id = some id }

unfoldable pub edit_guide : String → String → Store → Option String → Reply × Store
edit_guide name card_id s none = (fail 200 (not_listed name), s)
edit_guide name card_id s (some id) =
    (done "반영 완료!", record s { cards = update_row card_key card_id (set_guide id) s.cards })

abbrev pub edit_sarang : String → (Sarang → Sarang) → Store → Reply × Store
edit_sarang k f s = (done "반영 완료!", record s { sarangs = update_row sarang_key k f s.sarangs })

unfoldable pub edit_sub_guide : String → String → Store → List String → Reply × Store
unfolding member_id_by_name edit_guide
edit_sub_guide k card_id s parts =
    let name = first_part parts in
    let guide = second_part parts in
    if not (is_empty name)
    then edit_sarang k (λ x. record x { name = name }) s
    else if not (is_empty guide)
    then edit_guide guide card_id s (member_id_by_name (some guide) s.members)
    else (done "반영 완료!", s)

abbrev pub edit_card : String → (HabJaeYang → HabJaeYang) → Store → Reply × Store
edit_card k f s = (done "반영 완료!", record s { cards = update_where (is_active_of k) f s.cards })

-- A number without digits is refused by the table, which is answered as an error of the server.
unfoldable pub edit_phone : String → String → Store → Reply × Store
unfolding digits_of
edit_phone k raw s =
    if is_empty (digits_of raw)
    then (fail 500 "", s)
    else edit_sarang k (λ x. record x { phone = raw; phone_normalized = digits_of raw }) s

unfoldable pub edit_by_type :
    (k edit_type : String) → Option String → Store → HabJaeYang → Reply × Store
unfolding edit_teacher web_columns edit_date edit_sub_guide with_space latest_open strip prefix_of
    split_on edit_phone update_where
edit_by_type k edit_type value s c =
    let raw = strip (text_or_empty value) in
    if str_eq edit_type "teacher"
    then edit_teacher raw c.hab_jae_yang_id s (web_columns raw s.members)
    else if str_eq edit_type "date"
    then (
      done "반영 완료!",
      edit_date (prefix_of 16 (with_space (text_or_empty value))) c.hab_jae_yang_id s
          (latest_open k s.matches),
    )
    else if str_eq edit_type "subGuide"
    then edit_sub_guide k c.hab_jae_yang_id s (split_on b',' (text_or_empty value))
    else if str_eq edit_type "gender"
    then edit_sarang k (λ x. record x { gender = non_empty raw }) s
    else if str_eq edit_type "age"
    then edit_sarang k (λ x. record x { age = non_empty raw }) s
    else if str_eq edit_type "residence"
    then edit_sarang k (λ x. record x { station = non_empty raw }) s
    else if str_eq edit_type "phone"
    then edit_phone k raw s
    else if str_eq edit_type "path"
    then edit_card k (λ d. record d { route = trunc_chars 50 (clean value) }) s
    else if str_eq edit_type "tool"
    then edit_card k (λ d. record d { tool = trunc_chars 50 (clean value) }) s
    else (fail 200 (String.◌++◌ "지원 안 되는 type: " edit_type), s)

unfoldable pub edit_found :
    (k edit_type : String) → Option String → Store → Option HabJaeYang → Reply × Store
unfolding edit_by_type
edit_found k edit_type value s none = (fail 404 "활성 합재양이 없어요", s)
edit_found k edit_type value s (some c) = edit_by_type k edit_type value s c

-- `edit_match`, behind the gate
unfoldable pub edit_match :
    (is_post : Bool) (row_index edit_type value : Option String) → Store → Reply × Store
unfolding edit_found active_card strip
edit_match is_post row_index edit_type value s =
    if not is_post
    then (fail 405 "method_not_allowed", s)
    else if is_empty (strip (text_or_empty row_index)) || is_empty (text_or_empty edit_type)
    then (fail 400 "rowIndex/type 필요", s)
    else edit_found (strip (text_or_empty row_index)) (text_or_empty edit_type) value s
        (active_card (strip (text_or_empty row_index)) s.cards)

-- The data of an edit of the card: `entry schedule` is that of the key schedule, or else sch;
-- `self_image_given` is the presence of the key selfImage.
pub record CardEdit : Type 0 where
  pub guide : Option String
  pub tm_name : Option String
  pub entry : HjColumn → Option String
  pub self_image_given : Bool
  pub mbti : Option String

abbrev pub edited_cell : CardEdit → (HjColumn → Option String) → HjColumn → Option String
edited_cell e old self_image =
    if e.self_image_given then clean (e.entry self_image) else old self_image
edited_cell e old col = clean (e.entry col)

abbrev pub or_old : Option String → Option String → Option String
or_old none old = old
or_old (some v) old = some v

abbrev pub write_edit : CardEdit → (guide_id caller_id : Option String) → HabJaeYang → HabJaeYang
write_edit e guide_id caller_id c = record c {
  guide_member_id = or_old guide_id c.guide_member_id;
  caller_member_id = or_old caller_id c.caller_member_id;
  cell = edited_cell e c.cell;
}

-- A name that is given must be a member's.
unfoldable pub is_unlisted : Option String → List MemberRow → Bool
unfolding member_id_by_name strip
is_unlisted name members =
    not (is_empty (strip (text_or_empty name))) && is_none (member_id_by_name name members)

unfoldable pub edit_card_found : String → CardEdit → Store → Option HabJaeYang → Reply × Store
unfolding is_unlisted member_id_by_name strip
edit_card_found k e s none = (fail 404 "활성 합재양이 없어요", s)
edit_card_found k e s (some c) =
    if is_unlisted e.guide s.members
    then (
      fail 200 (String.◌++◌ "인도자 [" (String.◌++◌ (strip (text_or_empty e.guide)) "]이(가) 명단에 없어!")),
      s,
    )
    else if is_unlisted e.tm_name s.members
    then (
      fail 200
          (String.◌++◌ "티엠자 [" (String.◌++◌ (strip (text_or_empty e.tm_name)) "]이(가) 명단에 없어!")),
      s,
    )
    else (
      done "반영 완료!",
      record s {
        cards =
            update_row card_key c.hab_jae_yang_id
              (write_edit e (member_id_by_name e.guide s.members)
                (member_id_by_name e.tm_name s.members))
              s.cards;
        sarangs =
            update_row sarang_key k (λ x. record x { mbti = or_kept e.mbti x.mbti }) s.sarangs;
      },
    )

unfoldable pub update_by_type :
    (k edit_type match_result : String) → CardEdit → Store → Reply × Store
unfolding edit_card_found active_card update_match_status strip
update_by_type k edit_type match_result e s =
    if str_eq edit_type "habjaeyang"
    then edit_card_found k e s (active_card k s.cards)
    else if str_eq edit_type "status"
    then update_match_status k (strip match_result) s
    else (fail 400 (String.◌++◌ "지원 안 되는 type: " edit_type), s)

-- `update_match`, behind the gate
unfoldable pub update_match :
    (is_post : Bool) (row_index edit_type match_result : Option String)
    → CardEdit
    → Store
    → Reply × Store
unfolding update_by_type strip
update_match is_post row_index edit_type match_result e s =
    if not is_post
    then (fail 405 "method_not_allowed", s)
    else if is_empty (strip (text_or_empty row_index))
    then (fail 400 "rowIndex 필요", s)
    else update_by_type (strip (text_or_empty row_index)) (text_or_empty edit_type)
        (text_or_empty match_result) e s
