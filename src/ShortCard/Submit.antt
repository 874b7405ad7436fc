-- ===== src/ShortCard/Submit.antt =====
-- `submit_short_card`: a new card, unless its telephone number is taken.
use Prim.Native.String
use ddochi_backend.Prelude.{
  String, Bool, true, false, Option, none, some, List, [], ◌∷◌, not, ◌&&◌, any, if◌then◌else◌,
}
use ddochi_backend.Prelude.Text.{
  str_eq, is_empty, is_in, sql_eq, non_empty, text_or_empty, digits_of, int_text,
}
use ddochi_backend.ShortCard.Tables.{
  Column, age, gender, phone, phone_normalized, school_major, environment, residence, religion,
  recruit_note, Member, Card, Store,
}
use ddochi_backend.ShortCard.Replies.{Fields, field, text_field, Request, Reply, fail, submitted}

-- `int(age) if age not in (None, '') else None`, or None where `int` raises
age_of : Option String → Option String
age_of none = none
age_of (some s) = if is_empty s then none else int_text s

-- A text that must be one of a set, or None
one_of : List String → Option String → Option String
one_of set_ none = none
one_of set_ (some v) = if is_in v set_ then some v else none

abbrev genders : List String
genders = "남" ∷ "여" ∷ []

abbrev religions : List String
religions = "무교" ∷ "기독교" ∷ "불교" ∷ "천주교" ∷ "기타" ∷ []

-- `phone_normalized` of the request
unfoldable pub phone_of : Fields → Option String
phone_of fs = non_empty (digits_of (text_or_empty (non_empty (text_field "phone" fs))))

-- The columns of the INSERT
unfoldable pub new_cell : Fields → Column → Option String
unfolding age_of one_of phone_of
new_cell fs age = age_of (field "age" fs)
new_cell fs gender = one_of genders (non_empty (text_field "gender" fs))
new_cell fs phone = non_empty (text_field "phone" fs)
new_cell fs phone_normalized = phone_of fs
new_cell fs school_major = non_empty (text_field "schoolMajor" fs)
new_cell fs environment = non_empty (text_field "environment" fs)
new_cell fs residence = non_empty (text_field "residence" fs)
new_cell fs religion = one_of religions (non_empty (text_field "religion" fs))
new_cell fs recruit_note = non_empty (text_field "recruitNote" fs)
new_cell fs _ = none

-- SELECT MEMBER_ID FROM MEMBERS WHERE NAME = :1 AND DELETED_AT IS NULL FETCH FIRST 1 ROWS ONLY
unfoldable pub find_guide : String → List Member → Option String
find_guide name [] = none
find_guide name (m ∷ ms) =
    if str_eq m.name name && not m.deleted then some m.member_id else find_guide name ms

unfoldable pub name_of : String → List Member → Option String
name_of k [] = none
name_of k (m ∷ ms) = if str_eq m.member_id k then some m.name else name_of k ms

-- A live card has the number.
unfoldable pub takes_phone : Option String → Card → Bool
takes_phone p c = sql_eq (c.cell phone_normalized) p && not c.deleted

pair_with : String → Option String → Option (String × String)
pair_with m none = none
pair_with m (some n) = some (m, n)

-- The row of SHORT_CARDS JOIN MEMBERS with the number: the owner's id and name
unfoldable pub find_duplicate : Option String → List Member → List Card → Option (String × String)
unfolding takes_phone name_of pair_with
find_duplicate p ms [] = none
find_duplicate p ms (c ∷ cs) =
    let later = find_duplicate p ms cs in
    if takes_phone p c
    then elim (pair_with c.member (name_of c.member ms)) [ none ↦ later | some d ↦ some d ]
    else later

-- The INSERT, and the notice of a duplicate in SARANG_PERSONAL_INFO
unfoldable pub insert_card : String → String → Request → String → Store → Reply × Store
unfolding new_cell
insert_card new_id name r guide s = (
  submitted (any (λ p. sql_eq (some p) (phone_of r.fields)) s.sarang_phones),
  record s {
    cards =
        record {
          card_id = new_id;
          member = guide;
          name = name;
          cell = new_cell r.fields;
          is_approved = true;
          sprout = none;
          decided_by = none;
          created_by = r.sabun;
          updated_by = r.sabun;
          deleted = false;
        }
        ∷ s.cards;
  },
)

unfoldable pub refuse_or_insert :
    String → String → Request → String → Store → Option (String × String) → Reply × Store
refuse_or_insert new_id name r guide s none = insert_card new_id name r guide s
refuse_or_insert new_id name r guide s (some (owner, owner_name)) =
    if str_eq owner guide
    then (fail 400 "이미 제출한 짧카입니다", s)
    else (fail 400 (String.◌++◌ "앗! " (String.◌++◌ owner_name "님이랑 같은 지인이신가봐요!! 이미 제출한 짧카입니다")), s)

unfoldable pub submit_for : String → String → Request → Store → Option String → Reply × Store
submit_for new_id name r s none = (
  fail 400 (String.◌++◌ "인도자 이름[" (String.◌++◌ (text_field "guideName" r.fields) "]을 찾을 수 없어요")),
  s,
)
submit_for new_id name r s (some guide) =
    refuse_or_insert new_id name r guide s (find_duplicate (phone_of r.fields) s.members s.cards)

-- `new_id` is `uuid.uuid4().hex.upper()`.
unfoldable pub submit_short_card : String → Request → Store → Reply × Store
submit_short_card new_id r s =
    if not r.is_post
    then (fail 405 "method_not_allowed", s)
    else let name = text_field "name" r.fields in
      let guide_name = text_field "guideName" r.fields in
      if is_empty name
      then (fail 400 "이름 필요", s)
      else submit_for new_id name r s
          (if is_empty guide_name then some r.sabun else find_guide guide_name s.members)
