-- ===== src/ShortCard/Journal.antt =====
-- `get_short_card_journal` and `save_short_card_journal`.
use ddochi_backend.Prelude.{
  ℕ, String, Bool, true, false, Option, none, some, List, [], ◌∷◌, not, ◌&&◌, ◌||◌, if◌then◌else◌,
  is_none,
}
use ddochi_backend.Prelude.Text.{
  str_eq, strip, is_empty, text_or_empty, non_empty, digits_of, prefix_of,
}
use ddochi_backend.ShortCard.Tables.{
  Column, age, gender, phone, phone_normalized, school_major, environment, residence, faith_status,
  relation, personality, hobby, has_partner, family_relation, desired_image, recent_concern,
  family_atmosphere, human_relations, note_special, guide_comment, col_eq, SproutStatus, pending,
  rejected, Card, Store, find_live_card, find_card, update_card,
}
use ddochi_backend.ShortCard.Tiers.{caller_ctx}
use ddochi_backend.ShortCard.Stage.{stage3_complete, journal_stage}
use ddochi_backend.ShortCard.Scope.{in_scope, can_edit_journal}
use ddochi_backend.ShortCard.Replies.{Fields, field?, Request, Reply, fail, journal, saved}

unfoldable pub found_journal : Store → String → Option Card → Reply
found_journal s sabun none = fail 404 "짧카를 찾을 수 없어요"
found_journal s sabun (some row) =
    if not (in_scope (caller_ctx sabun s) s sabun row)
    then fail 403 "볼 수 없는 짧카예요"
    else journal row (journal_stage row.cell row.sprout)
        (str_eq row.member sabun || can_edit_journal s sabun row.member)

unfoldable pub get_short_card_journal : Request → Store → Reply
get_short_card_journal r s =
    if not r.is_post
    then fail 405 "method_not_allowed"
    else let k = strip (text_or_empty r.short_card_id) in
      if is_empty k
      then fail 400 "shortCardId 필요"
      else found_journal s r.sabun (find_live_card k s.cards)

-- `field_map`
abbrev pub field_map : List (String × Column)
field_map =
    ("faithStatus", faith_status)
    ∷ ("relation", relation)
    ∷ ("personality", personality)
    ∷ ("hobby", hobby)
    ∷ ("hasPartner", has_partner)
    ∷ ("familyRelation", family_relation)
    ∷ ("desiredImage", desired_image)
    ∷ ("recentConcern", recent_concern)
    ∷ ("familyAtmosphere", family_atmosphere)
    ∷ ("humanRelations", human_relations)
    ∷ ("noteSpecial", note_special)
    ∷ ("guideComment", guide_comment)
    ∷ ("residence", residence)
    ∷ ("schoolMajor", school_major)
    ∷ ("environment", environment)
    ∷ ("age", age)
    ∷ ("gender", gender)
    ∷ []

-- `_JOURNAL_MAX_CHARS`
abbrev pub journal_max_chars : Column → Option ℕ
journal_max_chars gender = some 10
journal_max_chars has_partner = some 500
journal_max_chars relation = some 500
journal_max_chars school_major = some 500
journal_max_chars residence = some 500
journal_max_chars personality = some 1000
journal_max_chars hobby = some 1000
journal_max_chars family_relation = some 1000
journal_max_chars desired_image = some 1000
journal_max_chars recent_concern = some 1000
journal_max_chars family_atmosphere = some 1000
journal_max_chars human_relations = some 1000
journal_max_chars guide_comment = some 1000
journal_max_chars note_special = some 1000
journal_max_chars environment = some 1000
journal_max_chars _ = none

cut_to : Option ℕ → String → Option String
cut_to none v = some v
cut_to (some n) v = some (prefix_of n v)

-- The value that is stored for one field of the request
trimmed_value : Column → Option String → Option String
unfolding cut_to
trimmed_value col none = none
trimmed_value col (some v) =
    if col_eq col age
    then non_empty (prefix_of 3 (digits_of v))
    else cut_to (journal_max_chars col) v

stripped : Option String → Option String
stripped none = none
stripped (some v) = non_empty (strip v)

unfoldable pub journal_value : Column → Option String → Option String
unfolding trimmed_value stripped
journal_value col v = trimmed_value col (stripped v)

unfoldable pub set_cell : Column → Option String → (Column → Option String) → Column → Option String
set_cell col v cell j = if col_eq col j then v else cell j

-- One round of the loop over `field_map`: a key that is not given sets nothing.
unfoldable pub set_given :
    Column → Option (Option String) → (Column → Option String) → Column → Option String
unfolding journal_value set_cell
set_given col none cell = cell
set_given col (some v) cell = set_cell col (journal_value col v) cell

unfoldable pub set_fields :
    List (String × Column) → Fields → (Column → Option String) → Column → Option String
unfolding set_given
set_fields [] data_ cell = cell
set_fields ((k, col) ∷ more) data_ cell =
    set_fields more data_ (set_given col (field? k data_) cell)

unfoldable pub any_given : List (String × Column) → Fields → Bool
any_given [] data_ = false
any_given ((k, col) ∷ more) data_ = not (is_none (field? k data_)) || any_given more data_

-- PHONE and PHONE_NORMALIZED, when `'phone' in data`
unfoldable pub set_phone :
    Option (Option String) → (Column → Option String) → Column → Option String
unfolding set_cell
set_phone none cell = cell
set_phone (some v) cell =
    let p = non_empty (strip (text_or_empty v)) in
    set_cell phone_normalized (non_empty (digits_of (text_or_empty p))) (set_cell phone p cell)

-- The first UPDATE of `save_short_card_journal`
unfoldable pub write_fields : Fields → String → Card → Card
unfolding set_fields set_phone
write_fields data_ sabun c = record c {
  cell = set_phone (field? "phone" data_) (set_fields field_map data_ c.cell);
  updated_by = sabun;
}

-- SPROUT_STATUS is NULL or 'rejected'.
abbrev pub may_request : Option SproutStatus → Bool
may_request none = true
may_request (some rejected) = true
may_request (some _) = false

abbrev pub is_waiting : Option SproutStatus → Bool
is_waiting (some pending) = true
is_waiting _ = false

abbrev pub request_sprout : Card → Card
request_sprout c = record c { sprout = some pending; decided_by = none }

abbrev pub withdraw_sprout : Card → Card
withdraw_sprout c = record c { sprout = none }

-- From the read-back of the card to the end
unfoldable pub after_write : String → Store → Option Card → Reply × Store
after_write k s none = (fail 500 "'NoneType' object has no attribute 'get'", s)
after_write k s (some cur) =
    let s2 = (stage3_complete cur.cell).s2 in
    if s2 && may_request cur.sprout
    then (saved true, record s { cards = update_card k request_sprout s.cards })
    else if not s2 && is_waiting cur.sprout
    then (saved false, record s { cards = update_card k withdraw_sprout s.cards })
    else (saved false, s)

unfoldable pub write_and_request : Request → String → Store → Reply × Store
write_and_request r k s =
    if not (any_given field_map r.fields || not (is_none (field? "phone" r.fields)))
    then (fail 400 "변경할 값이 없어요", s)
    else let written = record s { cards = update_card k (write_fields r.fields r.sabun) s.cards } in
      after_write k written (find_card k written.cards)

unfoldable pub save_found : Request → String → Store → Option Card → Reply × Store
save_found r k s none = (fail 404 "짧카를 찾을 수 없어요", s)
save_found r k s (some card) =
    if not (can_edit_journal s r.sabun card.member)
    then (fail 403 "인도자 본인과 담당 구역장만 농부일지를 쓸 수 있어요", s)
    else write_and_request r k s

unfoldable pub save_short_card_journal : Request → Store → Reply × Store
save_short_card_journal r s =
    if not r.is_post
    then (fail 405 "method_not_allowed", s)
    else let k = strip (text_or_empty r.short_card_id) in
      if is_empty k
      then (fail 400 "shortCardId 필요", s)
      else save_found r k s (find_live_card k s.cards)
