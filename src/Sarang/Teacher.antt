-- ===== src/Sarang/Teacher.antt =====
-- The teacher of a match: the rule for names that `edit_match` of `api/views/assets.py` and
-- `_assign_teacher` of `api/views/internal_telegram.py` share.
use Prim.Native.Char.{code}
use ddochi_backend.Prelude.{
  ◌-◌, String, Bool, Option, none, some, List, not, ◌&&◌, leb, ◌==◌, is_none, if◌then◌else◌,
}
use ddochi_backend.Prelude.Text.{str_eq, is_empty, strip, text_or_empty, prefix_of, string_length}
use ddochi_backend.Prelude.Rows.{update_row}
use ddochi_backend.Sarang.Tables.{
  Sarang, HabJaeYang, MemberRow, Store, card_key, first_where, active_card,
}
use ddochi_backend.Sarang.Submit.{member_id_by_name}
use ddochi_backend.Sarang.ResultTaps.{drop_chars, ends_with_short}

-- `s.endswith('(타지역)')`: five characters
unfoldable pub is_other_region : String → Bool
unfolding drop_chars
is_other_region s = leb 5 (string_length s) && str_eq (drop_chars (string_length s - 5) s) "(타지역)"

-- `s.split('(')[0]`
unfoldable pub before_bracket : String → String
before_bracket String.[] = String.[]
before_bracket (String.◌∷◌ c s) =
    let rest = before_bracket s in if code c == b'(' then String.[] else String.◌∷◌ c rest

unfoldable pub teacher_name : String → String
unfolding is_other_region before_bracket strip prefix_of string_length
teacher_name raw =
    if is_other_region raw
    then strip (prefix_of (string_length raw - 5) raw)
    else strip (before_bracket raw)

-- TEACHER_MEMBER_ID and TEACHER_NAME_OVERRIDE
abbrev pub put_teacher : Option String × Option String → HabJaeYang → HabJaeYang
put_teacher (id, override) c = record c { teacher_member_id = id; teacher_name_override = override }

-- The columns for a name that is given; none where no member has it
unfoldable pub teacher_columns : String → List MemberRow → Option (Option String × Option String)
unfolding teacher_name is_other_region member_id_by_name
teacher_columns raw members =
    if str_eq (teacher_name raw) "-"
    then some (none, none)
    else if is_other_region raw
    then some (none, some raw)
    else elim (member_id_by_name (some (teacher_name raw)) members) [
      | none ↦ none
      | some id ↦ some (some id, none)
    ]

abbrev pub write_teacher : String → Option String × Option String → Store → Store
write_teacher card_id columns s = record s {
  cards = update_row card_key card_id (put_teacher columns) s.cards;
}

-- The web: without a name the columns are cleared.
unfoldable pub web_columns : String → List MemberRow → Option (Option String × Option String)
unfolding teacher_columns teacher_name
web_columns raw members =
    if is_empty (teacher_name raw) then some (none, none) else teacher_columns raw members

-- The rows that the bot's query joins: a prospect that is not deleted, and its active card
abbrev pub is_for_short : String → Sarang → Bool
is_for_short short x = ends_with_short short x.sarang_id && not x.deleted

abbrev pub has_card : String → List HabJaeYang → Sarang → Bool
has_card short cards x = is_for_short short x && not (is_none (active_card x.sarang_id cards))

abbrev pub card_of : List HabJaeYang → Option Sarang → Option HabJaeYang
card_of cards none = none
card_of cards (some x) = active_card x.sarang_id cards

unfoldable pub card_for_short : String → Store → Option HabJaeYang
unfolding ends_with_short active_card first_where
card_for_short short s = card_of s.cards (first_where (has_card short s.cards) s.sarangs)

-- What `_assign_teacher` answers
pub data Assigned : Type 0 where
  no_target no_name unknown_name assigned : Assigned

unfoldable pub assign_columns :
    String → Store → Option (Option String × Option String) → Assigned × Store
assign_columns card_id s none = (unknown_name, s)
assign_columns card_id s (some columns) = (assigned, write_teacher card_id columns s)

unfoldable pub assign_found : String → Store → Option HabJaeYang → Assigned × Store
unfolding teacher_name teacher_columns assign_columns
assign_found raw s none = (no_target, s)
assign_found raw s (some c) =
    if is_empty (teacher_name raw)
    then (no_name, s)
    else assign_columns c.hab_jae_yang_id s (teacher_columns raw s.members)

-- `_assign_teacher`
unfoldable pub assign_teacher : (short : String) → Option String → Store → Assigned × Store
unfolding strip card_for_short assign_found
assign_teacher short raw s = assign_found (strip (text_or_empty raw)) s (card_for_short short s)
