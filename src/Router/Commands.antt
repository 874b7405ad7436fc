-- ===== src/Router/Commands.antt =====
-- The commands: `is_pair_command` and `parse_pair_code` of `tel_router_py/pairing.py`,
-- `teacher_input.py`, and `match_result_cmd.py`. `is_word` says which characters are letters,
-- digits or underscores (`\w`), an argument.
use Prim.Native.Char.{code}
use ddochi_backend.Prelude.{
  ℕ, String, Bool, true, false, Option, none, some, not, ◌&&◌, ◌||◌, ◌==◌, is_none, if◌then◌else◌,
}
use ddochi_backend.Prelude.Text.{is_empty, strip, lstrip}
use ddochi_backend.Prelude.Case.{upper}
use ddochi_backend.Router.Words.{
  word_of, starts_with_space, after_bot, take_hex, after_prefix, after_letters, all_alnum,
}

-- `\b` after the r of /pair
abbrev pub ends_word : (ℕ → Bool) → String → Bool
ends_word is_word String.[] = true
ends_word is_word (String.◌∷◌ c s) = not (is_word (code c))

abbrev pub triggers : (ℕ → Bool) → Option String → Bool
triggers is_word none = false
triggers is_word (some rest) = ends_word is_word rest

unfoldable pub is_pair_command : (is_word : ℕ → Bool) → String → Bool
unfolding strip after_letters
is_pair_command is_word text = triggers is_word (after_letters "/pair" (strip text))

-- `\s+([A-Za-z0-9]+)$`
unfoldable pub code_after : Option String → Option String
unfolding lstrip all_alnum upper
code_after none = none
code_after (some s) =
    if starts_with_space s && not (is_empty (lstrip s)) && all_alnum (lstrip s)
    then some (upper (lstrip s))
    else none

unfoldable pub pair_code_after : Option String → Option String
unfolding after_bot code_after
pair_code_after none = none
pair_code_after (some s) = code_after (after_bot s)

unfoldable pub parse_pair_code : String → Option String
unfolding strip after_letters pair_code_after
parse_pair_code text = pair_code_after (after_letters "/pair" (strip text))

-- The eight digits of a command, and what follows them and the name of the bot
unfoldable pub short_after : Option (String × String) → Option (String × String)
unfolding after_bot
short_after none = none
short_after (some (short, rest)) = elim (after_bot rest) [ none ↦ none | some r ↦ some (short, r) ]

abbrev pub hex_after : Option String → Option (String × String)
hex_after none = none
hex_after (some s) = take_hex 8 s

unfoldable pub short_command : (prefix text : String) → Option (String × String)
unfolding after_prefix take_hex short_after strip
short_command prefix text = short_after (hex_after (after_prefix prefix (strip text)))

-- What follows the command and the name of the bot: TEACHER_NAME_RE and NAME_RE
unfoldable pub name_command : (prefix text : String) → Option String
unfolding after_prefix after_bot strip
name_command prefix text = elim (after_prefix prefix (strip text)) [
  | none ↦ none
  | some rest ↦ after_bot rest
]

unfoldable pub is_teacher_command : String → Bool
unfolding short_command name_command
is_teacher_command text =
    not (is_none (short_command "/t_" text)) || not (is_none (name_command "/t" text))

-- What `handle_teacher_message` does
pub data TeacherSent : Type 0 where
  no_teacher : (short : String) → TeacherSent
  usage : TeacherSent
  by_short by_name : (who teacher : String) → TeacherSent

unfoldable pub named_teacher : Option String → TeacherSent
unfolding word_of lstrip strip
named_teacher none = usage
named_teacher (some s) =
    let (name, rest) = word_of (lstrip s) in
    if is_empty name || is_empty (strip rest) then usage else by_name name (strip rest)

unfoldable pub teacher_request : String → TeacherSent
unfolding short_command name_command named_teacher strip upper
teacher_request text = elim (short_command "/t_" text) [
  | none ↦ named_teacher (name_command "/t" text)
  | some (short, rest) ↦
      if is_empty (strip rest)
      then no_teacher (upper short)
      else by_short (upper short) (strip rest)
]

-- One word, or none, and then only spaces
unfoldable pub one_word : Option String → Option (Option String)
unfolding word_of lstrip
one_word none = none
one_word (some s) =
    let (name, rest) = word_of (lstrip s) in
    if not (is_empty (lstrip rest))
    then none
    else if is_empty name
    then some none
    else some (some name)

-- CMD_RE: spaces and the end after the short code
unfoldable pub result_short : String → Option String
unfolding short_command lstrip
result_short text = elim (short_command "/r_" text) [
  | none ↦ none
  | some (short, rest) ↦ if is_empty (lstrip rest) then some short else none
]

unfoldable pub is_result_command : String → Bool
unfolding result_short one_word name_command
is_result_command text =
    not (is_none (result_short text)) || not (is_none (one_word (name_command "/r" text)))

-- What `handle_command` sends
pub data ResultSent : Type 0 where
  explain : ResultSent
  start_short start_name : String → ResultSent

abbrev pub named_result : Option (Option String) → ResultSent
named_result (some (some name)) = start_name name
named_result _ = explain

unfoldable pub result_request : String → ResultSent
unfolding result_short one_word name_command strip upper
result_request text = elim (result_short text) [
  | none ↦ named_result (one_word (name_command "/r" text))
  | some short ↦ start_short (upper short)
]

abbrev pub kind_of : String → Option String
kind_of String.[] = none
kind_of (String.◌∷◌ c s) =
    if code c == b'D' then some "D" else if code c == b'S' then some "S" else none

-- `#r_([0-9A-Fa-f]{8})([DS])` at the start
unfoldable pub tag_here : String → Option (String × String)
unfolding after_prefix take_hex upper
tag_here s = elim (hex_after (after_prefix "#r_" s)) [
  | none ↦ none
  | some (short, rest) ↦ elim (kind_of rest) [ none ↦ none | some k ↦ some (upper short, k) ]
]

-- `DATE_TAG_RE.search`
unfoldable pub find_tag : String → Option (String × String)
unfolding tag_here
find_tag String.[] = none
find_tag (String.◌∷◌ c s) =
    let later = find_tag s in elim (tag_here (String.◌∷◌ c s)) [ some t ↦ some t | none ↦ later ]
