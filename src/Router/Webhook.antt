-- ===== src/Router/Webhook.antt =====
-- `_dedup_hit` and `webhook` of `tel_router_py/main.py`. Times are milliseconds of the event loop.
use ddochi_backend.Prelude.{
  ℕ, ◌-◌, String, Bool, true, false, Option, none, some, List, [], ◌∷◌, not, ◌||◌, ltb, ◌==◌,
  if◌then◌else◌,
}
use ddochi_backend.Prelude.Text.{str_eq, is_empty}
use ddochi_backend.Router.Commands.{
  is_pair_command, parse_pair_code, is_teacher_command, TeacherSent, teacher_request,
  is_result_command, ResultSent, result_request, find_tag,
}

-- `_DEDUP_TTL_S`
abbrev pub dedup_ttl : ℕ
dedup_ttl = 300000

-- `_seen_update_ids`: the ids with their times
abbrev pub Seen : Type 0
Seen = List (ℕ × ℕ)

unfoldable pub drop_old : ℕ → Seen → Seen
drop_old now [] = []
drop_old now ((k, t) ∷ seen) =
    let rest = drop_old now seen in if ltb dedup_ttl (now - t) then rest else (k, t) ∷ rest

unfoldable pub is_seen : ℕ → Seen → Bool
is_seen k [] = false
is_seen k ((j, t) ∷ seen) = j == k || is_seen k seen

unfoldable pub dedup_known : ℕ → ℕ → Seen → Bool × Seen
unfolding is_seen
dedup_known now k seen = if is_seen k seen then (true, seen) else (false, (k, now) ∷ seen)

-- `_dedup_hit`
unfoldable pub dedup_hit : ℕ → Option ℕ → Seen → Bool × Seen
unfolding drop_old dedup_known
dedup_hit now none seen = (false, seen)
dedup_hit now (some k) seen = dedup_known now k (drop_old now seen)

pub record Update : Type 0 where
  pub update_id : Option ℕ
  -- `message.text`, where it is a text
  pub said : Option String
  -- the text of the bot's message that it replies to
  pub replied_bot : Option String
  pub has_callback : Bool

pub data Handled : Type 0 where
  unauthorized unconfigured duplicate ignored : Handled
  pairing : Option String → Handled
  teacher : TeacherSent → Handled
  result : ResultSent → Handled
  date_reply : (short kind said : String) → Handled
  callback : Handled

abbrev pub after_text : Update → Handled
after_text u = if u.has_callback then callback else ignored

abbrev pub by_tag : Update → String → Option (String × String) → Handled
by_tag u t none = after_text u
by_tag u t (some (short, kind)) = date_reply short kind t

abbrev pub tag_of : Option String → Option (String × String)
tag_of none = none
tag_of (some prompt) = find_tag prompt

-- The handlers, in the order in which they are asked
unfoldable pub route : (is_word : ℕ → Bool) → Update → Option String → Handled
unfolding is_pair_command parse_pair_code is_teacher_command teacher_request is_result_command
    result_request find_tag
route is_word u none = after_text u
route is_word u (some t) =
    if is_pair_command is_word t
    then pairing (parse_pair_code t)
    else if is_teacher_command t
    then teacher (teacher_request t)
    else if is_result_command t
    then result (result_request t)
    else by_tag u t (tag_of u.replied_bot)

unfoldable pub route_new : (is_word : ℕ → Bool) → Update → Bool × Seen → Handled × Seen
unfolding route
route_new is_word u (true, seen) = (duplicate, seen)
route_new is_word u (false, seen) = (route is_word u u.said, seen)

-- `webhook`, after the update has been read
unfoldable pub webhook :
    (is_word : ℕ → Bool)
    → (secret token : String) → (now : ℕ) → Option Update
    → Seen
    → Handled × Seen
unfolding dedup_hit route_new
webhook is_word secret token now none seen =
    if is_empty secret
    then (unconfigured, seen)
    else if not (str_eq token secret)
    then (unauthorized, seen)
    else (ignored, seen)
webhook is_word secret token now (some u) seen =
    if is_empty secret
    then (unconfigured, seen)
    else if not (str_eq token secret)
    then (unauthorized, seen)
    else route_new is_word u (dedup_hit now u.update_id seen)
