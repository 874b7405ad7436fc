-- ===== src/Sarang/Calls.antt =====
-- The calls and the people present: `shed_call_status`, `shed_presence_leave`, `shed_call_start` and
-- `shed_call_end` of `api/views/assets.py`, whose state is two dictionaries of the process. Times are
-- milliseconds; a time 0 counts as none, as in Python's `or`.
use ddochi_backend.Prelude.{
  ℕ, ◌-◌, ◌≤◌, String, Bool, true, false, Option, none, some, List, [], ◌∷◌, ltb, ◌==◌,
  if◌then◌else◌,
}
use ddochi_backend.Prelude.Text.{str_eq, is_empty, strip, text_or_empty}
use ddochi_backend.Prelude.Case.{upper}
use ddochi_backend.Sarang.Approval.{Reply, fail, done}

pub record PhoneCall : Type 0 where
  pub prospect_id : String
  pub caller_name : Option String
  pub caller_sabun : String
  pub started_at : ℕ
  pub last_heartbeat : Option ℕ

pub record Presence : Type 0 where
  pub sabun : String
  pub name : Option String
  pub last_heartbeat : ℕ

-- `shed_call_state` and `shed_presence_state`
pub record Room : Type 0 where
  pub calls : List PhoneCall
  pub people : List Presence

-- `_CALL_TTL_S` and `_PRESENCE_TTL_S`
abbrev pub call_ttl : ℕ
call_ttl = 60000

abbrev pub presence_ttl : ℕ
presence_ttl = 12000

-- `lastHeartbeat or startedAt or 0`
abbrev pub last_sign : PhoneCall → ℕ
last_sign c = elim c.last_heartbeat [
  | none ↦ c.started_at
  | some t ↦ if t == 0 then c.started_at else t
]

unfoldable pub beat : String → ℕ → List PhoneCall → List PhoneCall
beat p now [] = []
beat p now (c ∷ cs) =
    let rest = beat p now cs in
    if str_eq c.prospect_id p then record c { last_heartbeat = some now } ∷ rest else c ∷ rest

unfoldable pub live_calls : ℕ → List PhoneCall → List PhoneCall
live_calls now [] = []
live_calls now (c ∷ cs) =
    let rest = live_calls now cs in if ltb call_ttl (now - last_sign c) then rest else c ∷ rest

unfoldable pub remove_call : String → List PhoneCall → List PhoneCall
remove_call p [] = []
remove_call p (c ∷ cs) =
    let rest = remove_call p cs in if str_eq c.prospect_id p then rest else c ∷ rest

unfoldable pub remove_person : String → List Presence → List Presence
remove_person s [] = []
remove_person s (x ∷ xs) =
    let rest = remove_person s xs in if str_eq x.sabun s then rest else x ∷ rest

unfoldable pub live_people : ℕ → List Presence → List Presence
live_people now [] = []
live_people now (x ∷ xs) =
    let rest = live_people now xs in
    if ltb presence_ttl (now - x.last_heartbeat) then rest else x ∷ rest

-- The entry of a person, set
unfoldable pub come : String → Option String → ℕ → List Presence → List Presence
unfolding remove_person
come sabun name now xs =
    if is_empty sabun
    then xs
    else record { sabun = sabun; name = name; last_heartbeat = now } ∷ remove_person sabun xs

abbrev pub prospect_of : Option String → String
prospect_of o = upper (strip (text_or_empty o))

-- `shed_call_status`, after the method's check; its answer is the room.
unfoldable pub shed_call_status :
    (now : ℕ) (sabun : String) (name : Option String) (calling : Option String) → Room → Room
unfolding beat live_calls come live_people strip upper
shed_call_status now sabun name calling r = record {
  calls =
      live_calls now (
        if is_empty (prospect_of calling) then r.calls else beat (prospect_of calling) now r.calls);
  people = live_people now (come sabun name now r.people);
}

-- `shed_presence_leave`
unfoldable pub shed_presence_leave : (sabun : String) → Room → Room
unfolding remove_person
shed_presence_leave sabun r = record r { people = remove_person sabun r.people }

-- `shed_call_start`, with the name and number of `get_author_context`
unfoldable pub shed_call_start :
    (now : ℕ) (sabun : String) (name : Option String) (prospect : Option String)
    → Room
    → Reply × Room
unfolding remove_call strip upper
shed_call_start now sabun name prospect r =
    let p = prospect_of prospect in
    if is_empty p then (fail 400 "prospectId 필요", r) else (
      done "",
      record r {
        calls =
            record {
              prospect_id = p;
              caller_name = name;
              caller_sabun = sabun;
              started_at = now;
              last_heartbeat = none;
            }
            ∷ remove_call p r.calls;
      },
    )

-- `shed_call_end`
unfoldable pub shed_call_end : (prospect : Option String) → Room → Room
unfolding remove_call strip upper
shed_call_end prospect r = record r { calls = remove_call (prospect_of prospect) r.calls }

abbrev pub IsLiveCall : ℕ → PhoneCall → Type 0
IsLiveCall now c = now - last_sign c ≤ call_ttl

abbrev pub IsLivePresence : ℕ → Presence → Type 0
IsLivePresence now x = now - x.last_heartbeat ≤ presence_ttl

unfoldable pub is_here : String → List Presence → Bool
is_here s [] = false
is_here s (x ∷ xs) = let rest = is_here s xs in if str_eq x.sabun s then true else rest
