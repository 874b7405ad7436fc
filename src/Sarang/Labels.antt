-- ===== src/Sarang/Labels.antt =====
-- The texts of the form of a card: `_parse_min_label`, `_parse_transfer_label`, `_ox`, `_trunc` and
-- `_trunc_chars` of `api/views/assets.py`.
use Prim.Native.Char.{code}
use ddochi_backend.Prelude.{
  ◌≡◌, refl, ℕ, ◌+◌, ◌-◌, ◌*◌, String, Bool, true, Option, none, some, not, ◌&&◌, ◌||◌, ltb, leb,
  if◌then◌else◌,
}
use ddochi_backend.Prelude.Text.{
  str_eq, is_empty, is_digit, strip, lstrip, prefix_of, text_or_empty, non_empty,
}
use ddochi_backend.Prelude.Case.{upper}
use ddochi_backend.Prelude.Int.{digits_value}
use ddochi_backend.Pairing.Bearer.{drop_prefix}

-- `(\d+)` at the start, and what follows it
unfoldable pub span_digits : String → String × String
span_digits String.[] = (String.[], String.[])
span_digits (String.◌∷◌ c s) =
    let (d, rest) = span_digits s in
    if is_digit (code c) then (String.◌∷◌ c d, rest) else (String.[], String.◌∷◌ c s)

-- The number of a text that is digits and then the unit, as in `(\d+)unit$`
unfoldable pub counted : (unit : String) → String × String → Option ℕ
unfolding span_digits
counted unit (d, rest) =
    if not (is_empty d) && str_eq rest unit then some (digits_value d) else none

abbrev pub add_hours : ℕ → Option ℕ → Option ℕ
add_hours h none = none
add_hours h (some m) = some (h * 60 + m)

-- After `(\d+)시간`: spaces, then the minutes or the end
unfoldable pub minutes_after : String → Option ℕ
unfolding counted span_digits
minutes_after s = if is_empty s then some 0 else counted "분" (span_digits s)

unfoldable pub min_label_of : String × String → Option ℕ
unfolding drop_prefix minutes_after counted
min_label_of (d, rest) =
    let after = drop_prefix rest "시간" rest in
    if is_empty d
    then none
    else if str_eq after rest
    then counted "분" (d, rest)
    else add_hours (digits_value d) (minutes_after (lstrip after))

-- `_parse_min_label`, in minutes
unfoldable pub parse_min_label : Option String → Option ℕ
unfolding span_digits min_label_of
parse_min_label label =
    let s = strip (text_or_empty label) in
    if is_empty s || str_eq s "미정"
    then none
    else if str_eq s "2시간 이상"
    then some 120
    else min_label_of (span_digits s)

-- `_parse_transfer_label`
unfoldable pub parse_transfer_label : Option String → Option ℕ
unfolding span_digits counted
parse_transfer_label label =
    let s = strip (text_or_empty label) in
    if str_eq s "3회 이상" then some 3 else counted "회" (span_digits s)

-- `_ox`
unfoldable pub ox : Option String → Bool
ox v = str_eq (upper (strip (text_or_empty v))) "O"

-- The bytes of a character in UTF-8
abbrev pub utf8_size : ℕ → ℕ
utf8_size c = if ltb c 128 then 1 else if ltb c 2048 then 2 else if ltb c 65536 then 3 else 4

unfoldable pub byte_length : String → ℕ
byte_length String.[] = 0
byte_length (String.◌∷◌ c s) = utf8_size (code c) + byte_length s

-- `_trunc`: a character whose bytes are cut is dropped.
unfoldable pub trunc_bytes : ℕ → String → String
trunc_bytes n String.[] = String.[]
trunc_bytes n (String.◌∷◌ c s) =
    let rest = trunc_bytes (n - utf8_size (code c)) s in
    if leb (utf8_size (code c)) n then String.◌∷◌ c rest else String.[]

-- `str(v or '').strip() or None`
abbrev pub clean : Option String → Option String
clean v = non_empty (strip (text_or_empty v))

-- `_trunc` and `_trunc_chars`, of None too
abbrev pub trunc : ℕ → Option String → Option String
trunc n none = none
trunc n (some s) = some (trunc_bytes n s)

abbrev pub trunc_chars : ℕ → Option String → Option String
trunc_chars n none = none
trunc_chars n (some s) = some (prefix_of n s)

tests :
    (parse_min_label (some "1시간 10분") ≡ some 70)
    × (parse_min_label (some "2시간") ≡ some 120)
    × (parse_min_label (some " 45분 ") ≡ some 45)
    × (parse_min_label (some "2시간 이상") ≡ some 120)
    × (parse_min_label (some "10") ≡ none)
    × (parse_min_label (some "1시간 10") ≡ none)
    × (parse_min_label none ≡ none)
    × (parse_transfer_label (some "2회") ≡ some 2)
    × (parse_transfer_label (some "3회 이상") ≡ some 3)
    × (parse_transfer_label (some "회") ≡ none)
    × (ox (some " o") ≡ true)
    × (trunc_bytes 7 "가나다" ≡ "가나")
unfolding parse_min_label parse_transfer_label ox trunc_bytes strip digits_value upper
tests = (refl, refl, refl, refl, refl, refl, refl, refl, refl, refl, refl, refl)
