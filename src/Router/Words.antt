-- ===== src/Router/Words.antt =====
-- The pieces of the regular expressions of `tel_router_py/`, as functions on texts. Each pattern
-- is met by a text in one way at most, so that nothing is left to search.
use Prim.Native.Char.{code}
use ddochi_backend.Prelude.{
  ℕ, zero, suc, ◌+◌, String, Bool, true, false, Option, none, some, not, ◌&&◌, ◌||◌, leb, ◌==◌,
  if◌then◌else◌,
}
use ddochi_backend.Prelude.Text.{is_empty, is_space, is_digit}

-- `\S*` and what follows it
unfoldable pub word_of : String → String × String
unfolding is_space
word_of String.[] = (String.[], String.[])
word_of (String.◌∷◌ c s) =
    let (w, rest) = word_of s in
    if is_space (code c) then (String.[], String.◌∷◌ c s) else (String.◌∷◌ c w, rest)

abbrev pub starts_with_space : String → Bool
starts_with_space String.[] = false
starts_with_space (String.◌∷◌ c s) = is_space (code c)

-- What follows `(?:@\S+)?` where a space or the end must come next
unfoldable pub after_bot : String → Option String
unfolding word_of
after_bot String.[] = some String.[]
after_bot (String.◌∷◌ c s) =
    if is_space (code c)
    then some (String.◌∷◌ c s)
    else if code c == b'@' && not (is_empty (word_of s).0)
    then some (word_of s).1
    else none

abbrev pub is_hex : ℕ → Bool
is_hex c = is_digit c || (leb b'a' c && leb c b'f') || (leb b'A' c && leb c b'F')

-- `([0-9a-fA-F]{n})` at the start, and what follows it
unfoldable pub take_hex : ℕ → String → Option (String × String)
take_hex zero s = some (String.[], s)
take_hex (suc n) String.[] = none
take_hex (suc n) (String.◌∷◌ c s) = elim (take_hex n s) [
  | none ↦ none
  | some (h, rest) ↦ if is_hex (code c) then some (String.◌∷◌ c h, rest) else none
]

-- What follows the prefix, if it is one
unfoldable pub after_prefix : String → String → Option String
after_prefix String.[] s = some s
after_prefix (String.◌∷◌ p ps) String.[] = none
after_prefix (String.◌∷◌ p ps) (String.◌∷◌ c s) =
    let rest = after_prefix ps s in if code p == code c then rest else none

-- A letter of `/pair` in either case; Python's IGNORECASE takes two more letters for an i.
abbrev pub is_letter : (small letter : ℕ) → Bool
is_letter small c =
    if small == b'i'
    then c == b'i' || c == b'I' || c == 304 || c == 305
    else c == small || (leb b'a' small && leb small b'z' && c + 32 == small)

unfoldable pub after_letters : String → String → Option String
after_letters String.[] s = some s
after_letters (String.◌∷◌ p ps) String.[] = none
after_letters (String.◌∷◌ p ps) (String.◌∷◌ c s) =
    let rest = after_letters ps s in if is_letter (code p) (code c) then rest else none

-- `[A-Za-z0-9]` under IGNORECASE
abbrev pub is_alnum : ℕ → Bool
is_alnum c =
    is_digit c
    || (leb b'a' c && leb c b'z')
    || (leb b'A' c && leb c b'Z')
    || c == 304
    || c == 305
    || c == 383
    || c == 8490

unfoldable pub all_alnum : String → Bool
all_alnum String.[] = true
all_alnum (String.◌∷◌ c s) = is_alnum (code c) && all_alnum s
