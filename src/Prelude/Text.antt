-- ===== src/Prelude/Text.antt =====
-- Python's text operations on the native `String`, walked by code point: `strip`, `split`,
-- `rstrip` of one suffix character, slices, and the canonical text of `int(s)`.
-- Digits and signs are ASCII; white space is what `str.isspace` accepts.
use Prim.Native.Char.{code}
use Prim.Native.String.{String, [], ◌∷◌}
use Prim.Native.Nat.{ℕ, zero, suc}
use mathlib.Core.Path.{◌≡◌, refl}
use mathlib.Core.Bool.{Bool, true, false, not, ◌&&◌, ◌||◌}
use mathlib.Core.Option.{Option, none, some}
use mathlib.Core.List.{List}
use text.Mathlib.Text.{◌==◌ as text_eq}
use ddochi_backend.Prelude.Tests.{leb, ◌==◌, if◌then◌else◌}

-- `s == t` of Python on texts
abbrev pub str_eq : String → String → Bool
str_eq s t = text_eq s t

abbrev pub is_empty : String → Bool
is_empty [] = true
is_empty (_ ∷ _) = false

-- `len(s)`
unfoldable pub string_length : String → ℕ
string_length [] = 0
string_length (c ∷ s) = suc (string_length s)

-- `str.isspace` of one character
unfoldable pub is_space : ℕ → Bool
is_space c =
    (leb 9 c && leb c 13)
    || (leb 28 c && leb c 32)
    || c == 133
    || c == 160
    || c == 5760
    || (leb 8192 c && leb c 8202)
    || c == 8232
    || c == 8233
    || c == 8239
    || c == 8287
    || c == 12288

abbrev pub is_digit : ℕ → Bool
is_digit c = leb 48 c && leb c 57

unfoldable pub lstrip : String → String
lstrip [] = []
lstrip (c ∷ s) = let rest = lstrip s in if is_space (code c) then rest else c ∷ s

unfoldable pub rstrip : String → String
rstrip [] = []
rstrip (c ∷ s) = let r = rstrip s in if is_empty r && is_space (code c) then [] else c ∷ r

unfoldable pub strip : String → String
unfolding lstrip rstrip is_space
strip s = rstrip (lstrip s)

-- `s.split(c)` for one separator character: never the empty list
unfoldable pub split_on : ℕ → String → List String
split_on sep [] = List.◌∷◌ [] List.[]
split_on sep (c ∷ s) =
    if code c == sep then List.◌∷◌ [] (split_on sep s) else elim (split_on sep s) [
      | List.[] ↦ List.◌∷◌ (c ∷ []) List.[]
      | List.◌∷◌ w ws ↦ List.◌∷◌ (c ∷ w) ws
    ]

-- `re.sub(r'[^0-9]', '', s)`
unfoldable pub digits_of : String → String
digits_of [] = []
digits_of (c ∷ s) = if is_digit (code c) then c ∷ digits_of s else digits_of s

-- `s[:n]`
unfoldable pub prefix_of : ℕ → String → String
prefix_of zero s = []
prefix_of (suc n) [] = []
prefix_of (suc n) (c ∷ s) = c ∷ prefix_of n s

-- `s or None`
abbrev pub non_empty : String → Option String
non_empty [] = none
non_empty (c ∷ s) = some (c ∷ s)

-- `o or ''`
abbrev pub text_or_empty : Option String → String
text_or_empty none = ""
text_or_empty (some s) = s

-- `a == b` on values that may be None: None equals None.
abbrev pub same : Option String → Option String → Bool
same none none = true
same none (some _) = false
same (some _) none = false
same (some a) (some b) = str_eq a b

-- `a = b` of SQL, where NULL equals nothing
abbrev pub sql_eq : Option String → Option String → Bool
sql_eq (some a) (some b) = str_eq a b
sql_eq (some _) none = false
sql_eq none _ = false

-- `a in xs`
abbrev pub is_in : String → List String → Bool
is_in a List.[] = false
is_in a (List.◌∷◌ b bs) = str_eq a b || is_in a bs

-- The digits of a number without its leading zeros.
without_zeros : String → String
without_zeros [] = "0"
without_zeros (c ∷ []) = c ∷ []
without_zeros (c ∷ s) = let rest = without_zeros s in if code c == b'0' then rest else c ∷ s

-- The digits of `int` with the single underscores between them dropped: `expect` is true where
-- a digit must follow.
unfoldable pub plain_digits : Bool → String → Option String
plain_digits expect [] = if expect then none else some []
plain_digits expect (c ∷ s) =
    let rest = plain_digits false s in
    let later = plain_digits true s in
    if is_digit (code c)
    then elim rest [ none ↦ none | some r ↦ some (c ∷ r) ]
    else if code c == b'_' && not expect
    then later
    else none

signed : String → Option String
signed [] = none
signed (c ∷ s) =
    if code c == b'-'
    then elim (plain_digits true s) [
      | none ↦ none
      | some d ↦ let n = without_zeros d in some (if str_eq n "0" then "0" else c ∷ n)
    ]
    else if code c == b'+'
    then elim (plain_digits true s) [ none ↦ none | some d ↦ some (without_zeros d) ]
    else elim (plain_digits true (c ∷ s)) [ none ↦ none | some d ↦ some (without_zeros d) ]

-- `str(int(s))`, or none where `int(s)` raises ValueError
unfoldable pub int_text : String → Option String
unfolding signed plain_digits without_zeros strip
int_text s = signed (strip s)

tests :
    (strip " a b\n" ≡ "a b")
    × (split_on b',' "1,,2" ≡ List.◌∷◌ "1" (List.◌∷◌ "" (List.◌∷◌ "2" List.[])))
    × (digits_of "010-12a" ≡ "01012")
    × (prefix_of 2 "abc" ≡ "ab")
    × (int_text " -0_07 " ≡ some "-7")
    × (int_text "1__2" ≡ none)
    × (int_text "22살" ≡ none)
    × (int_text "000" ≡ some "0")
unfolding strip split_on digits_of prefix_of int_text
tests = (refl, refl, refl, refl, refl, refl, refl, refl)
