-- ===== src/Prelude/Int.antt =====
-- Python's unbounded integers over the native numbers, and `int(s)` of an ASCII text.
use Prim.Native.Char.{code}
use Prim.Native.String.{String, [], ◌∷◌}
use Prim.Native.String
use Prim.Native.Nat.{ℕ, zero, suc, ◌+◌, ◌-◌, ◌*◌, ◌/◌, ◌%◌}
use mathlib.Core.Path.{◌≡◌, refl}
use mathlib.Core.Bool.{Bool, true}
use mathlib.Core.Option.{Option, none, some}
use ddochi_backend.Prelude.Tests.{ltb, ◌==◌, if◌then◌else◌}
use ddochi_backend.Prelude.Text.{strip, plain_digits}

-- `negsuc n` is -(n + 1).
pub data ℤ : Type 0 where
  pos : ℕ → ℤ
  negsuc : ℕ → ℤ

abbrev pub abs : ℤ → ℕ
abs (pos n) = n
abs (negsuc n) = suc n

-- `-n`
abbrev pub neg : ℕ → ℤ
neg n = if n == 0 then pos 0 else negsuc (n - 1)

unfoldable pub digits_from : ℕ → String → ℕ
digits_from n [] = n
digits_from n (c ∷ s) = digits_from (n * 10 + (code c - b'0')) s

-- The number that decimal digits stand for
unfoldable pub digits_value : String → ℕ
unfolding digits_from
digits_value s = digits_from 0 s

unfoldable pub natural : Bool → String → Option ℕ
unfolding plain_digits digits_value
natural expect s = elim (plain_digits expect s) [ none ↦ none | some d ↦ some (digits_value d) ]

unfoldable pub negated : Option ℕ → Option ℤ
negated none = none
negated (some n) = some (neg n)

unfoldable pub positive : Option ℕ → Option ℤ
positive none = none
positive (some n) = some (pos n)

unfoldable pub signed_value : String → Option ℤ
unfolding natural negated positive
signed_value [] = none
signed_value (c ∷ s) =
    if code c == b'-'
    then negated (natural true s)
    else if code c == b'+'
    then positive (natural true s)
    else positive (natural true (c ∷ s))

-- `int(s)`, or none where it raises ValueError
unfoldable pub int_value : String → Option ℤ
unfolding signed_value strip
int_value s = signed_value (strip s)

tests :
    (int_value "30" ≡ some (pos 30))
    × (int_value " -0_7" ≡ some (negsuc 6))
    × (int_value "" ≡ none)
    × (int_value "5x" ≡ none)
unfolding int_value
tests = (refl, refl, refl, refl)

-- One decimal digit
abbrev pub digit_text : ℕ → String
digit_text d =
    if d == 0
    then "0"
    else if d == 1
    then "1"
    else if d == 2
    then "2"
    else if d == 3
    then "3"
    else if d == 4
    then "4"
    else if d == 5
    then "5"
    else if d == 6
    then "6"
    else if d == 7
    then "7"
    else if d == 8
    then "8"
    else "9"

unfoldable pub decimal_from : ℕ → ℕ → String
decimal_from zero n = ""
decimal_from (suc fuel) n =
    let front = decimal_from fuel (n / 10) in
    if ltb n 10 then digit_text n else String.◌++◌ front (digit_text (n % 10))

-- `str(n)`; a number has at most as many digits as its value plus one.
unfoldable pub decimal : ℕ → String
unfolding decimal_from
decimal n = decimal_from (n + 1) n

decimal_tests :
    (decimal 0 ≡ "0") × (decimal 404 ≡ "404") × (decimal 1791159600000 ≡ "1791159600000")
unfolding decimal
decimal_tests = (refl, refl, refl)
