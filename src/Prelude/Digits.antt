-- ===== src/Prelude/Digits.antt =====
-- The decimal text of a number is read back, and is as long as the number has digits.
use Prim.Native.Char.{Char, code}
use text.Mathlib.TextLemmas.{nil-append, cons-append}
use Prim.Native.String
use Prim.Native.String.{String}
use Prim.Native.Nat.{ℕ, zero, suc, ◌+◌, ◌*◌, ◌/◌, ◌%◌, ◌^◌, ◌≤◌, ◌<◌}
use mathlib.Core.Path.{◌≡◌, refl, ap, ◌∙◌}
use mathlib.Core.Logic.{inl, inr}
use mathlib.Core.Bool.{Bool, true, false, ◌&&◌}
use mathlib.Core.Option.{some}
use native.Mathlib.Omega.{arith}
use native.Mathlib.Numerals.{unary_clauses}
use ddochi_backend.Prelude.Tests.{ltb, ◌==◌, Bool-cases}
use ddochi_backend.Prelude.Text.{
  string_length, is_empty, is_digit, is_space, strip, lstrip, rstrip, plain_digits,
}
use ddochi_backend.Prelude.Int.{
  pos, int_value, signed_value, natural, positive, digits_from, digits_value, digit_text,
  decimal_from, decimal,
}

-- Every character is an ASCII digit.
unfoldable pub all_digits : String → Bool
all_digits String.[] = true
all_digits (String.◌∷◌ c s) = is_digit (code c) && all_digits s

digit_no_space : (c : ℕ) → is_digit c ≡ true → is_space c ≡ false
unfolding is_space
digit_no_space c h = ground arith

rstrip-digits : (s : String) → all_digits s ≡ true → rstrip s ≡ s
unfolding all_digits rstrip
rstrip-digits String.[] h = refl
rstrip-digits (String.◌∷◌ c s) h =
    rw (rstrip-digits s (ground arith), digit_no_space (code c) (ground arith)) (ground arith)

lstrip-digits : (s : String) → all_digits s ≡ true → lstrip s ≡ s
unfolding all_digits lstrip
lstrip-digits String.[] h = refl
lstrip-digits (String.◌∷◌ c s) h = rw (digit_no_space (code c) (ground arith)) refl

strip-digits : (s : String) → all_digits s ≡ true → strip s ≡ s
unfolding strip
strip-digits s h = ap rstrip (lstrip-digits s h) ∙ rstrip-digits s h

plain_digits-digits :
    (expect : Bool) (s : String)
    → all_digits s ≡ true
    → (expect && is_empty s) ≡ false
    → plain_digits expect s ≡ some s
unfolding all_digits plain_digits
plain_digits-digits expect String.[] h g = ground arith
plain_digits-digits expect (String.◌∷◌ c s) h g =
    let mine : is_digit (code c) ≡ true = ground arith in
    rw (mine, plain_digits-digits false s (ground arith) refl) refl

natural-digits :
    (s : String) → all_digits s ≡ true → is_empty s ≡ false → natural true s ≡ some (digits_value s)
unfolding natural
natural-digits s h g = rw (natural, plain_digits-digits true s h (ground arith)) refl

-- A text of digits is read as the number that the digits stand for.
pub int_value-digits :
    (s : String)
    → all_digits s ≡ true
    → is_empty s ≡ false
    → int_value s ≡ some (pos (digits_value s))
unfolding int_value signed_value positive all_digits
int_value-digits String.[] h g = absurd (ground arith)
int_value-digits (String.◌∷◌ c s) h g =
    let not_minus : (code c == b'-') ≡ false = ground arith in
    let not_plus : (code c == b'+') ≡ false = ground arith in
    rw
      (strip-digits (String.◌∷◌ c s) h, not_minus, not_plus, natural-digits (String.◌∷◌ c s) h refl)
      refl

-- The character of a digit
digit_text-char :
    (d : ℕ) → d < 10 → (c : Char) × (digit_text d ≡ String.◌∷◌ c String.[]) × (code c ≡ 48 + d)
digit_text-char zero h = ("0", refl, refl)
digit_text-char (suc zero) h = ("1", refl, refl)
digit_text-char (suc (suc zero)) h = ("2", refl, refl)
digit_text-char (suc (suc (suc zero))) h = ("3", refl, refl)
digit_text-char (suc (suc (suc (suc zero)))) h = ("4", refl, refl)
digit_text-char (suc (suc (suc (suc (suc zero))))) h = ("5", refl, refl)
digit_text-char (suc (suc (suc (suc (suc (suc zero)))))) h = ("6", refl, refl)
digit_text-char (suc (suc (suc (suc (suc (suc (suc zero))))))) h = ("7", refl, refl)
digit_text-char (suc (suc (suc (suc (suc (suc (suc (suc zero)))))))) h = ("8", refl, refl)
digit_text-char (suc (suc (suc (suc (suc (suc (suc (suc (suc zero))))))))) h = ("9", refl, refl)
digit_text-char (suc (suc (suc (suc (suc (suc (suc (suc (suc (suc d)))))))))) h =
    absurd (omega arith)

digit_text-value : (d n : ℕ) → d < 10 → digits_from n (digit_text d) ≡ n * 10 + d
unfolding digits_from
digit_text-value d n h = let (c, same, at) = digit_text-char d h in rw same (omega (arith, at))

digits_from-append :
    (s : String) (d n : ℕ)
    → d < 10
    → digits_from n (String.◌++◌ s (digit_text d)) ≡ digits_from n s * 10 + d
unfolding digits_from
digits_from-append String.[] d n h = rw (nil-append (digit_text d)) (digit_text-value d n h)
digits_from-append (String.◌∷◌ c s) d n h =
    rw (cons-append c s (digit_text d)) (digits_from-append s d _ h)

decimal_from-value : (fuel n : ℕ) → n < fuel → digits_from 0 (decimal_from fuel n) ≡ n
unfolding decimal_from
decimal_from-value zero n h = absurd (omega arith)
decimal_from-value (suc fuel) n h = elim (Bool-cases (ltb n 10)) [
  | inl e ↦ let least = digit_text-value n 0 (ground arith) in rw e (omega (arith, least))
  | inr e ↦
      let front = decimal_from-value fuel (n / 10) (ground arith) in
      rw (e, digits_from-append (decimal_from fuel (n / 10)) (n % 10) 0 (omega arith), front)
        (omega arith)
]

append_digit :
    (s : String) (d : ℕ)
    → d < 10
    → all_digits s ≡ true
    → (all_digits (String.◌++◌ s (digit_text d)) ≡ true)
      × (is_empty (String.◌++◌ s (digit_text d)) ≡ false)
      × (string_length (String.◌++◌ s (digit_text d)) ≡ suc (string_length s))
unfolding all_digits string_length
append_digit String.[] d h g =
    let (c, same, at) = digit_text-char d h in
    rw (nil-append (digit_text d), same) (ground (arith, at), refl, refl)
append_digit (String.◌∷◌ c s) d h g =
    let (more, _, size) = append_digit s d h (ground arith) in
    rw (cons-append c s (digit_text d)) (ground (arith, more), refl, omega (arith, size))

decimal_from-digits :
    (fuel n : ℕ)
    → n < fuel
    → (all_digits (decimal_from fuel n) ≡ true) × (is_empty (decimal_from fuel n) ≡ false)
unfolding decimal_from all_digits
decimal_from-digits zero n h = absurd (omega arith)
decimal_from-digits (suc fuel) n h = elim (Bool-cases (ltb n 10)) [
  | inl e ↦
      let (c, same, at) = digit_text-char n (ground arith) in
      rw (e, same) (ground (arith, at), refl)
  | inr e ↦
      let (front, _) = decimal_from-digits fuel (n / 10) (ground arith) in
      let (all, some_, _) =
        append_digit (decimal_from fuel (n / 10)) (n % 10) (omega arith) front in
      rw e (all, some_)
]

ten_power : (k : ℕ) → 10 ^ suc k ≡ 10 ^ k * 10
ten_power k = simp unary_clauses

-- The digits before the last one
front-length :
    (front : String) (n k : ℕ)
    → ((j : ℕ) → n / 10 < 10 ^ suc j → string_length front ≤ suc j)
    → n < 10 ^ suc k
    → 10 ≤ n
    → suc (string_length front) ≤ suc k
front-length front n zero ih g big = absurd (omega (arith, ten_power zero))
front-length front n (suc k) ih g big =
    let rest = ih k (omega (arith, ten_power (suc k))) in omega (arith, rest)

decimal_from-length :
    (fuel n k : ℕ) → n < fuel → n < 10 ^ suc k → string_length (decimal_from fuel n) ≤ suc k
unfolding decimal_from string_length
decimal_from-length zero n k h g = absurd (omega arith)
decimal_from-length (suc fuel) n k h g = elim (Bool-cases (ltb n 10)) [
  | inl e ↦ let (c, same, _) = digit_text-char n (ground arith) in rw (e, same) (omega arith)
  | inr e ↦
      let (front, _) = decimal_from-digits fuel (n / 10) (ground arith) in
      let (_, _, size) = append_digit (decimal_from fuel (n / 10)) (n % 10) (omega arith) front in
      rw (e, size)
        (front-length (decimal_from fuel (n / 10)) n k
          (λ j below. decimal_from-length fuel (n / 10) j (ground arith) below) g (ground arith))
]

-- `int(str(n))` is `n`.
pub int_value-decimal : (n : ℕ) → int_value (decimal n) ≡ some (pos n)
unfolding decimal digits_value
int_value-decimal n =
    let (all, some_) = decimal_from-digits (n + 1) n (omega arith) in
    int_value-digits (decimal_from (n + 1) n) all some_
    ∙ ap (λ m. some (pos m)) (decimal_from-value (n + 1) n (omega arith))

pub decimal-all_digits : (n : ℕ) → all_digits (decimal n) ≡ true
unfolding decimal
decimal-all_digits n = (decimal_from-digits (n + 1) n (omega arith)).0

-- A number below ten to the power k + 1 has at most k + 1 digits.
pub decimal-length : (n k : ℕ) → n < 10 ^ suc k → string_length (decimal n) ≤ suc k
unfolding decimal
decimal-length n k h = decimal_from-length (n + 1) n k (omega arith) h
