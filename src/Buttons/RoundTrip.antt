-- ===== src/Buttons/RoundTrip.antt =====
-- What is signed is verified, what is verified was signed, and a button fits in 64 bytes.
use Prim.Native.Char.{code}
use Prim.Native.String
use text.Mathlib.TextLemmas.{nil-append, cons-append}
use text.Mathlib.TextEquality.{eq_iff}
use ddochi_backend.Prelude.{
  ◌≡◌, refl, ℕ, zero, suc, ◌+◌, ◌≤◌, String, Bool, true, false, Option, some, [], ◌∷◌, not, ◌&&◌,
  ltb, ◌==◌, inl, inr, Option-cases, arith,
}
use ddochi_backend.Prelude.Outcome.{ok}
use ddochi_backend.Prelude.Text.{is_empty, split_on, prefix_of, text_or_empty}
use ddochi_backend.Prelude.Int.{pos, decimal}
use ddochi_backend.Prelude.Digits.{all_digits, int_value-decimal, decimal-all_digits}
use ddochi_backend.Pairing.Bearer.{is_ascii, compare_digest}
use ddochi_backend.Buttons.Signing.{
  Digest, with_bar, compute_hmac, router_hmac, sign_callback_data, verified, is_action, all_action,
  distance, check_time, check_parts, verify_callback_data, week_ms, hj_sign_ts,
}

-- ASCII, without the separator
unfoldable pub is_plain : String → Bool
is_plain String.[] = true
is_plain (String.◌∷◌ c s) = ltb (code c) 128 && not (code c == b'|') && is_plain s

-- base64 uses letters, digits, - and _.
unfoldable pub IsBase64 : Digest → Type 0
IsBase64 digest = (secret message : String) → is_plain (digest secret message) ≡ true

prefix_of-is_plain : (n : ℕ) (s : String) → is_plain s ≡ true → is_plain (prefix_of n s) ≡ true
unfolding is_plain prefix_of
prefix_of-is_plain zero s h = refl
prefix_of-is_plain (suc n) String.[] h = refl
prefix_of-is_plain (suc n) (String.◌∷◌ c s) h = ground (arith, prefix_of-is_plain n s)

is_plain-is_ascii : (s : String) → is_plain s ≡ true → is_ascii s ≡ true
unfolding is_plain is_ascii
is_plain-is_ascii String.[] h = refl
is_plain-is_ascii (String.◌∷◌ c s) h = ground (arith, is_plain-is_ascii s)

pub digits_plain : (s : String) → all_digits s ≡ true → is_plain s ≡ true
unfolding is_plain all_digits
digits_plain String.[] h = refl
digits_plain (String.◌∷◌ c s) h = ground (arith, digits_plain s)

-- No separator in the text
unfoldable pub no_bar : String → Bool
no_bar String.[] = true
no_bar (String.◌∷◌ c s) = not (code c == b'|') && no_bar s

plain_no_bar : (s : String) → is_plain s ≡ true → no_bar s ≡ true
unfolding is_plain no_bar
plain_no_bar String.[] h = refl
plain_no_bar (String.◌∷◌ c s) h = ground (arith, plain_no_bar s)

all_action-no_bar : (s : String) → all_action s ≡ true → no_bar s ≡ true
unfolding all_action no_bar
all_action-no_bar String.[] h = refl
all_action-no_bar (String.◌∷◌ c String.[]) h = ground arith
all_action-no_bar (String.◌∷◌ c (String.◌∷◌ d s)) h =
    ground (arith, all_action-no_bar (String.◌∷◌ d s))

is_action-no_bar : (s : String) → is_action s ≡ true → no_bar s ≡ true
unfolding is_action no_bar
is_action-no_bar String.[] h = refl
is_action-no_bar (String.◌∷◌ c s) h = ground (arith, all_action-no_bar s)

split_last : (s : String) → no_bar s ≡ true → split_on b'|' s ≡ s ∷ []
unfolding no_bar split_on
split_last String.[] h = refl
split_last (String.◌∷◌ c s) h =
    let other : (code c == b'|') ≡ false = ground arith in
    rw (other, split_last s (ground arith)) refl

split_first : (a b : String) → no_bar a ≡ true → split_on b'|' (with_bar a b) ≡ a ∷ split_on b'|' b
unfolding no_bar split_on
split_first String.[] b h =
    rw (nil-append (String.◌++◌ "|" b), cons-append _ String.[] b, nil-append b) refl
split_first (String.◌∷◌ c s) b h =
    let other : (code c == b'|') ≡ false = ground arith in
    rw (cons-append c s (String.◌++◌ "|" b), other, split_first s b (ground arith)) refl

compare_self : (s : String) → is_plain s ≡ true → compare_digest s s ≡ ok true
unfolding compare_digest
compare_self s h = rw (is_plain-is_ascii s h, (eq_iff s s).1 refl) refl

with_bar-not_empty : (a b : String) → is_empty (with_bar a b) ≡ false
with_bar-not_empty String.[] b = rw (nil-append (String.◌++◌ "|" b), cons-append _ String.[] b) refl
with_bar-not_empty (String.◌∷◌ c s) b = rw (cons-append c s (String.◌++◌ "|" b)) refl

sign_ts_bounds :
    (end_of_day : String → Option ℕ) (at : Option String) (now : ℕ)
    → (now ≤ hj_sign_ts end_of_day at now) × (hj_sign_ts end_of_day at now ≤ now + week_ms)
unfolding hj_sign_ts
sign_ts_bounds end_of_day at now =
    elim (Option-cases (end_of_day (prefix_of 10 (text_or_empty at)))) [
      | inl e ↦ rw e (omega arith, omega arith)
      | inr (_, e) ↦ rw e (omega arith, omega arith)
    ]

module _ (digest : Digest) (base64 : IsBase64 digest) (secret chat : String) where
  mac_plain :
      (action args ts : String) → is_plain (compute_hmac digest secret action args ts chat) ≡ true
  unfolding compute_hmac IsBase64
  mac_plain action args ts = prefix_of-is_plain 11 _ (base64 secret _)

  split_signed :
      (action args : String) (ts : ℕ)
      → is_action action ≡ true
      → no_bar args ≡ true
      → split_on b'|' (sign_callback_data digest secret action args chat ts)
        ≡ action ∷ args ∷ decimal ts ∷ compute_hmac digest secret action args (decimal ts) chat ∷ []
  unfolding sign_callback_data
  split_signed action args ts named free =
      let mac = compute_hmac digest secret action args (decimal ts) chat in
      let digits = plain_no_bar (decimal ts) (digits_plain (decimal ts) (decimal-all_digits ts)) in
      rw
        (
          split_first action (with_bar args (with_bar (decimal ts) mac))
              (is_action-no_bar action named),
          split_first args (with_bar (decimal ts) mac) free,
          split_first (decimal ts) mac digits,
          split_last mac (plain_no_bar mac (mac_plain action args (decimal ts))),
        )
        refl

  -- Both services give the same code to the same parts.
  same_hmac :
      (action args ts : String)
      → router_hmac digest secret action args ts chat
        ≡ compute_hmac digest secret action args ts chat
  unfolding router_hmac compute_hmac
  same_hmac action args ts = refl

  signed_time :
      (action args : String) (ts window now : ℕ)
      → distance now (pos ts) ≤ window
      → check_time digest secret action args chat
          (compute_hmac digest secret action args (decimal ts) chat)
          window
          now
          (some (pos ts))
        ≡ ok (verified action args (pos ts))
  unfolding check_time
  signed_time action args ts window now near =
      let within : ltb window (distance now (pos ts)) ≡ false = ground arith in
      rw
        (
          within,
          same_hmac action args (decimal ts),
          compare_self _ (mac_plain action args (decimal ts)),
        )
        refl

  -- A button that is signed under a secret, with an action of letters, digits, - and _, and
  -- arguments without a bar, is verified under that secret in its chat at every time whose distance
  -- from the signed time is at most the window, and gives back the action, the arguments and the
  -- time, where digests are base64.
  pub verify-sign :
      (action args : String) (ts window now : ℕ)
      → is_empty secret ≡ false
      → is_action action ≡ true
      → no_bar args ≡ true
      → distance now (pos ts) ≤ window
      → verify_callback_data digest secret
          (some (sign_callback_data digest secret action args chat ts))
          chat
          window
          now
        ≡ ok (verified action args (pos ts))
  unfolding verify_callback_data check_parts sign_callback_data
  verify-sign action args ts window now set named free near =
      let some_ : is_empty (sign_callback_data digest secret action args chat ts) ≡ false =
        with_bar-not_empty action _ in
      rw
        (
          set,
          some_,
          split_signed action args ts named free,
          named,
          int_value-decimal ts,
          signed_time action args ts window now near,
        )
        refl

  -- A button on a card, which is drawn at a time and signed by the main service for the meeting's
  -- day, under a secret that is not empty and with arguments without a bar, is verified by the bot
  -- router under that secret in its chat from the drawing until seven days after the signed time,
  -- which lies between the drawing and seven days later; digests are base64.
  pub card_button_live :
      (end_of_day : String → Option ℕ) (at : Option String) (drawn now : ℕ) (args : String)
      → is_empty secret ≡ false
      → no_bar args ≡ true
      → drawn ≤ now
      → now ≤ hj_sign_ts end_of_day at drawn + week_ms
      → (verify_callback_data digest secret
            (some
              (sign_callback_data digest secret "hj" args chat (hj_sign_ts end_of_day at drawn)))
            chat
            week_ms
            now
          ≡ ok (verified "hj" args (pos (hj_sign_ts end_of_day at drawn))))
        × (drawn ≤ hj_sign_ts end_of_day at drawn)
        × (hj_sign_ts end_of_day at drawn ≤ drawn + week_ms)
  unfolding is_action
  card_button_live end_of_day at drawn now args set free later until =
      let (least, most) = sign_ts_bounds end_of_day at drawn in
      (
        verify-sign "hj" args (hj_sign_ts end_of_day at drawn) week_ms now set refl free
            (omega (arith, least, most)),
        least,
        most,
      )
