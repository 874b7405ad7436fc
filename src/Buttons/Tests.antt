-- ===== src/Buttons/Tests.antt =====
-- Buttons under a stub of the digest, which counts the characters of the message.
use ddochi_backend.Prelude.{
  ◌≡◌, refl, ℕ, ◌+◌, ◌*◌, ◌^◌, ◌≤◌, String, Bool, true, false, Option, none, some, List, [], ◌∷◌,
  arith,
}
use ddochi_backend.Prelude.Outcome.{ok}
use ddochi_backend.Prelude.Text.{is_empty, string_length}
use ddochi_backend.Prelude.Int.{pos, decimal}
use ddochi_backend.Prelude.Digits.{decimal-all_digits}
use ddochi_backend.Buttons.Signing.{
  Digest, compute_hmac, sign_callback_data, refused, verified, verify_callback_data, week_ms,
  hj_sign_ts, hj_cb,
}
use ddochi_backend.Buttons.Callback.{CallbackQuery, Forwarded, forward_of, handle_callback_query}
use ddochi_backend.Buttons.RoundTrip.{IsBase64, digits_plain, verify-sign, card_button_live}
use ddochi_backend.Buttons.Accepting.{PassedOn, tap_signed, hj_cb-length}

abbrev counting : Digest
counting secret message = decimal (10000000000 + string_length message)

counting-IsBase64 : IsBase64 counting
unfolding IsBase64
counting-IsBase64 secret message = digits_plain _ (decimal-all_digits _)

abbrev button : String
button = "hj|AB.a|1000000|10000000023"

signed :
    (sign_callback_data counting "s" "hj" "AB.a" "-100555" 1000000 ≡ button)
    × (verify_callback_data counting "s" (some button) "-100555" 600000 1000000
        ≡ ok (verified "hj" "AB.a" (pos 1000000)))
    × (verify_callback_data counting "s" (some button) "-1005556" 600000 1000000
        ≡ ok (refused "hmac_mismatch"))
    × (verify_callback_data counting "s" (some button) "-100555" 600000 1700000
        ≡ ok (refused "ts_expired"))
    × (verify_callback_data counting "s" (some "hj|AB|a") "-100555" 600000 1000000
        ≡ ok (refused "bad_format"))
    × (verify_callback_data counting "s" (some "h!|AB|1|x") "-100555" 600000 1000000
        ≡ ok (refused "bad_action"))
    × (verify_callback_data counting "s" (some "hj|AB|x1|x") "-100555" 600000 1000000
        ≡ ok (refused "bad_ts"))
    × (verify_callback_data counting "" (some button) "-100555" 600000 1000000
        ≡ ok (refused "hmac_secret_unset"))
    × (verify_callback_data counting "s" none "-100555" 600000 1000000 ≡ ok (refused "empty"))
unfolding sign_callback_data decimal ddochi_backend.Prelude.Text.prefix_of string_length
    verify_callback_data ddochi_backend.Prelude.Int.int_value
signed = (refl, refl, refl, refl, refl, refl, refl, refl, refl)

abbrev end_of_20th : String → Option ℕ
end_of_20th day = some 1792508399000

abbrev tap : CallbackQuery
tap = record {
  id = some "q1";
  payload = some button;
  chat = "-100555";
  message_id = some 7;
  from_id = "42";
}

abbrev toasting : Forwarded → Option (Option String)
toasting f = some none

tapped :
    handle_callback_query counting toasting "s" week_ms 1000500 tap
    ≡ ok (record { forwarded = forward_of tap "hj" "AB.a" ∷ []; answers = ("q1", "✅") ∷ [] })
unfolding handle_callback_query ddochi_backend.Prelude.Int.int_value
    ddochi_backend.Prelude.Text.prefix_of decimal string_length
tapped = refl

verify-sign_example :
    verify_callback_data counting "s"
      (some (sign_callback_data counting "s" "mr" "1234ABCD.C" "-100" 5000))
      "-100"
      600
      5500
    ≡ ok (verified "mr" "1234ABCD.C" (pos 5000))
unfolding ddochi_backend.Buttons.Signing.is_action ddochi_backend.Buttons.RoundTrip.no_bar
verify-sign_example =
    verify-sign counting counting-IsBase64 "s" "-100" "mr" "1234ABCD.C" 5000 600 5500 refl refl refl
      (omega arith)

card_button_live_example :
    (verify_callback_data counting "s"
        (some (
          sign_callback_data counting "s" "hj" "AB.a" "-100"
            (hj_sign_ts end_of_20th (some "2026-10-20T14:00") 1792143780000)))
        "-100"
        week_ms
        1793100000000
      ≡ ok (
          verified "hj" "AB.a"
            (pos (hj_sign_ts end_of_20th (some "2026-10-20T14:00") 1792143780000))))
    × (1792143780000 ≤ hj_sign_ts end_of_20th (some "2026-10-20T14:00") 1792143780000)
    × (hj_sign_ts end_of_20th (some "2026-10-20T14:00") 1792143780000 ≤ 1792143780000 + week_ms)
unfolding ddochi_backend.Buttons.RoundTrip.no_bar hj_sign_ts
card_button_live_example =
    card_button_live counting counting-IsBase64 "s" "-100" end_of_20th (some "2026-10-20T14:00")
      1792143780000 1793100000000 "AB.a" refl refl (omega arith) (omega arith)

tap_signed_example : PassedOn counting "s" week_ms 1000500 tap (forward_of tap "hj" "AB.a") []
tap_signed_example =
    tap_signed counting "s" week_ms 1000500 toasting tap
      (record { forwarded = forward_of tap "hj" "AB.a" ∷ []; answers = ("q1", "✅") ∷ [] })
      (forward_of tap "hj" "AB.a") [] tapped refl

abbrev long_id : String
long_id = "0123456789ABCDEF0123456789ABCDEF"

hj_cb-length_example :
    string_length (hj_cb counting "s" (some "-100") long_id "x1" 1792143780000) ≤ 64
unfolding string_length
hj_cb-length_example =
    hj_cb-length counting "s" (some "-100") long_id "x1" 1792143780000 (omega arith) (omega arith)
      (omega arith)
