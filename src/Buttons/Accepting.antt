-- ===== src/Buttons/Accepting.antt =====
-- What a tap that is passed on carries, and the size of the buttons of a card.
use Prim.Native.String
use text.Mathlib.TextLemmas.{nil-append, cons-append}
use mathlib.Core.Path.{Path, subst}
use text.Mathlib.TextEquality.{eq_iff}
use ddochi_backend.Prelude.{
  ◌≡◌, sym, ap, ◌∙◌, ℕ, zero, suc, ◌+◌, ◌^◌, ◌≤◌, ◌<◌, String, true, false, Option, none, some,
  List, [], ◌∷◌, ltb, inl, inr, Bool-cases, arith,
}
use ddochi_backend.Prelude.Outcome.{ok, ◌>>=◌, bind-eq-ok}
use ddochi_backend.Prelude.Text.{is_empty, split_on, prefix_of, string_length, text_or_empty}
use ddochi_backend.Prelude.Int.{ℤ, decimal, int_value}
use ddochi_backend.Prelude.Digits.{decimal-length}
use ddochi_backend.Pairing.Bearer.{compare_digest}
use ddochi_backend.Buttons.Signing.{
  Digest, with_bar, int_decimal, compute_hmac, router_hmac, sign_callback_data, Verdict, refused,
  verified, is_action, distance, after_compare, check_time, check_parts, verify_callback_data,
  hj_cb,
}
use ddochi_backend.Buttons.Callback.{
  CallbackQuery, Forwarded, Handled, forward_of, after_verdict, handle_callback_query,
}

-- The parts of the text are the action, the arguments, a time and their code.
pub record IsSigned (digest : Digest) (secret chat : String) (window now : ℕ) (parts : List String)
    (action args : String) (i : ℤ) : Type 0 where
  pub ts : String
  pub signed :
      parts ≡ action ∷ args ∷ ts ∷ router_hmac digest secret action args (int_decimal i) chat ∷ []
  pub time : int_value ts ≡ some i
  pub near : distance now i ≤ window
  pub named : is_action action ≡ true

module _ (digest : Digest) (secret chat : String) (window now : ℕ) where
  compared :
      (mac other action args : String) (at i : ℤ) (a b : String)
      → (compare_digest mac other >>= after_compare action args at) ≡ ok (verified a b i)
      → (mac ≡ other) × (action ≡ a) × (args ≡ b) × (at ≡ i)
  unfolding compare_digest
  compared mac other action args at i a b h = ground (arith, eq_iff mac other)

  check_time_sound :
      (mac action args : String) (o : Option ℤ) (a b : String) (i : ℤ)
      → check_time digest secret action args chat mac window now o ≡ ok (verified a b i)
      → (o ≡ some i)
        × (action ≡ a)
        × (args ≡ b)
        × (mac ≡ router_hmac digest secret a b (int_decimal i) chat)
        × (distance now i ≤ window)
  unfolding check_time
  check_time_sound mac action args none a b i h = cc
  check_time_sound mac action args (some at) a b i h =
      elim (Bool-cases (ltb window (distance now at))) [
        | inl late ↦ let refused_ = rw late at h in absurd (cc)
        | inr near ↦
            let (code_, same_action, same_args, same_time) =
              compared mac (router_hmac digest secret action args (int_decimal at) chat) action args
                at i a b (rw near at h) in
            let within : distance now at ≤ window = ground arith in
            (
              ap some same_time,
              same_action,
              same_args,
              code_ ∙ (λ j.
                  router_hmac digest secret (same_action j) (same_args j)
                    (int_decimal (same_time j)) chat),
              subst (λ t. distance now t ≤ window) same_time within,
            )
      ]

  check_parts_sound :
      (parts : List String) (a b : String) (i : ℤ)
      → check_parts digest secret chat window now parts ≡ ok (verified a b i)
      → IsSigned digest secret chat window now parts a b i
  unfolding check_parts
  check_parts_sound [] a b i h = cc
  check_parts_sound (_ ∷ []) a b i h = cc
  check_parts_sound (_ ∷ _ ∷ []) a b i h = cc
  check_parts_sound (_ ∷ _ ∷ _ ∷ []) a b i h = cc
  check_parts_sound (_ ∷ _ ∷ _ ∷ _ ∷ _ ∷ _) a b i h = cc
  check_parts_sound (action ∷ args ∷ ts ∷ mac ∷ []) a b i h = elim (Bool-cases (is_action action)) [
    | inr unnamed ↦ absurd (ground arith)
    | inl named ↦
        let (time, same_action, same_args, code_, near) =
          check_time_sound mac action args (int_value ts) a b i (rw named at h) in
        record {
          ts = ts;
          signed = λ j. same_action j ∷ same_args j ∷ ts ∷ code_ j ∷ [];
          time = time;
          near = near;
          named = subst (λ t. is_action t ≡ true) same_action named;
        }
  ]

  -- A text that is verified has four parts: an action, arguments, a time within the window, and the
  -- code that the secret gives to them and the chat; and there are a secret and a text.
  pub verify_sound :
      (data_ : Option String) (a b : String) (i : ℤ)
      → verify_callback_data digest secret data_ chat window now ≡ ok (verified a b i)
      → IsSigned digest secret chat window now (split_on b'|' (text_or_empty data_)) a b i
        × (is_empty secret ≡ false)
  unfolding verify_callback_data
  verify_sound data_ a b i h = elim (Bool-cases (is_empty secret)) [
    | inl e ↦ absurd (ground arith)
    | inr set ↦ elim (Bool-cases (is_empty (text_or_empty data_))) [
      | inl e ↦ absurd (ground arith)
      | inr some_ ↦ (
        check_parts_sound (split_on b'|' (text_or_empty data_)) a b i (rw (set, some_) at h),
        set,
      )
    ]
  ]

-- The request is the only one, for the tap's chat, with what the button carries under its code.
abbrev pub PassedOn :
    Digest → String → (window now : ℕ) → CallbackQuery → Forwarded → List Forwarded → Type 0
PassedOn digest secret window now cq f more =
    ((i : ℤ) × IsSigned digest secret cq.chat window now (split_on b'|' (text_or_empty cq.payload))
        f.action f.args i)
    × (is_empty secret ≡ false)
    × (f.chat ≡ cq.chat)
    × (more ≡ [])

module _ (digest : Digest) (secret : String) (window now : ℕ)
    (post : Forwarded → Option (Option String)) (cq : CallbackQuery) (h : Handled) (f : Forwarded)
    (more : List Forwarded) where
  after_tap :
      (v : Verdict)
      → verify_callback_data digest secret cq.payload cq.chat window now ≡ ok v
      → ok (after_verdict post cq v) ≡ ok h
      → h.forwarded ≡ f ∷ more
      → PassedOn digest secret window now cq f more
  unfolding after_verdict
  after_tap (refused reason) got run sent = absurd (ground arith)
  after_tap (verified a b i) got run sent =
      let (signed, set) = verify_sound digest secret cq.chat window now cq.payload a b i got in
      let same : Path Forwarded (forward_of cq a b) f = ground arith in
      (
        (
          i,
          subst
              (λ x.
                IsSigned digest secret cq.chat window now (split_on b'|' (text_or_empty cq.payload))
                  x.action x.args i)
              same signed,
        ),
        set,
        ap (λ x. x.chat) (sym same),
        ground arith,
      )

  -- What the bot router passes on to the main service for a tap is one request, for the tap's
  -- chat, whose action and arguments stand in the button with the code that the secret gives to
  -- them, to a time within the window and to that chat.
  pub tap_signed :
      handle_callback_query digest post secret window now cq ≡ ok h
      → h.forwarded ≡ f ∷ more
      → PassedOn digest secret window now cq f more
  unfolding handle_callback_query
  tap_signed run sent =
      let (v, got, then_) =
        bind-eq-ok (verify_callback_data digest secret cq.payload cq.chat window now)
          (λ v. ok (after_verdict post cq v)) run in
      after_tap v got then_ sent

string_length-append :
    (s t : String) → string_length (String.◌++◌ s t) ≡ string_length s + string_length t
unfolding string_length
string_length-append String.[] t = rw (nil-append t) (omega arith)
string_length-append (String.◌∷◌ c s) t =
    rw (cons-append c s t) (omega (arith, string_length-append s t))

string_length-with_bar :
    (a b : String) → string_length (with_bar a b) ≡ string_length a + 1 + string_length b
unfolding string_length
string_length-with_bar a b =
    string_length-append a (String.◌++◌ "|" b) ∙ omega (arith, string_length-append "|" b)

string_length-prefix_of : (n : ℕ) (s : String) → string_length (prefix_of n s) ≤ n
unfolding string_length prefix_of
string_length-prefix_of zero s = omega arith
string_length-prefix_of (suc n) String.[] = omega arith
string_length-prefix_of (suc n) (String.◌∷◌ c s) = omega (arith, string_length-prefix_of n s)

-- The button of a card has at most 64 characters, for a prospect whose id has at most 32, a code of
-- at most two, and a time of at most thirteen digits.
pub hj_cb-length :
    (digest : Digest) (secret : String) (chat : Option String) (sarang_id code_ : String) (ts : ℕ)
    → string_length sarang_id ≤ 32
    → string_length code_ ≤ 2
    → ts < 10 ^ 13
    → string_length (hj_cb digest secret chat sarang_id code_ ts) ≤ 64
unfolding hj_cb sign_callback_data compute_hmac string_length
hj_cb-length digest secret none sarang_id code_ ts id_size code_size small = omega (
  arith,
  string_length-with_bar "hj" (with_bar sarang_id code_),
  string_length-with_bar sarang_id code_,
)
hj_cb-length digest secret (some chat) sarang_id code_ ts id_size code_size small =
    let args = String.◌++◌ sarang_id (String.◌++◌ "." code_) in
    let mac =
      prefix_of 11 (digest secret (with_bar "hj" (with_bar args (with_bar (decimal ts) chat)))) in
    elim (Bool-cases (is_empty secret)) [
      | inl e ↦ rw e (
          omega (
            arith,
            string_length-with_bar "hj" (with_bar sarang_id code_),
            string_length-with_bar sarang_id code_,
          ))
      | inr e ↦ rw e (
          omega (
            arith,
            string_length-with_bar "hj" (with_bar args (with_bar (decimal ts) mac)),
            string_length-with_bar args (with_bar (decimal ts) mac),
            string_length-with_bar (decimal ts) mac,
            string_length-append sarang_id (String.◌++◌ "." code_),
            string_length-append "." code_,
            string_length-prefix_of 11
                (digest secret (with_bar "hj" (with_bar args (with_bar (decimal ts) chat)))),
            decimal-length ts 12 small,
          ))
    ]
