-- ===== src/Buttons/Callback.antt =====
-- `handle_callback_query` of `tel_router_py/callback.py`. `post` stands for the request to the
-- main service: none where it fails, else the toast of its answer.
use ddochi_backend.Prelude.{ℕ, String, Option, none, some, List, [], ◌∷◌, if◌then◌else◌}
use ddochi_backend.Prelude.Outcome.{Outcome, ok, ◌>>=◌}
use ddochi_backend.Prelude.Text.{is_empty, text_or_empty}
use ddochi_backend.Buttons.Signing.{Digest, Verdict, refused, verified, verify_callback_data}

pub record CallbackQuery : Type 0 where
  pub id : Option String
  pub payload : Option String
  pub chat : String
  pub message_id : Option ℕ
  pub from_id : String

-- The body of the request to the main service
pub record Forwarded : Type 0 where
  pub action : String
  pub args : String
  pub chat : String
  pub message_id : Option ℕ
  pub from_id : String

-- What the handler does: the requests to the main service, and the texts it answers with
pub record Handled : Type 0 where
  pub forwarded : List Forwarded
  pub answers : List (String × String)

abbrev pub answer : Option String → String → List (String × String)
answer none said = []
answer (some id) said = (id, said) ∷ []

abbrev pub toast_of : Option (Option String) → String
toast_of none = "⚠\u{fe0f} 처리 실패"
toast_of (some toast) = if is_empty (text_or_empty toast) then "✅" else text_or_empty toast

abbrev pub forward_of : CallbackQuery → (action args : String) → Forwarded
forward_of cq action args = record {
  action = action;
  args = args;
  chat = cq.chat;
  message_id = cq.message_id;
  from_id = cq.from_id;
}

unfoldable pub after_verdict :
    (post : Forwarded → Option (Option String)) → CallbackQuery → Verdict → Handled
after_verdict post cq (refused reason) = record {
  forwarded = [];
  answers = answer cq.id "⚠\u{fe0f} 만료되었거나 잘못된 버튼이야";
}
after_verdict post cq (verified action args ts) = record {
  forwarded = forward_of cq action args ∷ [];
  answers = answer cq.id (toast_of (post (forward_of cq action args)));
}

unfoldable pub handle_callback_query :
    Digest
    → (post : Forwarded → Option (Option String)) → (secret : String) → (window now : ℕ)
    → CallbackQuery
    → Outcome Handled
unfolding verify_callback_data after_verdict
handle_callback_query digest post secret window now cq =
    verify_callback_data digest secret cq.payload cq.chat window now
    >>= (λ v. ok (after_verdict post cq v))
