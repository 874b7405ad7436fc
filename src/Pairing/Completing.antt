-- ===== src/Pairing/Completing.antt =====
-- When a code connects a chat, and what becomes of the code.
use text.Mathlib.TextEquality.{eq_iff}
use mathlib.Core.Path.{subst}
use ddochi_backend.Prelude.{
  ◌≡◌, refl, sym, ap, ◌∙◌, ℕ, ◌≤◌, String, Bool, true, false, Option, none, some, ◌||◌, inl, inr,
  Bool-cases, Option-cases, arith,
}
use ddochi_backend.Prelude.Text.{is_empty}
use ddochi_backend.Prelude.Outcome.{Outcome, ok, raise}
use ddochi_backend.Pairing.Channels.{ChannelDef, channel_def}
use ddochi_backend.Pairing.Bearer.{check_internal_auth, bearer_of, compare_digest}
use ddochi_backend.Pairing.Rows.{Pairing, Store, find_pairing, update_pairing, is_expired}
use ddochi_backend.Pairing.Complete.{
  Service, CompleteRequest, CompleteReply, warned, connected, request_code, request_chat,
  request_title, complete_row, connect, write_completion, Verdict, missing, used, late, go_on,
  verdict_of_row, read_row, after_verdict, complete_authorized, telegram_pair_complete,
}

-- The code was accepted.
abbrev pub is_completed : CompleteReply → Bool
is_completed (connected c) = true
is_completed (warned t c) = true
is_completed _ = false

check_internal_auth_sound :
    (token header : String)
    → check_internal_auth token header ≡ ok true
    → (is_empty token ≡ false) × (bearer_of header ≡ token)
unfolding check_internal_auth compare_digest
check_internal_auth_sound token header h =
    (ground arith, ground (arith, eq_iff (bearer_of header) token))

verdict_sound :
    (now : ℕ) (o : Option Pairing) (p : Pairing)
    → verdict_of_row now o ≡ go_on p
    → (o ≡ some p) × (p.completed_at ≡ none) × (now ≤ p.expires_at)
unfolding verdict_of_row is_expired
verdict_sound now none p h = cc
verdict_sound now (some q) p h = elim (Option-cases q.completed_at) [
  | inl e ↦
      let same : q ≡ p = ground arith in
      (ap some same, ap (λ x. x.completed_at) (sym same) ∙ e, ground arith)
  | inr (d, e) ↦ absurd (ground arith)
]

read_row_sound :
    (now : ℕ) (k : String) (s : Store) (p : Pairing)
    → read_row now k s s ≡ go_on p
    → (find_pairing k s.pairings ≡ some p) × (p.completed_at ≡ none) × (now ≤ p.expires_at)
unfolding read_row verdict_of_row
read_row_sound now k s p h = elim (Option-cases (find_pairing k s.pairings)) [
  | inl e ↦ absurd (ground arith)
  | inr (q, e) ↦
      let read : verdict_of_row now (some q) ≡ go_on p = ground arith in
      let (same, unused, fresh) = verdict_sound now (some q) p read in (e ∙ same, unused, fresh)
]

pub connect_completes :
    (v : Service) (p : Pairing) (chat : String) (title : Option String) (s : Store)
    (o : Option ChannelDef)
    → (is_completed (connect v p chat title s o).0 ≡ true)
      × ((connect v p chat title s o).1.pairings ≡ s.pairings)
unfolding connect
connect_completes v p chat title s none = (refl, refl)
connect_completes v p chat title s (some d) = (refl, refl)

-- What an accepted code shows
pub record Accepted (v : Service) (now : ℕ) (r : CompleteRequest) (s : Store) : Type 0 where
  pub row : Pairing
  pub by_post : r.is_post ≡ true
  pub by_token : bearer_of r.authorization ≡ v.token
  pub token_set : is_empty v.token ≡ false
  pub found : find_pairing (request_code r) s.pairings ≡ some row
  pub unused : row.completed_at ≡ none
  pub in_time : now ≤ row.expires_at
  pub written :
      (telegram_pair_complete v now r s).1.pairings
      ≡ update_pairing
          (request_code r)
          (complete_row now (request_chat r) (request_title r))
          s.pairings

accepted_by_verdict :
    (v : Service) (now : ℕ) (k chat : String) (title : Option String) (s : Store) (w : Verdict)
    → is_completed (after_verdict v now k chat title s w).0 ≡ true
    → (p : Pairing) × (w ≡ go_on p)
      × ((after_verdict v now k chat title s w).1.pairings
          ≡ update_pairing k (complete_row now chat title) s.pairings)
unfolding after_verdict write_completion
accepted_by_verdict v now k chat title s missing h = cc
accepted_by_verdict v now k chat title s used h = cc
accepted_by_verdict v now k chat title s late h = cc
accepted_by_verdict v now k chat title s (go_on p) h =
    (p, refl, (connect_completes v p chat title _ (channel_def p.channel_type)).1)

accepted_authorized :
    (v : Service) (now : ℕ) (r : CompleteRequest) (s : Store) (o : Outcome Bool)
    → is_completed (complete_authorized v now r s o).0 ≡ true
    → (o ≡ ok true)
      × (p : Pairing) × (read_row now (request_code r) s s ≡ go_on p)
      × ((complete_authorized v now r s o).1.pairings
          ≡ update_pairing
              (request_code r)
              (complete_row now (request_chat r) (request_title r))
              s.pairings)
unfolding complete_authorized
accepted_authorized v now r s (raise e) h = cc
accepted_authorized v now r s (ok false) h = cc
accepted_authorized v now r s (ok true) h =
    elim (Bool-cases (is_empty (request_code r) || is_empty (request_chat r))) [
      | inl none_given ↦ absurd (ground arith)
      | inr given ↦
          let later =
            accepted_by_verdict v now (request_code r) (request_chat r) (request_title r) s
              (read_row now (request_code r) s s) (rw (complete_authorized, given) at h) in
          (refl, later.0, later.1, rw given later.2)
    ]

pub complete_by_post :
    (v : Service) (now : ℕ) (r : CompleteRequest) (s : Store)
    → r.is_post ≡ true
    → telegram_pair_complete v now r s
      ≡ complete_authorized v now r s (check_internal_auth v.token r.authorization)
unfolding telegram_pair_complete
complete_by_post v now r s post = ground arith

complete_by_other :
    (v : Service) (now : ℕ) (r : CompleteRequest) (s : Store)
    → r.is_post ≡ false
    → is_completed (telegram_pair_complete v now r s).0 ≡ false
unfolding telegram_pair_complete
complete_by_other v now r s other = ground arith

-- A code connects a chat only by POST with the bot router's token, for a row that is not used and
-- not past its time; the row is marked as used, for that chat, and no other row changes.
pub complete_sound :
    (v : Service) (now : ℕ) (r : CompleteRequest) (s : Store)
    → is_completed (telegram_pair_complete v now r s).0 ≡ true
    → Accepted v now r s
complete_sound v now r s h = elim (Bool-cases r.is_post) [
  | inr other ↦ absurd (ground (arith, complete_by_other v now r s other))
  | inl post ↦
      let same = complete_by_post v now r s post in
      let (allowed, p, read, changed) =
        accepted_authorized v now r s (check_internal_auth v.token r.authorization)
          (subst (λ o. is_completed o.0 ≡ true) same h) in
      let (set, token) = check_internal_auth_sound v.token r.authorization allowed in
      let (there, unused, fresh) = read_row_sound now (request_code r) s p read in
      record {
        row = p;
        by_post = post;
        by_token = token;
        token_set = set;
        found = there;
        unused = unused;
        in_time = fresh;
        written = ap (λ o. o.1.pairings) same ∙ changed;
      }
]

refused_by_verdict :
    (v : Service) (now : ℕ) (k chat : String) (title : Option String) (s : Store) (w : Verdict)
    → is_completed (after_verdict v now k chat title s w).0 ≡ false
    → (after_verdict v now k chat title s w).1 ≡ s
unfolding after_verdict write_completion
refused_by_verdict v now k chat title s missing h = refl
refused_by_verdict v now k chat title s used h = refl
refused_by_verdict v now k chat title s late h = refl
refused_by_verdict v now k chat title s (go_on p) h = ground (
  arith,
  connect_completes v p chat title
      (record s { pairings = update_pairing k (complete_row now chat title) s.pairings })
      (channel_def p.channel_type),
)

refused_authorized :
    (v : Service) (now : ℕ) (r : CompleteRequest) (s : Store) (o : Outcome Bool)
    → is_completed (complete_authorized v now r s o).0 ≡ false
    → (complete_authorized v now r s o).1 ≡ s
unfolding complete_authorized
refused_authorized v now r s (raise e) h = refl
refused_authorized v now r s (ok false) h = refl
refused_authorized v now r s (ok true) h = ground (
  arith,
  refused_by_verdict v now (request_code r) (request_chat r) (request_title r) s
      (read_row now (request_code r) s s),
)

-- A code that is not accepted changes nothing.
pub complete_refused :
    (v : Service) (now : ℕ) (r : CompleteRequest) (s : Store)
    → is_completed (telegram_pair_complete v now r s).0 ≡ false
    → (telegram_pair_complete v now r s).1 ≡ s
unfolding telegram_pair_complete
complete_refused v now r s h =
    ground (arith, refused_authorized v now r s (check_internal_auth v.token r.authorization))
