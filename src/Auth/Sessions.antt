-- ===== src/Auth/Sessions.antt =====
-- What the two tokens of a sign-in are good for, and for how long.
use text.Mathlib.TextEquality.{eq_iff}
use ddochi_backend.Prelude.{
  ◌≡◌, refl, ap, ◌∙◌, ℕ, ◌*◌, ◌≤◌, ◌<◌, String, Bool, true, false, Option, some, arith,
}
use ddochi_backend.Prelude.Text.{is_empty, strip, text_or_empty}
use ddochi_backend.Auth.Tokens.{
  Claims, claims, raised, Jwt, Settings, User, Tokens, access_payload, refresh_payload, sign,
  verify, read_bearer, Gate, user, gate_of, require_jwt, missing_token, invalid_token,
}
use ddochi_backend.Auth.Login.{
  Store, SessionUser, fail, logged_in, unlocked, LoginRequest, login, after_verify, refresh,
  unlock_for, admin_unlock,
}
use ddochi_backend.Auth.SigningIn.{login_sound}
use ddochi_backend.Auth.Checks.{
  IsAccepted, gate_at, verify-claims, verify-raised, access_iat, refresh_iat, access_typ,
  access_not_refresh, refresh_not_access, sign-access, sign-refresh, session_sabun,
}

-- Until it expires, the access token of a sign-in opens the gate, for the member who signed in.
pub login_opens :
    (j : Jwt) (st : Settings) (sha256 : String → String) (now later : ℕ) (r : LoginRequest)
    (s : Store) (u : SessionUser) (t : Tokens) (auth : String)
    → login j st sha256 now r s ≡ logged_in u t
    → IsAccepted j st (access_payload st now false u.as_user)
    → read_bearer auth ≡ t.access_token
    → is_empty t.access_token ≡ false
    → now ≤ later
    → later < (access_payload st now false u.as_user).exp * 1000
    → (require_jwt j st later auth ≡ user (access_payload st now false u.as_user))
      × (u.as_user.sabun ≡ strip (text_or_empty r.sabun))
login_opens j st sha256 now later r s u t auth h accepts sent given since until_ =
    let signed = login_sound j st sha256 now r s u t h in
    let issued = access_iat st now false u.as_user in
    let encoded : t.access_token ≡ j.encode st.secret (access_payload st now false u.as_user) =
      ap (λ x. x.access_token) signed.tokens ∙ sign-access j st now false u.as_user in
    let decoded : verify j st later t.access_token "access"
        ≡ claims (access_payload st now false u.as_user) =
      rw encoded (
        verify-claims j st later _ "access" (access_payload st now false u.as_user)
          (accepts later (omega arith) until_) (access_typ st now false u.as_user)) in
    (
      gate_at j st later auth t.access_token sent given ∙ ap gate_of decoded,
      ap (λ x. x.as_user.sabun) signed.session ∙ session_sabun signed.member ∙ signed.of_sabun,
    )

-- The two tokens of a sign-in do not stand for each other: the refresh token does not open the
-- gate, and the access token gets no new session.
pub tokens_differ :
    (j : Jwt) (st : Settings) (now later : ℕ) (s : Store) (u : User) (unlocked_ : Bool)
    (auth : String)
    → IsAccepted j st (access_payload st now unlocked_ u)
    → IsAccepted j st (refresh_payload st now u)
    → read_bearer auth ≡ (sign j st now unlocked_ u).refresh_token
    → is_empty (sign j st now unlocked_ u).refresh_token ≡ false
    → is_empty (sign j st now unlocked_ u).access_token ≡ false
    → now ≤ later
    → later < (access_payload st now unlocked_ u).exp * 1000
    → later < (refresh_payload st now u).exp * 1000
    → (require_jwt j st later auth ≡ invalid_token "WrongTokenTypeError")
      × (refresh j st later true (some (sign j st now unlocked_ u).access_token) s
          ≡ fail 401 "refresh_invalid")
unfolding refresh after_verify
tokens_differ j st now later s u unlocked_ auth a b sent given given' since in_a in_b =
    let issued_a = access_iat st now unlocked_ u in
    let issued_b = refresh_iat st now u in
    let refused_b : verify j st later (sign j st now unlocked_ u).refresh_token "access"
        ≡ raised "WrongTokenTypeError" =
      rw (sign-refresh j st now unlocked_ u) (
        verify-raised j st later _ "access" (refresh_payload st now u) (b later (omega arith) in_b)
          (refresh_not_access st now u)) in
    let refused_a : verify j st later (sign j st now unlocked_ u).access_token "refresh"
        ≡ raised "WrongTokenTypeError" =
      rw (sign-access j st now unlocked_ u) (
        verify-raised j st later _ "refresh" (access_payload st now unlocked_ u)
          (a later (omega arith) in_a) (access_not_refresh st now unlocked_ u)) in
    (
      gate_at j st later auth (sign j st now unlocked_ u).refresh_token sent given
          ∙ ap gate_of refused_b,
      rw (given', refused_a),
    )

unlock_for-unlocked :
    (j : Jwt) (st : Settings) (now : ℕ) (is_post : Bool) (password : Option String) (g : Gate)
    (t : Tokens)
    → unlock_for j st now is_post password g ≡ unlocked t
    → (c : Claims) × (g ≡ user c)
      × (text_or_empty password ≡ st.admin_password)
      × (t
          ≡ sign j st now true
              (record { sabun = c.sabun; name = c.name; team = c.team; position = c.position }))
unlock_for-unlocked j st now is_post password missing_token t h = cc
unlock_for-unlocked j st now is_post password (invalid_token e) t h = cc
unlock_for-unlocked j st now is_post password (user c) t h =
    (c, refl, ground (arith, eq_iff (text_or_empty password) st.admin_password), ground arith)

-- The rights of an administrator are given only behind the gate, for the right password, and the
-- new tokens are those of the user whom the gate let in.
pub admin_unlock_sound :
    (j : Jwt) (st : Settings) (now : ℕ) (is_post : Bool) (auth : String) (password : Option String)
    (t : Tokens)
    → admin_unlock j st now is_post auth password ≡ unlocked t
    → (c : Claims) × (require_jwt j st now auth ≡ user c)
      × (text_or_empty password ≡ st.admin_password)
      × (t
          ≡ sign j st now true
              (record { sabun = c.sabun; name = c.name; team = c.team; position = c.position }))
unfolding admin_unlock
admin_unlock_sound j st now is_post auth password t h =
    unlock_for-unlocked j st now is_post password (require_jwt j st now auth) t h
