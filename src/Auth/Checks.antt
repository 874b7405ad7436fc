-- ===== src/Auth/Checks.antt =====
-- The checks of tokens: the gate, and the types that `verify` tells apart.
use text.Mathlib.TextEquality.{eq_iff}
use ddochi_backend.Prelude.{
  ◌≡◌, refl, sym, ap, ◌∙◌, ℕ, ◌*◌, ◌≤◌, ◌<◌, String, Bool, true, false, arith,
}
use ddochi_backend.Prelude.Text.{str_eq, is_empty}
use ddochi_backend.Auth.Tokens.{
  Claims, Decoded, claims, raised, Jwt, Settings, User, access_payload, refresh_payload, sign,
  verify, check_typ, read_bearer, user, gate_of, require_jwt,
}
use ddochi_backend.Auth.Login.{Member, build_session_user}

check_typ-claims :
    (expected : String) (d : Decoded) (c : Claims)
    → check_typ expected d ≡ claims c
    → (d ≡ claims c) × (c.typ ≡ expected)
check_typ-claims expected (raised e) c h = cc
check_typ-claims expected (claims b) c h =
    let same : b ≡ c = ground arith in
    let typ_ : b.typ ≡ expected = ground (arith, eq_iff b.typ expected) in
    (ap claims same, ap (λ x. x.typ) (sym same) ∙ typ_)

gate_of-user : (d : Decoded) (c : Claims) → gate_of d ≡ user c → d ≡ claims c
gate_of-user (raised e) c h = cc
gate_of-user (claims b) c h = cc

-- The view behind the gate runs only for the claims of a token of the type access that decodes
-- under the secret.
pub require_jwt_sound :
    (j : Jwt) (st : Settings) (now : ℕ) (auth : String) (c : Claims)
    → require_jwt j st now auth ≡ user c
    → (j.decode now (read_bearer auth) st.secret ≡ claims c) × (c.typ ≡ "access")
unfolding require_jwt verify
require_jwt_sound j st now auth c h =
    let checked : verify j st now (read_bearer auth) "access" ≡ claims c =
      gate_of-user (verify j st now (read_bearer auth) "access") c (ground arith) in
    check_typ-claims "access" (j.decode now (read_bearer auth) st.secret) c checked

-- Decoding returns what was encoded, from its time on and until it expires.
abbrev pub IsAccepted : Jwt → Settings → Claims → Type 0
IsAccepted j st c =
    (later : ℕ)
    → c.iat * 1000 ≤ later
    → later < c.exp * 1000
    → j.decode later (j.encode st.secret c) st.secret ≡ claims c

pub gate_at :
    (j : Jwt) (st : Settings) (now : ℕ) (auth token : String)
    → read_bearer auth ≡ token
    → is_empty token ≡ false
    → require_jwt j st now auth ≡ gate_of (verify j st now token "access")
unfolding require_jwt
gate_at j st now auth token sent given = rw (sent, given)

pub verify-claims :
    (j : Jwt) (st : Settings) (now : ℕ) (token expected : String) (c : Claims)
    → j.decode now token st.secret ≡ claims c
    → str_eq c.typ expected ≡ true
    → verify j st now token expected ≡ claims c
unfolding verify
verify-claims j st now token expected c decoded typ_ = rw (decoded, typ_)

pub verify-raised :
    (j : Jwt) (st : Settings) (now : ℕ) (token expected : String) (c : Claims)
    → j.decode now token st.secret ≡ claims c
    → str_eq c.typ expected ≡ false
    → verify j st now token expected ≡ raised "WrongTokenTypeError"
unfolding verify
verify-raised j st now token expected c decoded typ_ = rw (decoded, typ_)

pub access_iat :
    (st : Settings) (now : ℕ) (unlocked_ : Bool) (u : User)
    → (access_payload st now unlocked_ u).iat * 1000 ≤ now
unfolding access_payload
access_iat st now unlocked_ u = omega arith

pub refresh_iat : (st : Settings) (now : ℕ) (u : User) → (refresh_payload st now u).iat * 1000 ≤ now
unfolding refresh_payload
refresh_iat st now u = omega arith

pub access_typ :
    (st : Settings) (now : ℕ) (unlocked_ : Bool) (u : User)
    → str_eq (access_payload st now unlocked_ u).typ "access" ≡ true
unfolding access_payload
access_typ st now unlocked_ u = refl

pub access_not_refresh :
    (st : Settings) (now : ℕ) (unlocked_ : Bool) (u : User)
    → str_eq (access_payload st now unlocked_ u).typ "refresh" ≡ false
unfolding access_payload
access_not_refresh st now unlocked_ u = refl

pub refresh_not_access :
    (st : Settings) (now : ℕ) (u : User) → str_eq (refresh_payload st now u).typ "access" ≡ false
unfolding refresh_payload
refresh_not_access st now u = refl

pub sign-access :
    (j : Jwt) (st : Settings) (now : ℕ) (unlocked_ : Bool) (u : User)
    → (sign j st now unlocked_ u).access_token
      ≡ j.encode st.secret (access_payload st now unlocked_ u)
unfolding sign
sign-access j st now unlocked_ u = refl

pub sign-refresh :
    (j : Jwt) (st : Settings) (now : ℕ) (unlocked_ : Bool) (u : User)
    → (sign j st now unlocked_ u).refresh_token ≡ j.encode st.secret (refresh_payload st now u)
unfolding sign
sign-refresh j st now unlocked_ u = refl

pub session_sabun : (m : Member) → (build_session_user m).as_user.sabun ≡ m.sabun
unfolding build_session_user
session_sabun m = refl
