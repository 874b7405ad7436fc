-- ===== src/Auth/Login.antt =====
-- `api/views/auth.py` and `verify` of `api/auth/passkey.py`. `sha256` is the hexadecimal digest of
-- a text. The reply's list of valid names is left out.
use ddochi_backend.Prelude.{
  ℕ, String, Bool, true, false, Option, none, some, List, [], ◌∷◌, not, ◌&&◌, if◌then◌else◌,
}
use ddochi_backend.Prelude.Text.{str_eq, is_empty, strip, text_or_empty}
use ddochi_backend.Prelude.Case.{lower}
use ddochi_backend.Prelude.Outcome.{Outcome, ok, raise}
use ddochi_backend.Pairing.Bearer.{compare_digest}
use ddochi_backend.Auth.Tokens.{
  Decoded, claims, raised, Jwt, Settings, User, Tokens, sign, verify, Gate, user, require_jwt,
  missing_token, invalid_token,
}

-- A row of the query of `find_user_by_sabun`, with the permissions that it collects
pub record Member : Type 0 where
  pub sabun : String
  pub name : Option String
  pub team_name : Option String
  pub position : Option String
  pub area_name : Option String
  pub perms : List String
  pub deleted : Bool

pub record Store : Type 0 where
  pub members : List Member
  pub passkey_hash : Option String

unfoldable pub find_live : String → List Member → Option Member
find_live k [] = none
find_live k (m ∷ ms) = if str_eq m.sabun k && not m.deleted then some m else find_live k ms

unfoldable pub find_user_by_sabun : String → Store → Option Member
unfolding find_live
find_user_by_sabun k s = if is_empty k then none else find_live k s.members

-- `list(dict.fromkeys(arr))`: the first of equal texts stays.
unfoldable pub without : String → List String → List String
without a [] = []
without a (b ∷ bs) = let rest = without a bs in if str_eq a b then rest else b ∷ rest

unfoldable pub parse_perms : List String → List String
unfolding without
parse_perms [] = []
parse_perms (a ∷ as_) = a ∷ without a (parse_perms as_)

pub record SessionUser : Type 0 where
  pub as_user : User
  pub area : String
  pub permissions : List String

unfoldable pub build_session_user : Member → SessionUser
build_session_user m = record {
  as_user = record { sabun = m.sabun; name = m.name; team = m.team_name; position = m.position };
  area = text_or_empty m.area_name;
  permissions = parse_perms m.perms;
}

pub data AuthReply : Type 0 where
  fail : ℕ → String → AuthReply
  logged_in : SessionUser → Tokens → AuthReply
  unlocked : Tokens → AuthReply

-- `passkey.verify`: whether the passkey is right, or the reason
pub data Passkey : Type 0 where
  right : Passkey
  wrong : String → Passkey
  error : Passkey

abbrev pub passkey_of : Outcome Bool → Passkey
passkey_of (raise e) = error
passkey_of (ok b) = if b then right else wrong "mismatch"

unfoldable pub check_hash : String → Option String → Passkey
check_hash supplied none = wrong "unconfigured"
check_hash supplied (some h) =
    if is_empty h then wrong "unconfigured" else passkey_of (compare_digest supplied (lower h))

unfoldable pub verify_passkey : (sha256 : String → String) → Option String → Store → Passkey
verify_passkey sha256 passkey s =
    if is_empty (text_or_empty passkey)
    then wrong "empty"
    else check_hash (sha256 (text_or_empty passkey)) s.passkey_hash

pub record LoginRequest : Type 0 where
  pub is_post : Bool
  pub sabun : Option String
  pub passkey : Option String

unfoldable pub session_of : Jwt → Settings → ℕ → Option Member → AuthReply
session_of j st now none = fail 404 "user_not_found"
session_of j st now (some m) =
    logged_in (build_session_user m) (sign j st now false (build_session_user m).as_user)

unfoldable pub after_passkey : Jwt → Settings → ℕ → String → Store → Passkey → AuthReply
after_passkey j st now k s error = fail 500 "TypeError"
after_passkey j st now k s (wrong reason) = fail 401 reason
after_passkey j st now k s right = session_of j st now (find_user_by_sabun k s)

unfoldable pub login :
    Jwt → Settings → (sha256 : String → String) → ℕ → LoginRequest → Store → AuthReply
login j st sha256 now r s =
    if not r.is_post
    then fail 405 "method_not_allowed"
    else if is_empty (strip (text_or_empty r.sabun))
    then fail 400 "sabun_required"
    else after_passkey j st now (strip (text_or_empty r.sabun)) s
        (verify_passkey sha256 r.passkey s)

unfoldable pub after_verify : Jwt → Settings → ℕ → Store → Decoded → AuthReply
after_verify j st now s (raised e) = fail 401 "refresh_invalid"
after_verify j st now s (claims c) = session_of j st now (find_user_by_sabun c.sabun s)

unfoldable pub refresh :
    Jwt → Settings → ℕ → Bool → (refresh_token : Option String) → Store → AuthReply
refresh j st now is_post token s =
    if not is_post
    then fail 405 "method_not_allowed"
    else if is_empty (text_or_empty token)
    then fail 400 "refresh_token_required"
    else after_verify j st now s (verify j st now (text_or_empty token) "refresh")

abbrev pub unlock_for : Jwt → Settings → ℕ → Bool → Option String → Gate → AuthReply
unlock_for j st now is_post password missing_token = fail 401 "missing_token"
unlock_for j st now is_post password (invalid_token e) = fail 401 "invalid_token"
unlock_for j st now is_post password (user c) =
    if not is_post
    then fail 405 "method_not_allowed"
    else if not (str_eq (text_or_empty password) st.admin_password)
    then fail 401 "비밀번호가 틀렸어!"
    else unlocked (
        sign j st now true
          (record { sabun = c.sabun; name = c.name; team = c.team; position = c.position }))

-- `admin_unlock` behind `require_jwt`
unfoldable pub admin_unlock :
    Jwt → Settings → ℕ → Bool → (auth : String) → (password : Option String) → AuthReply
admin_unlock j st now is_post auth password =
    unlock_for j st now is_post password (require_jwt j st now auth)
