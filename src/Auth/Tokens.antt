-- ===== src/Auth/Tokens.antt =====
-- `api/auth/jwt.py` and `require_jwt` of `api/auth/gate.py`. PyJWT is the parameter `Jwt`: its
-- `encode`, and its `decode` at a time, which returns the claims or raises. Times are
-- milliseconds; the claims have whole seconds, rounded down.
use ddochi_backend.Prelude.{ℕ, ◌+◌, ◌/◌, String, Bool, false, Option, none, if◌then◌else◌}
use ddochi_backend.Prelude.Text.{str_eq, is_empty, strip}
use ddochi_backend.Pairing.Bearer.{drop_prefix}

pub record Claims : Type 0 where
  pub sabun : String
  pub name : Option String
  pub team : Option String
  pub position : Option String
  pub typ : String
  pub iat : ℕ
  pub exp : ℕ
  pub admin_unlocked : Bool

-- What `decode` does: the claims, or the name of the exception's class
pub data Decoded : Type 0 where
  claims : Claims → Decoded
  raised : String → Decoded

pub record Jwt : Type 0 where
  pub encode : (secret : String) → Claims → String
  pub decode : (now : ℕ) (token secret : String) → Decoded

-- JWT_SECRET, and the two TTLs that `_ttl_seconds` reads from the settings, in milliseconds
pub record Settings : Type 0 where
  pub secret : String
  pub access_ttl : ℕ
  pub refresh_ttl : ℕ
  pub admin_password : String

pub record User : Type 0 where
  pub sabun : String
  pub name : Option String
  pub team : Option String
  pub position : Option String

pub record Tokens : Type 0 where
  pub access_token : String
  pub refresh_token : String

unfoldable pub access_payload : Settings → ℕ → Bool → User → Claims
access_payload st now unlocked u = record {
  sabun = u.sabun;
  name = u.name;
  team = u.team;
  position = u.position;
  typ = "access";
  iat = now / 1000;
  exp = (now + st.access_ttl) / 1000;
  admin_unlocked = unlocked;
}

unfoldable pub refresh_payload : Settings → ℕ → User → Claims
refresh_payload st now u = record {
  sabun = u.sabun;
  name = none;
  team = none;
  position = none;
  typ = "refresh";
  iat = now / 1000;
  exp = (now + st.refresh_ttl) / 1000;
  admin_unlocked = false;
}

-- `sign`, with `extra_claims={'adminUnlocked': True}` or none
unfoldable pub sign : Jwt → Settings → ℕ → Bool → User → Tokens
sign j st now unlocked u = record {
  access_token = j.encode st.secret (access_payload st now unlocked u);
  refresh_token = j.encode st.secret (refresh_payload st now u);
}

abbrev pub check_typ : String → Decoded → Decoded
check_typ expected (raised e) = raised e
check_typ expected (claims c) =
    if str_eq c.typ expected then claims c else raised "WrongTokenTypeError"

-- `verify`
unfoldable pub verify : Jwt → Settings → ℕ → (token expected : String) → Decoded
verify j st now token expected = check_typ expected (j.decode now token st.secret)

-- `_read_bearer`: the token, or the empty text where the header does not start with "Bearer "
unfoldable pub read_bearer : String → String
unfolding drop_prefix
read_bearer auth =
    let rest = drop_prefix auth "Bearer " auth in if str_eq rest auth then "" else strip rest

-- What `require_jwt` does: it denies with a code, or runs the view for a user.
pub data Gate : Type 0 where
  missing_token : Gate
  invalid_token : String → Gate
  user : Claims → Gate

abbrev pub gate_of : Decoded → Gate
gate_of (raised e) = invalid_token e
gate_of (claims c) = user c

unfoldable pub require_jwt : Jwt → Settings → ℕ → (auth : String) → Gate
require_jwt j st now auth =
    if is_empty (read_bearer auth)
    then missing_token
    else gate_of (verify j st now (read_bearer auth) "access")
