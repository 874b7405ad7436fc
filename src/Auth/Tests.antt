-- ===== src/Auth/Tests.antt =====
-- One member signs in with a stub of PyJWT, whose tokens are two fixed texts.
use Prim.Native.String
use ddochi_backend.Prelude.{
  ◌≡◌, refl, ℕ, ◌≤◌, ◌<◌, ◌*◌, ltb, String, Bool, true, false, Option, none, some, List, [], ◌∷◌,
  if◌then◌else◌, arith,
}
use ddochi_backend.Prelude.Text.{str_eq, is_empty, strip, text_or_empty}
use ddochi_backend.Auth.Tokens.{
  Claims, Decoded, claims, raised, Jwt, Settings, User, Tokens, access_payload, refresh_payload,
  sign, read_bearer, user, require_jwt, invalid_token,
}
use ddochi_backend.Auth.Login.{
  Member, Store, SessionUser, build_session_user, logged_in, unlocked, fail, LoginRequest, login,
  refresh, admin_unlock,
}
use ddochi_backend.Auth.SigningIn.{SignedIn, login_sound}
use ddochi_backend.Auth.Checks.{IsAccepted}
use ddochi_backend.Auth.Sessions.{login_opens, tokens_differ, admin_unlock_sound}

abbrev conf : Settings
conf = record {
  secret = "s";
  access_ttl = 900000;
  refresh_ttl = 2592000000;
  admin_password = "1440";
}

abbrev kim : Member
kim = record {
  sabun = "100";
  name = some "김";
  team_name = some "1";
  position = none;
  area_name = none;
  perms = "a" ∷ "b" ∷ "a" ∷ [];
  deleted = false;
}

abbrev kim_user : User
kim_user = record { sabun = "100"; name = some "김"; team = some "1"; position = none }

abbrev house : Store
house = record { members = kim ∷ []; passkey_hash = some "AB12" }

-- The claims of the two tokens that are signed at 5 s
abbrev access_claims : Claims
access_claims = record {
  sabun = "100";
  name = some "김";
  team = some "1";
  position = none;
  typ = "access";
  iat = 5;
  exp = 905;
  admin_unlocked = false;
}

abbrev refresh_claims : Claims
refresh_claims = record {
  sabun = "100";
  name = none;
  team = none;
  position = none;
  typ = "refresh";
  iat = 5;
  exp = 2592005;
  admin_unlocked = false;
}

abbrev decode_stub : ℕ → String → String → Decoded
decode_stub now token secret =
    if str_eq token "tok-access"
    then (if ltb now 905000 then claims access_claims else raised "ExpiredSignatureError")
    else if str_eq token "tok-refresh"
    then claims refresh_claims
    else raised "DecodeError"

abbrev pyjwt : Jwt
pyjwt = record { encode = λ secret c. String.◌++◌ "tok-" c.typ; decode = decode_stub }

abbrev digest_stub : String → String
digest_stub s = "ab12"

abbrev kim_login : LoginRequest
kim_login = record { is_post = true; sabun = some " 100"; passkey = some "open" }

abbrev kim_session : SessionUser
kim_session = record { as_user = kim_user; area = ""; permissions = "a" ∷ "b" ∷ [] }

abbrev kim_tokens : Tokens
kim_tokens = record { access_token = "tok-access"; refresh_token = "tok-refresh" }

kim_enters : login pyjwt conf digest_stub 5000 kim_login house ≡ logged_in kim_session kim_tokens
unfolding login strip ddochi_backend.Auth.Login.after_passkey
    ddochi_backend.Auth.Login.verify_passkey ddochi_backend.Auth.Login.check_hash
    ddochi_backend.Pairing.Bearer.compare_digest ddochi_backend.Prelude.Case.lower
    ddochi_backend.Auth.Login.session_of ddochi_backend.Auth.Login.find_user_by_sabun
    build_session_user sign ddochi_backend.Auth.Login.parse_perms access_payload refresh_payload
kim_enters = refl

login_sound_example : SignedIn digest_stub pyjwt conf 5000 kim_login house kim_session kim_tokens
login_sound_example =
    login_sound pyjwt conf digest_stub 5000 kim_login house kim_session kim_tokens kim_enters

gate_lets_in : require_jwt pyjwt conf 6000 "Bearer tok-access" ≡ user access_claims
unfolding require_jwt read_bearer strip ddochi_backend.Auth.Tokens.verify
gate_lets_in = refl

takes_access : IsAccepted pyjwt conf (access_payload conf 5000 false kim_user)
unfolding access_payload
takes_access later from_ until_ = ground arith

takes_refresh : IsAccepted pyjwt conf (refresh_payload conf 5000 kim_user)
unfolding refresh_payload
takes_refresh later from_ until_ = refl

sends_access : read_bearer "Bearer tok-access" ≡ "tok-access"
unfolding read_bearer strip
sends_access = refl

in_time : 6000 < (access_payload conf 5000 false kim_user).exp * 1000
unfolding access_payload
in_time = omega arith

login_opens_example :
    (require_jwt pyjwt conf 6000 "Bearer tok-access"
      ≡ user (access_payload conf 5000 false kim_user))
    × ("100" ≡ strip (text_or_empty kim_login.sabun))
login_opens_example =
    login_opens pyjwt conf digest_stub 5000 6000 kim_login house kim_session kim_tokens
      "Bearer tok-access" kim_enters takes_access sends_access refl (omega arith) in_time

sends_refresh :
    read_bearer "Bearer tok-refresh" ≡ (sign pyjwt conf 5000 false kim_user).refresh_token
unfolding read_bearer sign refresh_payload strip
sends_refresh = refl

refresh_given : is_empty (sign pyjwt conf 5000 false kim_user).refresh_token ≡ false
unfolding sign refresh_payload
refresh_given = refl

access_given : is_empty (sign pyjwt conf 5000 false kim_user).access_token ≡ false
unfolding sign access_payload
access_given = refl

in_time_to_refresh : 6000 < (refresh_payload conf 5000 kim_user).exp * 1000
unfolding refresh_payload
in_time_to_refresh = omega arith

tokens_differ_example :
    (require_jwt pyjwt conf 6000 "Bearer tok-refresh" ≡ invalid_token "WrongTokenTypeError")
    × (refresh pyjwt conf 6000 true (some (sign pyjwt conf 5000 false kim_user).access_token) house
        ≡ fail 401 "refresh_invalid")
tokens_differ_example =
    tokens_differ pyjwt conf 5000 6000 house kim_user false "Bearer tok-refresh" takes_access
      takes_refresh sends_refresh refresh_given access_given (omega arith) in_time
      in_time_to_refresh

unlocks : admin_unlock pyjwt conf 6000 true "Bearer tok-access" (some "1440") ≡ unlocked kim_tokens
unfolding admin_unlock require_jwt read_bearer strip ddochi_backend.Auth.Tokens.verify sign
    access_payload refresh_payload
unlocks = refl

admin_unlock_sound_example :
    (c : Claims) × (require_jwt pyjwt conf 6000 "Bearer tok-access" ≡ user c)
    × (text_or_empty (some "1440") ≡ "1440")
    × (kim_tokens
        ≡ sign pyjwt conf 6000 true
            (record { sabun = c.sabun; name = c.name; team = c.team; position = c.position }))
admin_unlock_sound_example =
    admin_unlock_sound pyjwt conf 6000 true "Bearer tok-access" (some "1440") kim_tokens unlocks
