-- ===== src/Auth/SigningIn.antt =====
-- Who can sign in.
use text.Mathlib.TextEquality.{eq_iff}
use mathlib.Core.Path.{subst}
use ddochi_backend.Prelude.{
  ◌≡◌, refl, sym, ap, ◌∙◌, ℕ, String, false, Option, none, some, List, [], ◌∷◌, not, ◌&&◌, inl, inr,
  Bool-cases, arith,
}
use ddochi_backend.Prelude.Text.{str_eq, is_empty, strip, text_or_empty}
use ddochi_backend.Prelude.Case.{lower}
use ddochi_backend.Pairing.Bearer.{compare_digest}
use ddochi_backend.Auth.Tokens.{Jwt, Settings, Tokens, sign}
use ddochi_backend.Auth.Login.{
  Member, Store, find_live, find_user_by_sabun, SessionUser, build_session_user, logged_in, Passkey,
  right, wrong, error, check_hash, verify_passkey, LoginRequest, session_of, after_passkey, login,
}

find_live-holds :
    (k : String) (ms : List Member) (m : Member)
    → find_live k ms ≡ some m
    → (m.sabun ≡ k) × (m.deleted ≡ false)
unfolding find_live
find_live-holds k [] m h = cc
find_live-holds k (n ∷ ms) m h = elim (Bool-cases (str_eq n.sabun k && not n.deleted)) [
  | inl e ↦
      let same : n ≡ m = ground arith in
      subst (λ x. (x.sabun ≡ k) × (x.deleted ≡ false)) same
        (ground (arith, eq_iff n.sabun k), ground arith)
  | inr e ↦ find_live-holds k ms m (rw e at h)
]

find_user-holds :
    (k : String) (s : Store) (m : Member)
    → find_user_by_sabun k s ≡ some m
    → (m.sabun ≡ k) × (m.deleted ≡ false)
unfolding find_user_by_sabun
find_user-holds k s m h = find_live-holds k s.members m (ground arith)

check_hash-right :
    (supplied : String) (o : Option String)
    → check_hash supplied o ≡ right
    → (h : String) × (o ≡ some h) × (is_empty h ≡ false) × (supplied ≡ lower h)
unfolding check_hash compare_digest
check_hash-right supplied none e = cc
check_hash-right supplied (some h) e =
    (h, refl, ground arith, ground (arith, eq_iff supplied (lower h)))

-- Who is signed in, and by which passkey
pub record SignedIn (sha256 : String → String) (j : Jwt) (st : Settings) (now : ℕ)
    (r : LoginRequest) (s : Store) (u : SessionUser) (t : Tokens) : Type 0 where
  pub member : Member
  pub stored : String
  pub of_sabun : member.sabun ≡ strip (text_or_empty r.sabun)
  pub live : member.deleted ≡ false
  pub configured : s.passkey_hash ≡ some stored
  pub matches : sha256 (text_or_empty r.passkey) ≡ lower stored
  pub session : u ≡ build_session_user member
  pub tokens : t ≡ sign j st now false u.as_user

session_of-logged_in :
    (j : Jwt) (st : Settings) (now : ℕ) (o : Option Member) (u : SessionUser) (t : Tokens)
    → session_of j st now o ≡ logged_in u t
    → (m : Member) × (o ≡ some m) × (u ≡ build_session_user m) × (t ≡ sign j st now false u.as_user)
unfolding session_of
session_of-logged_in j st now none u t h = cc
session_of-logged_in j st now (some m) u t h =
    let same : build_session_user m ≡ u = cc in
    let signed : sign j st now false (build_session_user m).as_user ≡ t = cc in
    (m, refl, sym same, sym signed ∙ ap (λ x. sign j st now false x.as_user) same)

after_passkey-logged_in :
    (j : Jwt) (st : Settings) (now : ℕ) (k : String) (s : Store) (w : Passkey) (u : SessionUser)
    (t : Tokens)
    → after_passkey j st now k s w ≡ logged_in u t
    → (w ≡ right) × (session_of j st now (find_user_by_sabun k s) ≡ logged_in u t)
unfolding after_passkey
after_passkey-logged_in j st now k s error u t h = cc
after_passkey-logged_in j st now k s (wrong e) u t h = cc
after_passkey-logged_in j st now k s right u t h = (refl, h)

-- A sign-in succeeds only with the passkey whose digest is configured, for a member who is not
-- deleted; the answer is that member's session, with two tokens signed for it.
pub login_sound :
    (j : Jwt) (st : Settings) (sha256 : String → String) (now : ℕ) (r : LoginRequest) (s : Store)
    (u : SessionUser) (t : Tokens)
    → login j st sha256 now r s ≡ logged_in u t
    → SignedIn sha256 j st now r s u t
unfolding login verify_passkey
login_sound j st sha256 now r s u t h =
    let k = strip (text_or_empty r.sabun) in
    let passed : after_passkey j st now k s (verify_passkey sha256 r.passkey s) ≡ logged_in u t =
      ground arith in
    let (accepted, session) =
      after_passkey-logged_in j st now k s (verify_passkey sha256 r.passkey s) u t passed in
    let checked : check_hash (sha256 (text_or_empty r.passkey)) s.passkey_hash ≡ right =
      ground arith in
    let (stored_, configured_, _, equal) =
      check_hash-right (sha256 (text_or_empty r.passkey)) s.passkey_hash checked in
    let (m, found, made, signed) =
      session_of-logged_in j st now (find_user_by_sabun k s) u t session in
    let (mine, kept) = find_user-holds k s m found in
    record {
      member = m;
      stored = stored_;
      of_sabun = mine;
      live = kept;
      configured = configured_;
      matches = equal;
      session = made;
      tokens = signed;
    }
