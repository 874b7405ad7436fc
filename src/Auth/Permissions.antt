-- ===== src/Auth/Permissions.antt =====
-- The permissions of a session: `parse_perms`.
use text.Mathlib.TextEquality.{eq_iff}
use ddochi_backend.Prelude.{◌≡◌, refl, String, Bool, true, List, [], ◌∷◌, not, ◌&&◌, arith}
use ddochi_backend.Prelude.Text.{str_eq, is_in}
use ddochi_backend.Auth.Login.{Member, without, parse_perms, build_session_user}

without-is_in :
    (x a : String) (bs : List String) → is_in x (without a bs) ≡ not (str_eq x a) && is_in x bs
unfolding without
without-is_in x a [] = ground arith
without-is_in x a (b ∷ bs) =
    ground (arith, eq_iff a b, eq_iff x b, eq_iff x a, without-is_in x a bs)

parse_perms-is_in : (x : String) (ps : List String) → is_in x (parse_perms ps) ≡ is_in x ps
unfolding parse_perms
parse_perms-is_in x [] = refl
parse_perms-is_in x (a ∷ ps) =
    ground (arith, without-is_in x a (parse_perms ps), parse_perms-is_in x ps)

abbrev pub distinct : List String → Bool
distinct [] = true
distinct (a ∷ as_) = not (is_in a as_) && distinct as_

without-distinct :
    (a : String) (bs : List String) → distinct bs ≡ true → distinct (without a bs) ≡ true
unfolding without
without-distinct a [] h = refl
without-distinct a (b ∷ bs) h = ground (arith, without-is_in b a bs, without-distinct a bs)

parse_perms-distinct : (ps : List String) → distinct (parse_perms ps) ≡ true
unfolding parse_perms
parse_perms-distinct [] = refl
parse_perms-distinct (a ∷ ps) = ground (
  arith,
  eq_iff a a,
  without-is_in a a (parse_perms ps),
  parse_perms-distinct ps,
  without-distinct a (parse_perms ps) (parse_perms-distinct ps),
)

-- The permissions of a session have no repetition, and are exactly those of the member's
-- positions.
pub permissions_exact :
    (m : Member) (x : String)
    → (distinct (build_session_user m).permissions ≡ true)
      × (is_in x (build_session_user m).permissions ≡ is_in x m.perms)
unfolding build_session_user
permissions_exact m x = (parse_perms-distinct m.perms, parse_perms-is_in x m.perms)
