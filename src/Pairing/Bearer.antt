-- ===== src/Pairing/Bearer.antt =====
-- `check_internal_auth` of `api/telegram/internal_auth.py`: the Bearer token of the bot router.
use Prim.Native.Char.{code}
use ddochi_backend.Prelude.{String, Bool, true, false, not, ◌&&◌, ltb, ◌==◌, if◌then◌else◌}
use ddochi_backend.Prelude.Outcome.{Outcome, ok, raise, type_error}
use ddochi_backend.Prelude.Text.{str_eq, is_empty, string_length}

-- `s[len(p):]` where `s.startswith(p)`, else `s`
unfoldable pub drop_prefix : (whole prefix s : String) → String
drop_prefix whole String.[] s = s
drop_prefix whole (String.◌∷◌ c p) String.[] = whole
drop_prefix whole (String.◌∷◌ c p) (String.◌∷◌ d s) =
    let rest = drop_prefix whole p s in if code c == code d then rest else whole

unfoldable pub is_ascii : String → Bool
is_ascii String.[] = true
is_ascii (String.◌∷◌ c s) = ltb (code c) 128 && is_ascii s

-- `hmac.compare_digest` on two texts: TypeError unless both are ASCII
unfoldable pub compare_digest : String → String → Outcome Bool
unfolding is_ascii
compare_digest a b = if is_ascii a && is_ascii b then ok (str_eq a b) else raise type_error

-- The token of the header, without the word Bearer
unfoldable pub bearer_of : String → String
unfolding drop_prefix
bearer_of header = drop_prefix header "Bearer " header

unfoldable pub check_internal_auth : (token header : String) → Outcome Bool
unfolding bearer_of string_length compare_digest
check_internal_auth token header =
    if is_empty token
    then ok false
    else if not (string_length (bearer_of header) == string_length token)
    then ok false
    else compare_digest (bearer_of header) token
