-- ===== src/Prelude/Case.antt =====
-- `str.upper` and `str.lower` on the letters of ASCII, `upper` also on the two small letters outside
-- ASCII that become letters of ASCII (U+0131, U+017F); other characters stay.
use Prim.Native.Char.{Char, code}
use ddochi_backend.Prelude.Tests.{◌==◌, if◌then◌else◌}
use Prim.Native.String.{String}

translate : Char → String → String → Char
translate c String.[] _ = c
translate c _ String.[] = c
translate c (String.◌∷◌ a s) (String.◌∷◌ b t) =
    let rest = translate c s t in if code c == code a then b else rest

unfoldable pub upper : String → String
unfolding translate
upper String.[] = String.[]
upper (String.◌∷◌ c s) =
    String.◌∷◌ (translate c "abcdefghijklmnopqrstuvwxyzıſ" "ABCDEFGHIJKLMNOPQRSTUVWXYZIS") (upper s)

unfoldable pub lower : String → String
unfolding translate
lower String.[] = String.[]
lower (String.◌∷◌ c s) =
    String.◌∷◌ (translate c "ABCDEFGHIJKLMNOPQRSTUVWXYZ" "abcdefghijklmnopqrstuvwxyz") (lower s)
