-- ===== src/Sarang/Attempts.antt =====
-- The attempts at a match: SARANG_MATCH_HISTORIES.
use ddochi_backend.Prelude.{
  String, Bool, Option, none, some, List, [], ◌∷◌, ◌&&◌, ◌||◌, ltb, ◌==◌, is_none, false,
  if◌then◌else◌,
}
use ddochi_backend.Prelude.Text.{str_eq}
use ddochi_backend.Sarang.Tables.{Match}

-- `SARANG_ID = :1 AND RESULT IS NULL`
abbrev pub is_open_of : String → Match → Bool
is_open_of k m = str_eq m.sarang_id k && is_none m.result

-- `ORDER BY MATCH_DEGREE DESC, ATTEMPT_COUNT DESC`: the first comes before the second.
abbrev pub is_later : Match → Match → Bool
is_later m n =
    ltb n.match_degree m.match_degree
    || (n.match_degree == m.match_degree && ltb n.attempt_count m.attempt_count)

abbrev pub later_of : Match → Option Match → Match
later_of m none = m
later_of m (some n) = if is_later n m then n else m

-- The first row of the order that a WHERE clause keeps
unfoldable pub latest_where : (Match → Bool) → List Match → Option Match
latest_where f [] = none
latest_where f (m ∷ ms) =
    let rest = latest_where f ms in if f m then some (later_of m rest) else rest

unfoldable pub latest_open : String → List Match → Option Match
unfolding latest_where
latest_open k ms = latest_where (is_open_of k) ms

-- SELECT MATCH_ID ... WHERE SARANG_ID = :1 has a row
unfoldable pub has_attempt : String → List Match → Bool
has_attempt k [] = false
has_attempt k (m ∷ ms) = str_eq m.sarang_id k || has_attempt k ms
