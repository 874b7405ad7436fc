-- ===== src/Sarang/Undo.antt =====
-- A result that is deleted again leaves the attempts as they were.
use ddochi_backend.Prelude.{
  ◌≡◌, refl, sym, ap, String, Bool, true, false, Option, none, some, List, [], ◌∷◌, not, ◌&&◌, inl,
  inr, Bool-cases, is_none, arith,
}
use mathlib.Core.Path.{Path, subst}
use text.Mathlib.TextEquality.{eq_iff}
use ddochi_backend.Prelude.Text.{str_eq}
use ddochi_backend.Prelude.Rows.{find_row, update_row}
use ddochi_backend.Sarang.Tables.{MatchResult, Match, Store, match_key, first_where, update_where}
use ddochi_backend.Sarang.Attempts.{is_open_of, latest_open}
use ddochi_backend.Sarang.Approval.{done}
use ddochi_backend.Sarang.Results.{finish, result_found, record_match_result}
use ddochi_backend.Sarang.Logs.{is_attempt, reopen, undo_result}
use ddochi_backend.Sarang.Ordering.{unique_matches, find_row-latest_where}

-- An attempt whose other columns say that it has no result
abbrev pub is_blank : Match → Bool
is_blank m = is_none m.result && is_none m.sub_reason && not m.finished

untouched :
    (i k : String) (ms : List Match)
    → is_none (find_row match_key i ms) ≡ true
    → update_where (is_attempt i k) reopen ms ≡ ms
unfolding find_row update_where
untouched i k [] h = refl
untouched i k (m ∷ ms) h =
    let other : str_eq m.match_id i ≡ false = ground arith in
    rw (other, untouched i k ms (ground arith)) refl

reopen-finish :
    (r : MatchResult) (sub : Option String) (m : Match)
    → is_blank m ≡ true
    → reopen (finish r sub m) ≡ m
reopen-finish r sub m h =
    let no_result : Path (Option MatchResult) none m.result = ground arith in
    let no_reason : Path (Option String) none m.sub_reason = ground arith in
    let not_finished : false ≡ m.finished = ground arith in
    λ j. record m { result = no_result j; sub_reason = no_reason j; finished = not_finished j }

undo-finish :
    (r : MatchResult) (sub : Option String) (i k : String) (cur : Match) (ms : List Match)
    → unique_matches ms ≡ true
    → find_row match_key i ms ≡ some cur
    → str_eq cur.sarang_id k ≡ true
    → is_blank cur ≡ true
    → update_where (is_attempt i k) reopen (update_row match_key i (finish r sub) ms) ≡ ms
unfolding unique_matches find_row update_row update_where
undo-finish r sub i k cur [] u h mine blank = refl
undo-finish r sub i k cur (m ∷ ms) u h mine blank = elim (Bool-cases (str_eq m.match_id i)) [
  | inl e ↦
      let same : m ≡ cur = ground arith in
      let owned : str_eq m.sarang_id k ≡ true =
        subst (λ x. str_eq x.sarang_id k ≡ true) (sym same) mine in
      let blank_ : is_blank m ≡ true = subst (λ x. is_blank x ≡ true) (sym same) blank in
      let alone : is_none (find_row match_key i ms) ≡ true =
        subst (λ x. is_none (find_row match_key x ms) ≡ true) ((eq_iff m.match_id i).0 e)
          (ground arith) in
      rw (e, e, owned) (λ j. reopen-finish r sub m blank_ j ∷ untouched i k ms alone j)
  | inr e ↦
      rw (e, e)
        (ap (λ xs. m ∷ xs) (undo-finish r sub i k cur ms (ground arith) (rw e at h) mine blank))
]

attempt_there :
    (r : MatchResult) (sub : Option String) (i k : String) (cur : Match) (ms : List Match)
    → find_row match_key i ms ≡ some cur
    → str_eq cur.sarang_id k ≡ true
    → is_none (first_where (is_attempt i k) (update_row match_key i (finish r sub) ms)) ≡ false
unfolding find_row update_row first_where
attempt_there r sub i k cur [] h mine = cc
attempt_there r sub i k cur (m ∷ ms) h mine = elim (Bool-cases (str_eq m.match_id i)) [
  | inl e ↦
      let same : m ≡ cur = ground arith in
      let owned : str_eq m.sarang_id k ≡ true =
        subst (λ x. str_eq x.sarang_id k ≡ true) (sym same) mine in
      rw (e, e, owned) refl
  | inr e ↦ rw (e, e) (attempt_there r sub i k cur ms (rw e at h) mine)
]

undo_found :
    (k : String) (r : MatchResult) (sub : Option String) (s : Store) (cur : Match)
    → unique_matches s.matches ≡ true
    → find_row match_key cur.match_id s.matches ≡ some cur
    → str_eq cur.sarang_id k ≡ true
    → is_blank cur ≡ true
    → ((undo_result cur.match_id k (result_found k r sub s (some cur)).1).0 ≡ done "")
      × ((undo_result cur.match_id k (result_found k r sub s (some cur)).1).1.matches ≡ s.matches)
unfolding undo_result result_found
undo_found k r sub s cur u found mine blank =
    rw (attempt_there r sub cur.match_id k cur s.matches found mine)
      (refl, undo-finish r sub cur.match_id k cur s.matches u found mine blank)

-- Where the ids of the attempts are distinct, deleting the result that was just given to the open
-- attempt of a prospect, which had no reason and was not finished, succeeds and gives back the
-- attempts as they were.
pub undo-record :
    (k : String) (r : MatchResult) (sub : Option String) (s : Store) (cur : Match)
    → unique_matches s.matches ≡ true
    → latest_open k s.matches ≡ some cur
    → is_none cur.sub_reason ≡ true
    → cur.finished ≡ false
    → ((undo_result cur.match_id k (record_match_result k r sub s).1).0 ≡ done "")
      × ((undo_result cur.match_id k (record_match_result k r sub s).1).1.matches ≡ s.matches)
unfolding record_match_result latest_open
undo-record k r sub s cur u e no_reason unfinished =
    let (found, open_) = find_row-latest_where (is_open_of k) s.matches cur u e in
    let mine : str_eq cur.sarang_id k ≡ true = ground arith in
    rw e (undo_found k r sub s cur u found mine (ground arith))
