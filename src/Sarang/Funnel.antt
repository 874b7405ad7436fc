-- ===== src/Sarang/Funnel.antt =====
-- How decisions and results move a prospect through the funnel, and when a result can be given.
use ddochi_backend.Prelude.{
  ◌≡◌, refl, ◌∙◌, ℕ, ◌≤◌, String, true, false, Option, none, some, List, [], ◌∷◌, not, ◌||◌, inl,
  inr, Bool-cases, is_none, arith, if◌then◌else◌,
}
use text.Mathlib.TextEquality.{eq_iff}
use ddochi_backend.Prelude.Text.{str_eq}
use ddochi_backend.Sarang.Tables.{
  Stage, stage_rank, Sarang, MatchResult, approved, HabJaeYang, Match, Store, active_card,
  update_where,
}
use ddochi_backend.Sarang.Attempts.{is_open_of, latest_where, latest_open, has_attempt}
use ddochi_backend.Sarang.Approval.{
  set_stage, first_attempt, write_approval, approve_found, set_habjaeyang_approval,
}
use ddochi_backend.Sarang.Results.{
  match_stage, raises, match_stage_stmt, result_found, record_match_result, Postpone,
  postpone_found, record_postpone,
}
use ddochi_backend.Sarang.Lifecycle.{active_card-owner}

-- The same prospects, none at an earlier stage, and those but `k` as they were
abbrev pub Raised : String → List Sarang → List Sarang → Type 0
Raised k [] [] = Unit
Raised k [] (y ∷ ys) = ⊥
Raised k (x ∷ xs) [] = ⊥
Raised k (x ∷ xs) (y ∷ ys) =
    (y.sarang_id ≡ x.sarang_id)
    × (stage_rank x.stage ≤ stage_rank y.stage)
    × (str_eq x.sarang_id k ≡ false → y ≡ x)
    × Raised k xs ys

Raised-refl : (k : String) (xs : List Sarang) → Raised k xs xs
Raised-refl k [] = tt
Raised-refl k (x ∷ xs) = (refl, omega arith, (λ _. refl), Raised-refl k xs)

stage-Raised :
    (k : String) (goal : Stage) (xs : List Sarang)
    → Raised k xs (update_where (raises k goal) (set_stage goal) xs)
unfolding update_where
stage-Raised k goal [] = tt
stage-Raised k goal (x ∷ xs) = elim (Bool-cases (raises k goal x)) [
  | inr e ↦ rw e (refl, omega arith, (λ _. refl), stage-Raised k goal xs)
  | inl e ↦ rw e (refl, ground arith, (λ other. absurd (ground arith)), stage-Raised k goal xs)
]

stmt-Raised :
    (k : String) (goal : Option Stage) (xs : List Sarang) → Raised k xs (match_stage_stmt k goal xs)
unfolding match_stage_stmt
stmt-Raised k none xs = Raised-refl k xs
stmt-Raised k (some goal) xs = stage-Raised k goal xs

result-Raised :
    (k : String) (r : MatchResult) (sub : Option String) (s : Store) (o : Option Match)
    → Raised k s.sarangs (result_found k r sub s o).1.sarangs
unfolding result_found
result-Raised k r sub s none = Raised-refl k s.sarangs
result-Raised k r sub s (some cur) = stmt-Raised k (match_stage r) s.sarangs

postpone-Raised :
    (new_id : ℕ → String) (k sabun new_date reason : String) (p : Postpone) (s : Store)
    (o : Option Match)
    → Raised k s.sarangs (postpone_found new_id k sabun new_date reason p s o).1.sarangs
unfolding postpone_found
postpone-Raised new_id k sabun new_date reason p s none = Raised-refl k s.sarangs
postpone-Raised new_id k sabun new_date reason p s (some cur) = stmt-Raised k _ s.sarangs

-- A result and a postponed meeting take no prospect back to an earlier stage, and leave the
-- stages of the other prospects.
pub results_raise :
    (k : String) (r : MatchResult) (sub : Option String) (new_id : ℕ → String)
    (sabun new_date reason : String) (p : Postpone) (s : Store)
    → Raised k s.sarangs (record_match_result k r sub s).1.sarangs
      × Raised k s.sarangs (record_postpone new_id k sabun new_date reason p s).1.sarangs
unfolding record_match_result record_postpone
results_raise k r sub new_id sabun new_date reason p s = (
  result-Raised k r sub s (latest_open k s.matches),
  postpone-Raised new_id k sabun new_date reason p s (latest_open k s.matches),
)

no_attempt-latest :
    (k : String) (ms : List Match)
    → has_attempt k ms ≡ false
    → latest_where (is_open_of k) ms ≡ none
unfolding has_attempt latest_where
no_attempt-latest k [] h = refl
no_attempt-latest k (m ∷ ms) h =
    let other : str_eq m.sarang_id k ≡ false = ground arith in
    rw other (no_attempt-latest k ms (ground arith))

recorded_iff :
    (k : String) (r : MatchResult) (sub : Option String) (s : Store) (o : Option Match)
    → (result_found k r sub s o).0 ≡ not (is_none o)
unfolding result_found
recorded_iff k r sub s none = refl
recorded_iff k r sub s (some m) = refl

attempts_after :
    (k id now : String) (c : HabJaeYang) (ms : List Match)
    → c.sarang_id ≡ k
    → not (
        is_none
          (latest_open k (if not (has_attempt k ms) then first_attempt id now c ∷ ms else ms)))
      ≡ (not (has_attempt k ms) || not (is_none (latest_open k ms)))
unfolding latest_open latest_where
attempts_after k id now c ms owner = elim (Bool-cases (has_attempt k ms)) [
  | inl e ↦ rw e refl
  | inr e ↦
      let mine : str_eq c.sarang_id k ≡ true = (eq_iff c.sarang_id k).1 owner in rw (e, mine) refl
]

-- After a card has been approved, a result can be given exactly if the prospect had no attempt at
-- a match, or had an open one: an approval opens no attempt where all of them are finished.
pub approved_result :
    (new_id : ℕ → String) (now sabun k : String) (reason : Option String) (s : Store)
    (c : HabJaeYang) (r : MatchResult) (sub : Option String)
    → active_card k s.cards ≡ some c
    → c.has_replied ≡ true
    → c.is_window_opened ≡ true
    → (record_match_result k r sub
        (set_habjaeyang_approval new_id now sabun k approved reason s).1).0
      ≡ (not (has_attempt k s.matches) || not (is_none (latest_open k s.matches)))
unfolding record_match_result set_habjaeyang_approval approve_found write_approval
approved_result new_id now sabun k reason s c r sub e answered opened =
    rw (e, answered, opened)
      (recorded_iff k r sub _ _
        ∙ attempts_after k (new_id 1) now c s.matches (active_card-owner k s.cards c e))
