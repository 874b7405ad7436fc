-- ===== src/Sarang/Lifecycle.antt =====
-- The attempts of every prospect stay in order under the operations that write them.
use ddochi_backend.Prelude.{
  ◌≡◌, refl, sym, ◌∙◌, ℕ, String, Bool, true, false, Option, none, some, List, [], ◌∷◌, not, ◌&&◌,
  ◌||◌, inl, inr, Bool-cases, is_none, arith, if◌then◌else◌,
}
use mathlib.Core.Path.{subst}
use text.Mathlib.TextEquality.{eq_iff}
use ddochi_backend.Prelude.Text.{str_eq, strip, text_or_empty}
use ddochi_backend.Prelude.Rows.{find_row}
use ddochi_backend.Sarang.Tables.{
  HabJaeYang, MatchResult, Match, ApprovalStatus, Store, match_key, active_card, first_where,
  is_active_of,
}
use ddochi_backend.Sarang.Attempts.{is_later, latest_open, has_attempt}
use ddochi_backend.Sarang.Approval.{
  Flag, is_approved, first_attempt, toggle_found, toggle_hj_field, write_approval, approve_found,
  set_habjaeyang_approval,
}
use ddochi_backend.Sarang.Results.{
  finish, result_found, record_match_result, Postpone, delayed, second, following, close_for,
  new_time, postpone_found, record_postpone,
}
use ddochi_backend.Sarang.Logs.{cancel_found, cancel_shed_habjaeyang}
use ddochi_backend.Sarang.Submit.{
  SubmitRequest, LogKind, called, reserved, messaged, fixed_meeting, written, kind_named,
  submit_kind, submit_result,
}
use ddochi_backend.Sarang.Mild.{edit-Mild, data-Mild, assign-Mild}
use ddochi_backend.Sarang.Steps.{
  edit, edit_data, assign, IsFresh, Step, toggle, approve, give_result, postpone, submit,
  cancel_card, Reach, here, next,
}
use ddochi_backend.Sarang.Ordering.{
  IsHistory, unique_matches, Closes, Closes-Keeps, update-InOrder, update-unique_matches,
  find-update_row, has_attempt-IsNewest, close_latest-IsNewest,
}

finish-Closes : (r : MatchResult) (sub : Option String) → Closes (finish r sub)
finish-Closes r sub = record {
  id = λ m. refl;
  owner = λ m. refl;
  degree = λ m. refl;
  attempt = λ m. refl;
  closed = λ m. refl;
}

close_for-Closes : (p : Postpone) → Closes (close_for p)
close_for-Closes p = record {
  id = λ m. refl;
  owner = λ m. refl;
  degree = λ m. refl;
  attempt = λ m. refl;
  closed = λ m. refl;
}

toggle-matches : (f : Flag) (k : String) (s : Store) → (toggle_hj_field f k s).1.matches ≡ s.matches
unfolding toggle_hj_field toggle_found
toggle-matches f k s = ground arith

cancel-matches :
    (is_post : Bool) (doc_id : Option String) (s : Store)
    → (cancel_shed_habjaeyang is_post doc_id s).1.matches ≡ s.matches
unfolding cancel_shed_habjaeyang cancel_found
cancel-matches is_post doc_id s = ground arith

submit_kind-matches :
    (new_id : ℕ → String) (k sabun : String) (r : SubmitRequest) (s : Store) (o : Option LogKind)
    → (submit_kind new_id k sabun r s o).1.matches ≡ s.matches
unfolding submit_kind
submit_kind-matches new_id k sabun r s none = refl
submit_kind-matches new_id k sabun r s (some (called _)) = refl
submit_kind-matches new_id k sabun r s (some reserved) = refl
submit_kind-matches new_id k sabun r s (some (messaged _)) = refl
submit_kind-matches new_id k sabun r s (some fixed_meeting) = refl
submit_kind-matches new_id k sabun r s (some written) = refl

submit-matches :
    (new_id : ℕ → String) (sabun : String) (r : SubmitRequest) (s : Store)
    → (submit_result new_id sabun r s).1.matches ≡ s.matches
unfolding submit_result
submit-matches new_id sabun r s = ground (
  arith,
  submit_kind-matches new_id (strip (text_or_empty r.row_index)) sabun r s
      (kind_named (text_or_empty r.log_type)),
)

result_found-IsHistory :
    (k : String) (r : MatchResult) (sub : Option String) (s : Store) (o : Option Match)
    → IsHistory s.matches
    → IsHistory (result_found k r sub s o).1.matches
unfolding result_found
result_found-IsHistory k r sub s none h = h
result_found-IsHistory k r sub s (some cur) h = record {
  unique =
      update-unique_matches (finish r sub) (Closes-Keeps (finish-Closes r sub)) cur.match_id
        s.matches
      ∙ h.unique;
  ordered =
      update-InOrder (finish r sub) (Closes-Keeps (finish-Closes r sub)) cur.match_id s.matches
        h.ordered;
}

following_later :
    (id k : String) (p : Postpone) (time : Option String) (m : Match)
    → is_later (following id k p time m) m ≡ true
following_later id k delayed time m = ground arith
following_later id k second time m = ground arith

postpone_found-IsHistory :
    (new_id : ℕ → String) (k sabun new_date reason : String) (p : Postpone) (s : Store)
    (o : Option Match)
    → IsFresh new_id s
    → latest_open k s.matches ≡ o
    → IsHistory s.matches
    → IsHistory (postpone_found new_id k sabun new_date reason p s o).1.matches
unfolding postpone_found latest_open unique_matches
postpone_found-IsHistory new_id k sabun new_date reason p s none fresh e h = h
postpone_found-IsHistory new_id k sabun new_date reason p s (some cur) fresh e h =
    let g = close_for p in
    let c = close_for-Closes p in
    let new = following (new_id 1) k p (new_time new_date) cur in
    let same : str_eq new.sarang_id k ≡ true = (eq_iff k k).1 refl in
    let kept = update-unique_matches g (Closes-Keeps c) cur.match_id s.matches ∙ h.unique in
    let unseen = find-update_row g (Closes-Keeps c) cur.match_id (new_id 1) s.matches ∙ fresh in
    record {
      unique = rw (unseen, kept);
      ordered = (
        close_latest-IsNewest g c k s.matches cur new h.unique h.ordered e same
            (following_later (new_id 1) k p (new_time new_date) cur),
        update-InOrder g (Closes-Keeps c) cur.match_id s.matches h.ordered,
      );
    }

first_where-holds :
    (f : HabJaeYang → Bool) (cards : List HabJaeYang) (c : HabJaeYang)
    → first_where f cards ≡ some c
    → f c ≡ true
unfolding first_where
first_where-holds f [] c h = cc
first_where-holds f (d ∷ ds) c h = elim (Bool-cases (f d)) [
  | inl e ↦ let same : d ≡ c = ground arith in subst (λ x. f x ≡ true) same e
  | inr e ↦ first_where-holds f ds c (rw e at h)
]

-- The prospect that the active card is for
pub active_card-owner :
    (k : String) (cards : List HabJaeYang) (c : HabJaeYang)
    → active_card k cards ≡ some c
    → c.sarang_id ≡ k
unfolding active_card
active_card-owner k cards c h =
    let held : (str_eq c.sarang_id k && c.is_active) ≡ true =
      first_where-holds (is_active_of k) cards c h in
    let same : str_eq c.sarang_id k ≡ true = ground arith in (eq_iff c.sarang_id k).0 same

approved-IsHistory :
    (id now k : String) (c : HabJaeYang) (b : Bool) (ms : List Match)
    → c.sarang_id ≡ k
    → is_none (find_row match_key id ms) ≡ true
    → IsHistory ms
    → IsHistory (if b && not (has_attempt k ms) then first_attempt id now c ∷ ms else ms)
unfolding unique_matches
approved-IsHistory id now k c b ms owner fresh h = elim (Bool-cases (b && not (has_attempt k ms))) [
  | inr e ↦ rw e h
  | inl e ↦
      let unused : has_attempt k ms ≡ false = ground arith in
      let unused_ = subst (λ x. has_attempt x ms ≡ false) (sym owner) unused in
      rw e (record {
        unique = rw (fresh, h.unique);
        ordered = (has_attempt-IsNewest (first_attempt id now c) ms unused_, h.ordered);
      })
]

approve-IsHistory :
    (new_id : ℕ → String) (now sabun k : String) (v : ApprovalStatus) (reason : Option String)
    (s : Store) (o : Option HabJaeYang)
    → IsFresh new_id s
    → active_card k s.cards ≡ o
    → IsHistory s.matches
    → IsHistory (approve_found new_id now sabun k v reason s o).1.matches
unfolding approve_found write_approval
approve-IsHistory new_id now sabun k v reason s none fresh e h = h
approve-IsHistory new_id now sabun k v reason s (some c) fresh e h =
    elim (Bool-cases (is_approved v && (not c.has_replied || not c.is_window_opened))) [
      | inl stopped ↦ rw stopped h
      | inr free ↦ rw free (
          approved-IsHistory (new_id 1) now k c (is_approved v) s.matches
            (active_card-owner k s.cards c e) fresh h)
    ]

Step-IsHistory : {s t : Store} → Step s t → IsHistory s.matches → IsHistory t.matches
unfolding set_habjaeyang_approval record_match_result record_postpone
Step-IsHistory (toggle f k s) h = subst IsHistory (sym (toggle-matches f k s)) h
Step-IsHistory (approve new_id now sabun k v reason s fresh) h =
    approve-IsHistory new_id now sabun k v reason s (active_card k s.cards) fresh refl h
Step-IsHistory (give_result k r sub s) h =
    result_found-IsHistory k r sub s (latest_open k s.matches) h
Step-IsHistory (postpone new_id k sabun new_date reason p s fresh) h =
    postpone_found-IsHistory new_id k sabun new_date reason p s (latest_open k s.matches) fresh refl
      h
Step-IsHistory (submit new_id sabun r s) h =
    subst IsHistory (sym (submit-matches new_id sabun r s)) h
Step-IsHistory (edit is_post row_index edit_type value s) h =
    (edit-Mild is_post row_index edit_type value s).history h
Step-IsHistory (edit_data k e s) h = (data-Mild k e s (active_card k s.cards)).history h
Step-IsHistory (assign short raw s) h = (assign-Mild short raw s).history h
Step-IsHistory (cancel_card is_post doc_id s) h =
    subst IsHistory (sym (cancel-matches is_post doc_id s)) h

-- In every store that flags, decisions on cards, submitted logs, results, postponed meetings, edits
-- and cancelled cards reach from one where the attempts are in order, where an attempt that is
-- opened draws an unused id, the ids of the attempts are distinct, and the attempts of each
-- prospect descend in (degree, attempt), newest first, all but the newest closed.
pub Reach-IsHistory : {s t : Store} → IsHistory s.matches → Reach s t → IsHistory t.matches
Reach-IsHistory h here = h
Reach-IsHistory h (next path step) = Step-IsHistory step (Reach-IsHistory h path)
