-- ===== src/Sarang/Cards.antt =====
-- A prospect has at most one active card, as the index UX_SHJY_ACTIVE wants.
use ddochi_backend.Prelude.{
  ◌≡◌, refl, sym, ℕ, String, Bool, true, Option, none, some, List, not, ◌&&◌, ◌||◌, inl, inr,
  Bool-cases, arith,
}
use mathlib.Core.Path.{subst}
use ddochi_backend.Prelude.Text.{strip, text_or_empty}
use ddochi_backend.Sarang.Tables.{
  HabJaeYang, Match, MatchResult, ApprovalStatus, MemberRow, Store, TmLog, is_active_of,
  active_card, first_where,
}
use ddochi_backend.Sarang.Attempts.{latest_open}
use ddochi_backend.Sarang.Approval.{
  Flag, replied, window_opened, set_flag, flag_of, toggle_found, toggle_hj_field, decide_card,
  is_approved, write_approval, approve_found, set_habjaeyang_approval,
}
use ddochi_backend.Sarang.Results.{
  result_found, record_match_result, Postpone, postpone_found, record_postpone,
}
use ddochi_backend.Sarang.Submit.{
  HjForm, SubmitRequest, LogKind, called, reserved, messaged, fixed_meeting, written, kind_named,
  write_card, put_card, submit_kind, submit_result,
}
use ddochi_backend.Sarang.Logs.{
  deactivate, cancel_found, cancel_shed_habjaeyang, back_to_tm, delete_tm_log, undo_result,
  delete_activity, delete_from, delete_log, is_tm_log, source_of,
}
use ddochi_backend.Sarang.Active.{
  one_active, active_card-has_active, Tame, row-one_active, where-one_active,
}
use ddochi_backend.Sarang.Mild.{edit-Mild, data-Mild, assign-Mild}
use ddochi_backend.Sarang.Steps.{
  edit, edit_data, assign, Step, toggle, approve, give_result, postpone, submit, cancel_card,
}

flag-Tame : (f : Flag) (b : Bool) → Tame (set_flag f b)
flag-Tame replied b = record { owner = λ c. refl; tame = λ c. ground arith }
flag-Tame window_opened b = record { owner = λ c. refl; tame = λ c. ground arith }

toggle-one_active :
    (f : Flag) (k : String) (s : Store) (o : Option HabJaeYang)
    → one_active s.cards ≡ true
    → one_active (toggle_found f k s o).1.cards ≡ true
unfolding toggle_found
toggle-one_active f k s none h = h
toggle-one_active f k s (some cur) h =
    where-one_active (set_flag f (not (flag_of f cur))) (flag-Tame f (not (flag_of f cur)))
      (is_active_of k) s.cards h

approve-one_active :
    (new_id : ℕ → String) (now sabun k : String) (v : ApprovalStatus) (reason : Option String)
    (s : Store) (o : Option HabJaeYang)
    → one_active s.cards ≡ true
    → one_active (approve_found new_id now sabun k v reason s o).1.cards ≡ true
unfolding approve_found write_approval
approve-one_active new_id now sabun k v reason s none h = h
approve-one_active new_id now sabun k v reason s (some c) h =
    elim (Bool-cases (is_approved v && (not c.has_replied || not c.is_window_opened))) [
      | inl e ↦ rw e h
      | inr e ↦ rw e (
          row-one_active (decide_card v reason)
            (record { owner = λ d. refl; tame = λ d. ground arith }) c.hab_jae_yang_id s.cards h)
    ]

cancel_found-one_active :
    (k : String) (s : Store) (o : Option HabJaeYang)
    → one_active s.cards ≡ true
    → one_active (cancel_found k s o).1.cards ≡ true
unfolding cancel_found
cancel_found-one_active k s none h = h
cancel_found-one_active k s (some c) h =
    row-one_active deactivate (record { owner = λ d. refl; tame = λ d. refl }) c.hab_jae_yang_id
      s.cards h

put_card-one_active :
    (id k : String) (hj : HjForm) (members : List MemberRow) (cs : List HabJaeYang)
    (o : Option HabJaeYang)
    → active_card k cs ≡ o
    → one_active cs ≡ true
    → one_active (put_card id k hj members cs o) ≡ true
unfolding put_card one_active
put_card-one_active id k hj members cs none e h = rw (active_card-has_active k cs e, h) refl
put_card-one_active id k hj members cs (some c) e h =
    row-one_active (write_card hj members) (record { owner = λ d. refl; tame = λ d. ground arith })
      c.hab_jae_yang_id cs h

submit_kind-one_active :
    (new_id : ℕ → String) (k sabun : String) (r : SubmitRequest) (s : Store) (o : Option LogKind)
    → one_active s.cards ≡ true
    → one_active (submit_kind new_id k sabun r s o).1.cards ≡ true
unfolding submit_kind
submit_kind-one_active new_id k sabun r s none h = h
submit_kind-one_active new_id k sabun r s (some (called _)) h = h
submit_kind-one_active new_id k sabun r s (some reserved) h = h
submit_kind-one_active new_id k sabun r s (some (messaged _)) h = h
submit_kind-one_active new_id k sabun r s (some fixed_meeting) h = h
submit_kind-one_active new_id k sabun r s (some written) h =
    put_card-one_active (new_id 2) k r.habjaeyang s.members s.cards (active_card k s.cards) refl h

result-cards :
    (k : String) (s : Store) (r : MatchResult) (sub : Option String) (o : Option Match)
    → (result_found k r sub s o).1.cards ≡ s.cards
unfolding result_found
result-cards k s r sub none = refl
result-cards k s r sub (some m) = refl

postpone-cards :
    (new_id : ℕ → String) (k sabun new_date reason : String) (p : Postpone) (s : Store)
    (o : Option Match)
    → (postpone_found new_id k sabun new_date reason p s o).1.cards ≡ s.cards
unfolding postpone_found
postpone-cards new_id k sabun new_date reason p s none = refl
postpone-cards new_id k sabun new_date reason p s (some m) = refl

Step-one_active : {s t : Store} → Step s t → one_active s.cards ≡ true → one_active t.cards ≡ true
unfolding toggle_hj_field set_habjaeyang_approval record_match_result record_postpone submit_result
    cancel_shed_habjaeyang
Step-one_active (toggle f k s) h = toggle-one_active f k s (active_card k s.cards) h
Step-one_active (approve new_id now sabun k v reason s fresh) h =
    approve-one_active new_id now sabun k v reason s (active_card k s.cards) h
Step-one_active (give_result k r sub s) h =
    subst (λ cs. one_active cs ≡ true) (sym (result-cards k s r sub (latest_open k s.matches))) h
Step-one_active (postpone new_id k sabun new_date reason p s fresh) h =
    subst (λ cs. one_active cs ≡ true)
      (sym (postpone-cards new_id k sabun new_date reason p s (latest_open k s.matches))) h
Step-one_active (submit new_id sabun r s) h = ground (
  arith,
  submit_kind-one_active new_id (strip (text_or_empty r.row_index)) sabun r s
      (kind_named (text_or_empty r.log_type)) h,
)
Step-one_active (edit is_post row_index edit_type value s) h =
    (edit-Mild is_post row_index edit_type value s).active h
Step-one_active (edit_data k e s) h = (data-Mild k e s (active_card k s.cards)).active h
Step-one_active (assign short raw s) h = (assign-Mild short raw s).active h
Step-one_active (cancel_card is_post doc_id s) h = ground (
  arith,
  cancel_found-one_active (strip (text_or_empty doc_id)) s
      (active_card (strip (text_or_empty doc_id)) s.cards) h,
)

delete_tm_log-cards :
    (k : String) (s : Store) (o : Option TmLog) → (delete_tm_log k s o).1.cards ≡ s.cards
unfolding delete_tm_log back_to_tm
delete_tm_log-cards k s none = refl
delete_tm_log-cards k s (some l) = ground arith

delete_from-cards : (source i k : String) (s : Store) → (delete_from source i k s).1.cards ≡ s.cards
unfolding delete_from undo_result delete_activity
delete_from-cards source i k s =
    ground (arith, delete_tm_log-cards k s (first_where (is_tm_log i k) s.tm_logs))

delete_log-cards :
    (is_post : Bool) (row_index id source : Option String) (s : Store)
    → (delete_log is_post row_index id source s).1.cards ≡ s.cards
unfolding delete_log
delete_log-cards is_post row_index id source s = ground (
  arith,
  delete_from-cards (source_of source) (strip (text_or_empty id)) (strip (text_or_empty row_index))
      s,
)

-- The stores that steps and deletions of logs reach
pub data Changes (s : Store) : Store → Type 0 where
  unchanged : Changes s s
  steps : {t u : Store} → Changes s t → Step t u → Changes s u
  deletes :
      {t : Store} (is_post : Bool) (row_index id source : Option String)
      → Changes s t
      → Changes s (delete_log is_post row_index id source t).1

-- In every store that flags, decisions on cards, submitted logs, results, postponed meetings, edits,
-- assigned teachers, cancelled cards and deleted logs reach from one where each prospect has at most
-- one active card, this is so too.
pub Changes-one_active :
    {s t : Store} → one_active s.cards ≡ true → Changes s t → one_active t.cards ≡ true
Changes-one_active h unchanged = h
Changes-one_active h (steps path step) = Step-one_active step (Changes-one_active h path)
Changes-one_active h (deletes {t} is_post row_index id source path) =
    subst (λ cs. one_active cs ≡ true) (sym (delete_log-cards is_post row_index id source t))
      (Changes-one_active h path)
