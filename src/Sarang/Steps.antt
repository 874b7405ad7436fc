-- ===== src/Sarang/Steps.antt =====
-- The operations on the prospects as steps from store to store, and the stores they reach.
-- `delete_log` is not among them; the results of `update_match` are `give_result`.
use ddochi_backend.Prelude.{◌≡◌, ℕ, String, Bool, true, Option, is_none}
use ddochi_backend.Prelude.Rows.{find_row}
use ddochi_backend.Sarang.Tables.{MatchResult, ApprovalStatus, Store, match_key, active_card}
use ddochi_backend.Sarang.Approval.{Flag, toggle_hj_field, set_habjaeyang_approval}
use ddochi_backend.Sarang.Results.{record_match_result, Postpone, record_postpone}
use ddochi_backend.Sarang.Submit.{SubmitRequest, submit_result}
use ddochi_backend.Sarang.Teacher.{assign_teacher}
use ddochi_backend.Sarang.Editing.{edit_match, CardEdit, edit_card_found}
use ddochi_backend.Sarang.Logs.{cancel_shed_habjaeyang}

-- The id that is drawn for an attempt is new.
abbrev pub IsFresh : (ℕ → String) → Store → Type 0
IsFresh new_id s = is_none (find_row match_key (new_id 1) s.matches) ≡ true

-- One operation on the prospects
pub data Step : Store → Store → Type 0 where
  toggle : (f : Flag) (k : String) (s : Store) → Step s (toggle_hj_field f k s).1
  approve :
      (new_id : ℕ → String) (now sabun k : String) (v : ApprovalStatus) (reason : Option String)
      (s : Store)
      → IsFresh new_id s
      → Step s (set_habjaeyang_approval new_id now sabun k v reason s).1
  give_result :
      (k : String) (r : MatchResult) (sub : Option String) (s : Store)
      → Step s (record_match_result k r sub s).1
  postpone :
      (new_id : ℕ → String) (k sabun new_date reason : String) (p : Postpone) (s : Store)
      → IsFresh new_id s
      → Step s (record_postpone new_id k sabun new_date reason p s).1
  submit :
      (new_id : ℕ → String) (sabun : String) (r : SubmitRequest) (s : Store)
      → Step s (submit_result new_id sabun r s).1
  edit :
      (is_post : Bool) (row_index edit_type value : Option String) (s : Store)
      → Step s (edit_match is_post row_index edit_type value s).1
  edit_data :
      (k : String) (e : CardEdit) (s : Store)
      → Step s (edit_card_found k e s (active_card k s.cards)).1
  assign :
      (short : String) (raw : Option String) (s : Store) → Step s (assign_teacher short raw s).1
  cancel_card :
      (is_post : Bool) (doc_id : Option String) (s : Store)
      → Step s (cancel_shed_habjaeyang is_post doc_id s).1

pub data Reach (s : Store) : Store → Type 0 where
  here : Reach s s
  next : {t u : Store} → Reach s t → Step t u → Reach s u
