-- ===== src/ShortCard/Replies.antt =====
-- What the handlers of short_card.py answer, and the fields of a request.
use ddochi_backend.Prelude.{ℕ, String, Bool, Option, none, some, List, [], ◌∷◌, if◌then◌else◌}
use ddochi_backend.Prelude.Text.{str_eq, strip, text_or_empty}
use ddochi_backend.ShortCard.Tables.{Card}
use ddochi_backend.ShortCard.Stage.{Stage}

-- A JSON object whose values are texts or null
abbrev pub Fields : Type 0
Fields = List (String × Option String)

unfoldable pub field? : String → Fields → Option (Option String)
field? k [] = none
field? k ((j, v) ∷ fs) = if str_eq j k then some v else field? k fs

-- `data.get(k)`
abbrev pub or_null : Option (Option String) → Option String
or_null none = none
or_null (some v) = v

unfoldable pub field : String → Fields → Option String
unfolding field?
field k fs = or_null (field? k fs)

-- `str(data.get(k) or '').strip()`
unfoldable pub text_field : String → Fields → String
text_field k fs = strip (text_or_empty (field k fs))

pub record Request : Type 0 where
  pub is_post : Bool
  pub sabun : String
  pub short_card_id : Option String
  pub status : Option String
  pub fields : Fields

pub data Reply : Type 0 where
  -- an error with its HTTP status and message
  fail : ℕ → String → Reply
  -- `duplicateInSarang`
  submitted : Bool → Reply
  decided : String → Reply
  -- the card with its stage and `is_editable`
  journal : Card → Stage → Bool → Reply
  -- `sproutRequested`
  saved : Bool → Reply
