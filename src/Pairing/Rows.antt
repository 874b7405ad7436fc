-- ===== src/Pairing/Rows.antt =====
-- The table TELEGRAM_PAIRINGS (`sql/13_telegram_pairings.sql`), its rows newest first, and the
-- queries of the pairing views. Times are microseconds.
use ddochi_backend.Prelude.{
  ℕ, String, Bool, not, ◌&&◌, ◌||◌, ltb, Option, none, some, List, [], ◌∷◌, is_none, if◌then◌else◌,
}
use ddochi_backend.Prelude.Text.{str_eq, is_in, string_length}
use ddochi_backend.Prelude.Rows.{find_row, update_row}
use ddochi_backend.Pairing.Config.{ConfigRow}

pub record Pairing : Type 0 where
  pub code : String
  pub team_id : String
  pub channel_type : String
  pub issued_by : String
  pub expires_at : ℕ
  pub completed_at : Option ℕ
  pub chat_id : Option String
  pub chat_title : Option String

pub record Store : Type 0 where
  pub pairings : List Pairing
  pub configs : List ConfigRow
  pub members : List String

abbrev pub pairing_key : Pairing → String
pairing_key p = p.code

abbrev pub find_pairing : String → List Pairing → Option Pairing
find_pairing k ps = find_row pairing_key k ps

abbrev pub update_pairing : String → (Pairing → Pairing) → List Pairing → List Pairing
update_pairing k f ps = update_row pairing_key k f ps

-- `TEAM_ID = :1 AND CHANNEL_TYPE = :2`
unfoldable pub is_for : String → String → Pairing → Bool
is_for team channel p = str_eq p.team_id team && str_eq p.channel_type channel

-- `... AND COMPLETED_AT IS NULL`
unfoldable pub is_open : String → String → Pairing → Bool
unfolding is_for
is_open team channel p = is_for team channel p && is_none p.completed_at

-- The first row that a WHERE clause keeps
unfoldable pub first_where : (Pairing → Bool) → List Pairing → Option Pairing
first_where f [] = none
first_where f (p ∷ ps) = if f p then some p else first_where f ps

-- DELETE: the rows that the WHERE clause does not keep
unfoldable pub delete_where : (Pairing → Bool) → List Pairing → List Pairing
delete_where f [] = []
delete_where f (p ∷ ps) = let rest = delete_where f ps in if f p then rest else p ∷ rest

-- SYSTIMESTAMP + INTERVAL '10' MINUTE
abbrev pub ten_minutes : ℕ
ten_minutes = 600000000

-- EXPIRES_AT < SYSTIMESTAMP
unfoldable pub is_expired : ℕ → Pairing → Bool
is_expired now p = ltb p.expires_at now

-- What the constraints of the table refuse: a second row with the code, a second open row for
-- the team and channel (UQ_TP_ACTIVE), an unknown issuer, a team of more than 20 characters.
unfoldable pub is_refused : Pairing → Store → Bool
unfolding is_open
is_refused p s =
    not (is_none (find_pairing p.code s.pairings))
    || not (is_none (first_where (is_open p.team_id p.channel_type) s.pairings))
    || not (is_in p.issued_by s.members)
    || ltb 20 (string_length p.team_id)
