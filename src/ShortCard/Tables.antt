-- ===== src/ShortCard/Tables.antt =====
-- The rows that api/views/short_card.py reads and writes: positions, affiliations, groups of
-- districts, members and short cards. A NOT NULL column is a `String`, any other an `Option`.
use ddochi_backend.Prelude.{
  ℕ, ◌≡◌, String, Bool, false, Option, none, some, List, [], ◌∷◌, ◌==◌, ◌&&◌, if◌then◌else◌, map,
  arith,
}
use ddochi_backend.Prelude.Text.{str_eq}
use ddochi_backend.Prelude.Rows.{find_row, update_row}

-- POSITION_CODE: the codes that the tiers name, `general`, and any other code.
pub data Position : Type 0 where
  admin executive region_lead region_general_secretary : Position
  team_lead team_evangelist region_clerk region_mission_clerk : Position
  group_lead : Position
  area_lead : Position
  sub_area_lead team_clerk team_mission_clerk area_secretary : Position
  general : Position
  other : String → Position

-- MEMBER_AFFILIATION_HISTORIES
pub record Affiliation : Type 0 where
  pub member : String
  pub region : String
  pub district : String
  pub is_current : Bool

-- MEMBER_POSITION_MAPPINGS
pub record Mapping : Type 0 where
  pub member : String
  pub position : Position

-- DISTRICT_GROUPS
pub record DistrictGroup : Type 0 where
  pub group_id : String
  pub region : String
  pub group_name : String
  pub district_codes : String
  pub leader : Option String
  pub deleted : Bool

-- MEMBERS
pub record Member : Type 0 where
  pub member_id : String
  pub name : String
  pub deleted : Bool

-- SPROUT_STATUS, NULL apart
pub data SproutStatus : Type 0 where
  pending approved rejected : SproutStatus

-- The columns of SHORT_CARDS that hold what a person writes; each cell is a nullable text.
pub data Column : Type 0 where
  age gender phone phone_normalized school_major environment residence religion : Column
  recruit_note faith_status relation personality hobby has_partner family_relation : Column
  desired_image recent_concern family_atmosphere human_relations note_special : Column
  guide_comment : Column

abbrev col_index : Column → ℕ
col_index age = 0
col_index gender = 1
col_index phone = 2
col_index phone_normalized = 3
col_index school_major = 4
col_index environment = 5
col_index residence = 6
col_index religion = 7
col_index recruit_note = 8
col_index faith_status = 9
col_index relation = 10
col_index personality = 11
col_index hobby = 12
col_index has_partner = 13
col_index family_relation = 14
col_index desired_image = 15
col_index recent_concern = 16
col_index family_atmosphere = 17
col_index human_relations = 18
col_index note_special = 19
col_index guide_comment = 20

abbrev pub col_eq : Column → Column → Bool
col_eq a b = col_index a == col_index b

-- SHORT_CARDS
pub record Card : Type 0 where
  pub card_id : String
  pub member : String
  pub name : String
  pub cell : Column → Option String
  pub is_approved : Bool
  pub sprout : Option SproutStatus
  pub decided_by : Option String
  pub created_by : String
  pub updated_by : String
  pub deleted : Bool

pub record Store : Type 0 where
  pub members : List Member
  pub affiliations : List Affiliation
  pub positions : List Mapping
  pub groups : List DistrictGroup
  pub cards : List Card
  pub sarang_phones : List String

-- SELECT ... WHERE MEMBER_ID = :1 AND IS_CURRENT = 1
unfoldable pub current_affiliations : String → List Affiliation → List Affiliation
current_affiliations m [] = []
current_affiliations m (a ∷ as_) =
    if str_eq a.member m && a.is_current
    then a ∷ current_affiliations m as_
    else current_affiliations m as_

unfoldable pub positions_of : String → List Mapping → List Position
positions_of m [] = []
positions_of m (p ∷ ps) =
    if str_eq p.member m then p.position ∷ positions_of m ps else positions_of m ps

-- The rows that a LEFT JOIN adds to one row on the left.
abbrev pub left_join {ℓ} : {A : Type ℓ} → List A → List (Option A)
left_join [] = none ∷ []
left_join (a ∷ as_) = map some (a ∷ as_)

-- `rows[0] if rows else None`
abbrev pub first_of_rows {ℓ} : {A : Type ℓ} → List A → Option A
first_of_rows [] = none
first_of_rows (a ∷ _) = some a

abbrev pub card_key : Card → String
card_key c = c.card_id

-- WHERE SHORT_CARD_ID = :1. The id is the table's primary key: one row at most has it.
abbrev pub find_card : String → List Card → Option Card
find_card k cs = find_row card_key k cs

live_only : Option Card → Option Card
live_only none = none
live_only (some c) = if c.deleted then none else some c

-- WHERE SHORT_CARD_ID = :1 AND DELETED_AT IS NULL
unfoldable pub find_live_card : String → List Card → Option Card
unfolding live_only
find_live_card k cs = live_only (find_card k cs)

pub find_card_of_live :
    (k : String) (cs : List Card) {c : Card}
    → find_live_card k cs ≡ some c
    → (find_card k cs ≡ some c) × (c.deleted ≡ false)
unfolding find_live_card
find_card_of_live k cs {c} h = ground arith

-- UPDATE SHORT_CARDS SET ... WHERE SHORT_CARD_ID = :1: one row at most.
abbrev pub update_card : String → (Card → Card) → List Card → List Card
update_card k f cs = update_row card_key k f cs
