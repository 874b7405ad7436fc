-- ===== src/Pairing/Config.antt =====
-- CONFIG of BROADCAST_SETTINGS for one broadcast type: `api/telegram/team_config.py`.
-- A JSON object is a map from its keys to values. TEAM_ID is the key of a row.
use ddochi_backend.Prelude.{String, Bool, false, Option, none, some, List, [], ◌∷◌, if◌then◌else◌}
use ddochi_backend.Prelude.Text.{str_eq}
use ddochi_backend.Prelude.Rows.{find_row, update_row}

-- The value of a key: null, a text, or another JSON value as it is written
pub data Value : Type 0 where
  null : Value
  str : String → Value
  json : String → Value

-- `None` or a text, as a patch has it
abbrev pub value_of : Option String → Value
value_of none = null
value_of (some s) = str s

abbrev pub Config : Type 0
Config = String → Option Value

pub record ConfigRow : Type 0 where
  pub team_id : String
  pub deleted : Bool
  pub config : Config

abbrev pub config_key : ConfigRow → String
config_key r = r.team_id

abbrev pub Patch : Type 0
Patch = List (String × Value)

-- One key of a merge patch: null deletes the key.
abbrev pub merge_key : String → Value → Config → Config
merge_key k null cfg j = if str_eq k j then none else cfg j
merge_key k v cfg j = if str_eq k j then some v else cfg j

-- JSON_MERGEPATCH for a patch without objects
unfoldable pub merge_patch : Patch → Config → Config
merge_patch [] cfg = cfg
merge_patch ((k, v) ∷ more) cfg = merge_patch more (merge_key k v cfg)

-- The patch itself as a CONFIG, nulls included
unfoldable pub patch_config : Patch → Config
patch_config [] j = none
patch_config ((k, v) ∷ more) j =
    let rest = patch_config more j in
    elim rest [ some w ↦ some w | none ↦ if str_eq k j then some v else none ]

abbrev pub patch_row : Patch → ConfigRow → ConfigRow
patch_row p r = record r { config = merge_patch p r.config }

unfoldable pub merge_found : String → Patch → List ConfigRow → Option ConfigRow → List ConfigRow
unfolding patch_config
merge_found t p rows none = record { team_id = t; deleted = false; config = patch_config p } ∷ rows
merge_found t p rows (some r) = update_row config_key t (patch_row p) rows

-- `patch_team_config`: MERGE INTO BROADCAST_SETTINGS, which does not look at DELETED_AT.
unfoldable pub patch_team_config : String → Patch → List ConfigRow → List ConfigRow
patch_team_config t p rows = merge_found t p rows (find_row config_key t rows)

-- `{}`
abbrev pub empty_config : Config
empty_config j = none

abbrev pub live_config : Option ConfigRow → Config
live_config none = empty_config
live_config (some r) = if r.deleted then empty_config else r.config

-- `load_team_config`
unfoldable pub load_team_config : String → List ConfigRow → Config
load_team_config t rows = live_config (find_row config_key t rows)

-- `cfg.get(key)`: an absent key and a null are both None.
abbrev pub get_value : String → Config → Value
get_value k cfg = elim (cfg k) [ none ↦ null | some v ↦ v ]
