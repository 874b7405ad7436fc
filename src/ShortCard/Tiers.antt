-- ===== src/ShortCard/Tiers.antt =====
-- The position tiers of api/views/short_card.py and the caller's context.
use Prim.Native.Nat.{Ordering}
use Prim.Native.String.{compare}
use ddochi_backend.Prelude.{
  ℕ, String, Bool, true, false, Option, none, some, List, [], ◌∷◌, ◌++◌, ltb, not, ◌&&◌,
  if◌then◌else◌,
}
use ddochi_backend.Prelude.Text.{str_eq, sql_eq, strip, split_on, is_empty}
use ddochi_backend.ShortCard.Tables.{
  Member, Position, admin, executive, region_lead, region_general_secretary, team_lead,
  team_evangelist, region_clerk, region_mission_clerk, group_lead, area_lead, sub_area_lead,
  team_clerk, team_mission_clerk, area_secretary, general, other, Affiliation, DistrictGroup, Store,
  current_affiliations, positions_of, left_join,
}

-- The five sets of position codes, and the codes in none of them.
pub data Tier : Type 0 where
  global region group district_all district_general no_tier : Tier

abbrev pub tier_of : Position → Tier
tier_of admin = global
tier_of executive = global
tier_of region_lead = global
tier_of region_general_secretary = global
tier_of team_lead = region
tier_of team_evangelist = region
tier_of region_clerk = region
tier_of region_mission_clerk = region
tier_of group_lead = group
tier_of area_lead = district_all
tier_of sub_area_lead = district_general
tier_of team_clerk = district_general
tier_of team_mission_clerk = district_general
tier_of area_secretary = district_general
tier_of general = no_tier
tier_of (other _) = no_tier

-- The tier of a position code that may be None
abbrev pub tier_of? : Option Position → Tier
tier_of? none = no_tier
tier_of? (some p) = tier_of p

abbrev pub is_group_tier : Tier → Bool
is_group_tier group = true
is_group_tier _ = false

-- _NO_SPROUT_DECIDE
abbrev pub no_sprout_decide : Option Position → Bool
no_sprout_decide (some region_clerk) = true
no_sprout_decide (some region_mission_clerk) = true
no_sprout_decide _ = false

abbrev pub rank_of : Tier → ℕ
rank_of global = 0
rank_of region = 1
rank_of group = 2
rank_of district_all = 3
rank_of district_general = 4
rank_of no_tier = 99

unfoldable pub tier_rank : Position → ℕ
tier_rank p = rank_of (tier_of p)

-- `min(codes, key=_tier_rank)`: the first of the lowest rank
unfoldable pub min_from : Position → List Position → Position
unfolding tier_rank
min_from best [] = best
min_from best (p ∷ ps) = min_from (if ltb (tier_rank p) (tier_rank best) then p else best) ps

unfoldable pub broadest : List Position → Option Position
unfolding min_from
broadest [] = none
broadest (p ∷ ps) = some (min_from p ps)

pub record Context : Type 0 where
  pub position_code : Option Position
  pub region_code : Option String
  pub district_code : Option String
  pub group_districts : List String

-- A set of texts kept as a sorted list: `sorted({...})` is what is read of it.
unfoldable pub insert_sorted : String → List String → List String
insert_sorted d [] = d ∷ []
insert_sorted d (x ∷ xs) = elim (compare d x) [
  | Ordering.lt ↦ d ∷ x ∷ xs
  | Ordering.eq ↦ x ∷ xs
  | Ordering.gt ↦ x ∷ insert_sorted d xs
]

-- `{d.strip() for d in codes if d.strip()}` added to a sorted list
add_stripped : List String → List String → List String
unfolding insert_sorted
add_stripped [] ds = ds
add_stripped (d ∷ more) ds =
    add_stripped more (if is_empty (strip d) then ds else insert_sorted (strip d) ds)

-- The districts of the groups that the caller leads in the region
led_districts : String → Option String → List DistrictGroup → List String → List String
unfolding add_stripped
led_districts sabun here [] ds = ds
led_districts sabun here (g ∷ gs) ds = led_districts sabun here gs (
    if sql_eq g.leader (some sabun) && sql_eq (some g.region) here && not g.deleted
    then add_stripped (split_on b',' g.district_codes) ds
    else ds)

with_own : Option String → List String → List String
unfolding insert_sorted
with_own none ds = ds
with_own (some d) ds = if is_empty d then ds else insert_sorted d ds

region_of : Option Affiliation → Option String
region_of none = none
region_of (some a) = some a.region

district_of : Option Affiliation → Option String
district_of none = none
district_of (some a) = some a.district

-- The rows of the first query of `_caller_ctx`: a member's current affiliations times positions.
pair_rows :
    Option Affiliation → List (Option Position) → List (Option Affiliation × Option Position)
pair_rows a [] = []
pair_rows a (p ∷ ps) = (a, p) ∷ pair_rows a ps

product_rows :
    List (Option Affiliation) → List (Option Position) → List (Option Affiliation × Option Position)
unfolding pair_rows
product_rows [] ps = []
product_rows (a ∷ as_) ps = pair_rows a ps ++ product_rows as_ ps

member_rows : String → Store → List Member → List (Option Affiliation × Option Position)
unfolding product_rows current_affiliations positions_of
member_rows sabun s [] = []
member_rows sabun s (m ∷ ms) =
    let rest = member_rows sabun s ms in
    if str_eq m.member_id sabun
    then product_rows (left_join (current_affiliations sabun s.affiliations))
        (left_join (positions_of sabun s.positions))
      ++ rest
    else rest

-- `[r['position_code'] for r in rows if r['position_code']]`
unfoldable pub codes_of : List (Option Affiliation × Option Position) → List Position
codes_of [] = []
codes_of ((a, none) ∷ rows) = codes_of rows
codes_of ((a, some p) ∷ rows) = p ∷ codes_of rows

first_affiliation : List (Option Affiliation × Option Position) → Option Affiliation
first_affiliation [] = none
first_affiliation ((a, p) ∷ _) = a

unfoldable pub caller_rows : String → Store → List (Option Affiliation × Option Position)
unfolding member_rows
caller_rows sabun s = member_rows sabun s s.members

-- `_caller_ctx`
unfoldable pub caller_ctx : String → Store → Context
unfolding broadest codes_of first_affiliation caller_rows region_of district_of led_districts
    with_own
caller_ctx sabun s =
    let rows = caller_rows sabun s in
    let code = broadest (codes_of rows) in
    let here = region_of (first_affiliation rows) in
    let own = district_of (first_affiliation rows) in
    record {
      position_code = code;
      region_code = here;
      district_code = own;
      group_districts =
          if is_group_tier (tier_of? code)
          then with_own own (led_districts sabun here s.groups [])
          else [];
    }
