-- ===== src/ShortCard/Scope.antt =====
-- Which cards a caller sees: the WHERE clause of `_scope_sql` as a predicate on cards, and the
-- test of `get_short_card_journal`.
use ddochi_backend.Prelude.{
  String, Bool, true, false, Option, none, some, List, [], ◌∷◌, ◌&&◌, ◌||◌, any, if◌then◌else◌,
}
use ddochi_backend.Prelude.Text.{str_eq, same, sql_eq, is_in}
use ddochi_backend.ShortCard.Tables.{
  Position, general, area_lead, Affiliation, Card, Store, current_affiliations, positions_of,
}
use ddochi_backend.ShortCard.Tiers.{
  Tier, global, region, group, district_all, district_general, no_tier, tier_of?, Context,
}

abbrev is_general : Position → Bool
is_general general = true
is_general _ = false

abbrev is_area_lead : Position → Bool
is_area_lead area_lead = true
is_area_lead _ = false

-- The card's author holds the position `general`.
abbrev pub has_general : Store → String → Bool
has_general s m = any is_general (positions_of m s.positions)

-- MEMBER_ID IN (SELECT MEMBER_ID FROM MEMBER_AFFILIATION_HISTORIES WHERE REGION_CODE = :r ...)
abbrev pub in_region : Option String → Affiliation → Bool
in_region r a = sql_eq (some a.region) r

abbrev pub in_district : Option String → Option String → Affiliation → Bool
in_district r d a = sql_eq (some a.region) r && sql_eq (some a.district) d

-- DISTRICT_CODE IN (...); the list is `['__none__']` when the caller leads no district.
abbrev pub or_none_mark : List String → List String
or_none_mark [] = "__none__" ∷ []
or_none_mark (d ∷ ds) = d ∷ ds

abbrev pub in_group : Option String → List String → Affiliation → Bool
in_group r ds a = sql_eq (some a.region) r && is_in a.district (or_none_mark ds)

-- The rows that the WHERE clause of each tier keeps
abbrev pub scope_of_tier : Tier → Context → Store → String → Card → List Affiliation → Bool
scope_of_tier global ctx s sabun c here = true
scope_of_tier region ctx s sabun c here = any (in_region ctx.region_code) here
scope_of_tier group ctx s sabun c here = any (in_group ctx.region_code ctx.group_districts) here
scope_of_tier district_all ctx s sabun c here =
    any (in_district ctx.region_code ctx.district_code) here
scope_of_tier district_general ctx s sabun c here =
    str_eq c.member sabun
    || (any (in_district ctx.region_code ctx.district_code) here && has_general s c.member)
scope_of_tier no_tier ctx s sabun c here = str_eq c.member sabun

-- `_scope_sql`
unfoldable pub scope_sql : Context → Store → String → Card → Bool
scope_sql ctx s sabun c =
    scope_of_tier (tier_of? ctx.position_code) ctx s sabun c
      (current_affiliations c.member s.affiliations)

abbrev pub region_of_rows : List Affiliation → Option String
region_of_rows [] = none
region_of_rows (a ∷ _) = some a.region

abbrev pub district_of_rows : List Affiliation → Option String
district_of_rows [] = none
district_of_rows (a ∷ _) = some a.district

-- REGION_CODE and DISTRICT_CODE of a card's author, by the LEFT JOIN on the current affiliation
unfoldable pub author_region : Store → Card → Option String
author_region s c = region_of_rows (current_affiliations c.member s.affiliations)

unfoldable pub author_district : Store → Card → Option String
author_district s c = district_of_rows (current_affiliations c.member s.affiliations)

abbrev is_in? : Option String → List String → Bool
is_in? none ds = false
is_in? (some d) ds = is_in d ds

abbrev pub journal_scope :
    Tier → Context → Store → Card → (row_region row_district : Option String) → Bool
journal_scope global ctx s c r d = true
journal_scope region ctx s c r d = same r ctx.region_code
journal_scope group ctx s c r d = same r ctx.region_code && is_in? d ctx.group_districts
journal_scope district_all ctx s c r d = same r ctx.region_code && same d ctx.district_code
journal_scope district_general ctx s c r d =
    if same r ctx.region_code && same d ctx.district_code then has_general s c.member else false
journal_scope no_tier ctx s c r d = false

-- `in_scope` of `get_short_card_journal`
unfoldable pub in_scope : Context → Store → String → Card → Bool
unfolding author_region author_district
in_scope ctx s sabun c =
    str_eq c.member sabun
    || journal_scope (tier_of? ctx.position_code) ctx s c (author_region s c) (author_district s c)

-- The query of `_can_edit_journal`: some current affiliations of both in the same district, and
-- the caller is an area lead.
share_district : List Affiliation → List Affiliation → Bool
share_district [] au = false
share_district (me ∷ more) au =
    any (in_district (some me.region) (some me.district)) au || share_district more au

-- `_can_edit_journal`
unfoldable pub can_edit_journal : Store → String → String → Bool
unfolding share_district
can_edit_journal s sabun author =
    if str_eq author sabun
    then true
    else share_district (current_affiliations sabun s.affiliations)
        (current_affiliations author s.affiliations)
      && any is_area_lead (positions_of sabun s.positions)
