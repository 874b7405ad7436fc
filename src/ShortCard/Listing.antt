-- ===== src/ShortCard/Listing.antt =====
-- `list_short_cards`: the cards in the caller's scope, and the goals of the groups.
use ddochi_backend.Prelude.{
  String, Bool, Option, none, some, List, [], ◌∷◌, ◌++◌, map, not, ◌&&◌, if◌then◌else◌,
}
use ddochi_backend.Prelude.Text.{sql_eq, is_in}
use ddochi_backend.ShortCard.Tables.{
  Affiliation, DistrictGroup, SproutStatus, pending, approved, rejected, Card, Store,
  current_affiliations, left_join,
}
use ddochi_backend.ShortCard.Tiers.{
  Tier, global, region, group, district_all, district_general, no_tier, tier_of?, Context,
  caller_ctx,
}
use ddochi_backend.ShortCard.Stage.{Stage, journal_stage, can_decide_sprout as may_decide}
use ddochi_backend.ShortCard.Scope.{scope_sql}
use ddochi_backend.ShortCard.Decide.{is_pending}
use ddochi_backend.ShortCard.Goals.{GroupGoal, group_sprout_status}

pub record ListedCard : Type 0 where
  pub card : Card
  pub author_region : Option String
  pub author_district : Option String
  pub stage : Stage
  pub sprout_status_label : Option String
  pub can_decide_sprout : Bool

-- `_SPROUT_STATUS_KO`
abbrev pub sprout_status_ko : Option SproutStatus → Option String
sprout_status_ko none = none
sprout_status_ko (some pending) = some "떡잎 재가 대기"
sprout_status_ko (some approved) = some "떡잎 재가 완료"
sprout_status_ko (some rejected) = some "떡잎 반려"

abbrev region_in : Option Affiliation → Option String
region_in none = none
region_in (some a) = some a.region

abbrev district_in : Option Affiliation → Option String
district_in none = none
district_in (some a) = some a.district

unfoldable pub listed : Context → Card → Option Affiliation → ListedCard
listed ctx c a = record {
  card = c;
  author_region = region_in a;
  author_district = district_in a;
  stage = journal_stage c.cell c.sprout;
  sprout_status_label = sprout_status_ko c.sprout;
  can_decide_sprout = is_pending c.sprout && may_decide ctx (region_in a) (district_in a);
}

-- The WHERE clause of the query
unfoldable pub is_listed : Context → String → Store → Card → Bool
is_listed ctx sabun s c = not c.deleted && c.is_approved && scope_sql ctx s sabun c

-- The rows of the query, in the order of the cards (CREATED_AT DESC)
unfoldable pub listed_rows : Context → String → Store → List Card → List ListedCard
unfolding listed is_listed
listed_rows ctx sabun s [] = []
listed_rows ctx sabun s (c ∷ cs) =
    let rest = listed_rows ctx sabun s cs in
    if is_listed ctx sabun s c
    then map (listed ctx c) (left_join (current_affiliations c.member s.affiliations)) ++ rest
    else rest

-- `_led_group_ids`
unfoldable pub led_group_ids : String → List DistrictGroup → List String
led_group_ids sabun [] = []
led_group_ids sabun (g ∷ gs) =
    let rest = led_group_ids sabun gs in
    if sql_eq g.leader (some sabun) && not g.deleted then g.group_id ∷ rest else rest

keep_led : List String → List GroupGoal → List GroupGoal
keep_led ids [] = []
keep_led ids (g ∷ gs) =
    let rest = keep_led ids gs in if is_in g.group_id ids then g ∷ rest else rest

others_label : Tier → Option String
others_label global = some "전체의 밭"
others_label region = some "지역의 밭"
others_label group = some "반의 밭"
others_label district_all = some "구역의 밭"
others_label district_general = some "구역의 밭"
others_label no_tier = none

-- `[ctx['region_code']]` bound in `REGION_CODE IN (...)`: NULL matches nothing.
abbrev own_region : Option String → List String
own_region none = []
own_region (some r) = r ∷ []

goals_for : Tier → Context → String → Store → List GroupGoal
unfolding keep_led led_group_ids
goals_for global ctx sabun s = group_sprout_status s none
goals_for region ctx sabun s = group_sprout_status s (some (own_region ctx.region_code))
goals_for group ctx sabun s =
    keep_led (led_group_ids sabun s.groups)
      (group_sprout_status s (some (own_region ctx.region_code)))
goals_for district_all ctx sabun s = []
goals_for district_general ctx sabun s = []
goals_for no_tier ctx sabun s = []

pub record Listing : Type 0 where
  pub rows : List ListedCard
  pub others_label : Option String
  pub group_goals : List GroupGoal

-- The answer to a POST; any other method is refused with 405.
unfoldable pub list_short_cards : Bool → String → Store → Option Listing
unfolding listed_rows others_label goals_for
list_short_cards is_post sabun s =
    let ctx = caller_ctx sabun s in
    let t = tier_of? ctx.position_code in
    if not is_post
    then none
    else some (record {
      rows = listed_rows ctx sabun s s.cards;
      others_label = others_label t;
      group_goals = goals_for t ctx sabun s;
    })
