-- ===== src/ShortCard/Stage.antt =====
-- Stages of a short card's journal, and who may decide on a sprout (short_card.py).
use ddochi_backend.Prelude.{
  String, Bool, true, false, Option, none, some, List, [], ◌∷◌, not, ◌&&◌, if◌then◌else◌,
}
use ddochi_backend.Prelude.Text.{is_empty, same, is_in}
use ddochi_backend.ShortCard.Tables.{
  Column, age, gender, phone, school_major, environment, residence, relation, personality, hobby,
  has_partner, family_relation, desired_image, recent_concern, family_atmosphere, human_relations,
  SproutStatus, approved,
}
use ddochi_backend.ShortCard.Tiers.{
  Tier, global, region, group, tier_of?, no_sprout_decide, Context,
}

-- Python's truth of a nullable text
abbrev pub truthy : Option String → Bool
truthy none = false
truthy (some s) = not (is_empty s)

-- `all(row.get(k) for k in (...))`
unfoldable pub all_filled : List Column → (Column → Option String) → Bool
all_filled [] cell = true
all_filled (k ∷ ks) cell = truthy (cell k) && all_filled ks cell

abbrev pub stage1_fields : List Column
stage1_fields = gender ∷ age ∷ relation ∷ phone ∷ residence ∷ []

abbrev pub stage2_fields : List Column
stage2_fields =
    school_major ∷ personality ∷ hobby ∷ has_partner ∷ family_relation ∷ environment ∷ []

abbrev pub stage3_fields : List Column
stage3_fields = desired_image ∷ recent_concern ∷ family_atmosphere ∷ human_relations ∷ []

pub record Stages : Type 0 where
  pub s1 : Bool
  pub s2 : Bool
  pub s3 : Bool

-- `_stage3_complete`
unfoldable pub stage3_complete : (Column → Option String) → Stages
unfolding all_filled
stage3_complete cell =
    let s1 = all_filled stage1_fields cell in
    let s2 = s1 && all_filled stage2_fields cell in
    let s3 = s2 && all_filled stage3_fields cell in record { s1 = s1; s2 = s2; s3 = s3 }

-- 씨앗, 새싹, 떡잎
pub data Stage : Type 0 where
  seed bud cotyledon : Stage

abbrev pub is_approved_sprout : Option SproutStatus → Bool
is_approved_sprout (some approved) = true
is_approved_sprout _ = false

-- `_journal_stage`
unfoldable pub journal_stage : (Column → Option String) → Option SproutStatus → Stage
journal_stage cell sprout =
    let s2 = (stage3_complete cell).s2 in
    if s2 && is_approved_sprout sprout then cotyledon else if s2 then bud else seed

is_group : Tier → Bool
is_group group = true
is_group _ = false

abbrev pub is_in? : Option String → List String → Bool
is_in? none ds = false
is_in? (some d) ds = is_in d ds

abbrev pub decide_in_region : Tier → Option String → List String → Bool
decide_in_region region d ds = true
decide_in_region group d ds = is_in? d ds
decide_in_region _ d ds = false

abbrev pub decide_by_tier : Tier → Bool → Option String → List String → Bool
decide_by_tier global same_region d ds = true
decide_by_tier t same_region d ds = if not same_region then false else decide_in_region t d ds

-- `_can_decide_sprout`
unfoldable pub can_decide_sprout : Context → Option String → Option String → Bool
can_decide_sprout ctx card_region card_district =
    if no_sprout_decide ctx.position_code
    then false
    else decide_by_tier (tier_of? ctx.position_code) (same card_region ctx.region_code)
        card_district ctx.group_districts
