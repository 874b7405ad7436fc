-- ===== src/ShortCard/Tests.antt =====
-- The field-management theorems at concrete requests.
use ddochi_backend.Prelude.Text
use ddochi_backend.Prelude.Rows.{find_row}
use ddochi_backend.Prelude.{
  ◌≡◌, refl, String, true, false, none, some, List, [], ◌∷◌, ◌||◌, not, All, is_none, if◌then◌else◌,
}
use ddochi_backend.Prelude.Text.{str_eq, same, strip, split_on}
use ddochi_backend.ShortCard.Tables.{
  Position, group_lead, team_lead, region_clerk, general, Affiliation, Mapping, DistrictGroup,
  Member, pending, approved, Card, Store, find_card, find_live_card, current_affiliations,
}
use ddochi_backend.ShortCard.Tiers.{Context, caller_ctx, broadest, no_sprout_decide}
use ddochi_backend.ShortCard.Stage.{can_decide_sprout, stage3_complete, journal_stage, cotyledon}
use ddochi_backend.ShortCard.Scope.{
  scope_sql, in_scope, can_edit_journal, author_region, author_district,
}
use ddochi_backend.ShortCard.Replies.{Request, fail, journal}
use ddochi_backend.ShortCard.Decide.{decide_sprout, decision_of, decide_parsed, decide_found}
use ddochi_backend.ShortCard.Journal.{get_short_card_journal, save_short_card_journal}
use ddochi_backend.ShortCard.Submit.{submit_short_card, name_of}
use ddochi_backend.ShortCard.Goals.{goal_of, tally, sprout_rows, districts_of}
use ddochi_backend.ShortCard.Authority.{
  Granted, is_decided, request_key, decide_sprout_sound, decide_sprout_refused,
}
use ddochi_backend.ShortCard.Lifecycle.Reach.{
  save, here, next, AllReady, Moved, Reach-AllReady, approve-cotyledon, Step-Move,
}
use ddochi_backend.ShortCard.Visibility.{AtMostOne, get_journal_scope, unaffiliated_region_tier}
use ddochi_backend.ShortCard.Listing.{is_listed}
use ddochi_backend.ShortCard.Phones.{OneFresh, submit-OneFresh}
use ddochi_backend.ShortCard.Counting.{cotyledons_in_all, goal_sprouts}

abbrev lives : String → String → String → Affiliation
lives m r d = record { member = m; region = r; district = d; is_current = true }

abbrev holds : String → Position → Mapping
holds m p = record { member = m; position = p }

abbrev person : String → String → Member
person k n = record { member_id = k; name = n; deleted = false }

-- A card whose journal is filled, waiting for a decision
abbrev full_card : Card
full_card = record {
  card_id = "C1";
  member = "m1";
  name = "지인";
  cell = λ _. some "1";
  is_approved = true;
  sprout = some pending;
  decided_by = none;
  created_by = "m1";
  updated_by = "m1";
  deleted = false;
}

abbrev first_group : DistrictGroup
first_group = record {
  group_id = "G";
  region = "R";
  group_name = "1반";
  district_codes = "1,2";
  leader = some "m2";
  deleted = false;
}

-- `m1` wrote the card, `m2` leads the group of the districts 1 and 2, `m3` is a clerk.
abbrev town : Store
town = record {
  members = person "m1" "가" ∷ person "m2" "나" ∷ person "m3" "다" ∷ [];
  affiliations = lives "m1" "R" "1" ∷ lives "m2" "R" "2" ∷ lives "m3" "R" "1" ∷ [];
  positions =
      holds "m1" general
      ∷ holds "m2" general
      ∷ holds "m2" group_lead
      ∷ holds "m3" region_clerk
      ∷ [];
  groups = first_group ∷ [];
  cards = full_card ∷ [];
  sarang_phones = [];
}

abbrev approval : Request
approval = record {
  is_post = true;
  sabun = "m2";
  short_card_id = some " C1 ";
  status = some "재가";
  fields = [];
}

abbrev by_clerk : Request
by_clerk = record approval { sabun = "m3" }

approval_decided : is_decided (decide_sprout approval town).0 ≡ true
unfolding decide_sprout decide_parsed decide_found decision_of strip can_decide_sprout caller_ctx
    author_region author_district find_live_card find_row is_decided split_on
approval_decided = refl

decide_sprout_sound_example : Granted approval town
decide_sprout_sound_example = decide_sprout_sound approval town approval_decided

approval_found : find_live_card (request_key approval) town.cards ≡ some full_card
unfolding strip find_live_card find_row
approval_found = refl

approval_asked : decision_of (strip "재가") ≡ some approved
unfolding decision_of strip
approval_asked = refl

approval_named : Text.is_empty (request_key approval) ≡ false
unfolding strip
approval_named = refl

approval_permitted :
    can_decide_sprout
      (caller_ctx "m2" town)
      (author_region town full_card)
      (author_district town full_card)
    ≡ true
unfolding can_decide_sprout caller_ctx author_region author_district split_on strip
approval_permitted = refl

abbrev approval_granted : Granted approval town
approval_granted = record {
  card = full_card;
  verdict = approved;
  by_post = refl;
  named = approval_named;
  found = approval_found;
  asked = approval_asked;
  waiting = refl;
  permitted = approval_permitted;
}

clerk_refused : is_decided (decide_sprout by_clerk town).0 ≡ false
unfolding decide_sprout decide_parsed decide_found decision_of strip can_decide_sprout caller_ctx
    author_region author_district find_live_card find_row is_decided
clerk_refused = refl

decide_sprout_refused_example : (decide_sprout by_clerk town).1 ≡ town
decide_sprout_refused_example = decide_sprout_refused by_clerk town clerk_refused

abbrev leader : Context
leader = record {
  position_code = some group_lead;
  region_code = some "R";
  district_code = some "2";
  group_districts = "1" ∷ "2" ∷ [];
}

abbrev clear_hobby : Request
clear_hobby = record {
  is_post = true;
  sabun = "m1";
  short_card_id = some "C1";
  status = none;
  fields = ("hobby", none) ∷ [];
}

town_ready : AllReady town
unfolding stage3_complete
town_ready = ((λ h. refl), tt)

Reach-AllReady_example : AllReady (save_short_card_journal clear_hobby town).1
Reach-AllReady_example = Reach-AllReady town_ready (next here (save clear_hobby))

approve-cotyledon_example :
    (c : Card) × (find_card (request_key approval) (decide_sprout approval town).1.cards ≡ some c)
    × (journal_stage c.cell c.sprout ≡ cotyledon)
approve-cotyledon_example = approve-cotyledon approval town_ready here approval_granted refl

first_card : find_card "C1" town.cards ≡ some full_card
unfolding find_row
first_card = refl

Step-Move_example : Moved "C1" full_card (save_short_card_journal clear_hobby town).1.cards
Step-Move_example = Step-Move "C1" full_card (save clear_hobby) first_card

one_affiliation : str_eq "1" "__none__" ≡ false
one_affiliation = refl

abbrev read_card : Request
read_card = record approval { sabun = "m3"; short_card_id = some "C1" }

clerk_place :
    ((caller_ctx "m3" town).region_code ≡ some "R")
    × ((caller_ctx "m3" town).district_code ≡ some "1")
unfolding caller_ctx
clerk_place = (refl, refl)

live_card : find_live_card (strip "C1") town.cards ≡ some full_card
unfolding find_live_card find_row strip
live_card = refl

named_card : Text.is_empty (strip "C1") ≡ false
unfolding strip
named_card = refl

author_place : AtMostOne (current_affiliations "m1" town.affiliations)
unfolding current_affiliations
author_place = refl

get_journal_scope_example : get_short_card_journal read_card town ≡ (
    if str_eq full_card.member "m3" || is_listed (caller_ctx "m3" town) "m3" town full_card
    then journal full_card
        (journal_stage full_card.cell full_card.sprout)
        (str_eq full_card.member "m3" || can_edit_journal town "m3" full_card.member)
    else fail 403 "볼 수 없는 짧카예요")
get_journal_scope_example =
    get_journal_scope read_card town full_card refl named_card live_card refl author_place
      clerk_place.0 clerk_place.1

abbrev adrift : Context
adrift = record {
  position_code = some team_lead;
  region_code = none;
  district_code = none;
  group_districts = [];
}

abbrev foreign_card : Card
foreign_card = record full_card { member = "m9" }

no_affiliation : current_affiliations foreign_card.member town.affiliations ≡ []
unfolding current_affiliations
no_affiliation = refl

unaffiliated_region_tier_example :
    (in_scope adrift town "m8" foreign_card ≡ true)
    × (scope_sql adrift town "m8" foreign_card ≡ false)
    × (can_decide_sprout adrift none none ≡ not (no_sprout_decide adrift.position_code))
unaffiliated_region_tier_example =
    unaffiliated_region_tier adrift town "m8" foreign_card refl refl no_affiliation

abbrev jobs_held : List Position
jobs_held = general ∷ region_clerk ∷ group_lead ∷ []

broadest_held : broadest jobs_held ≡ some region_clerk
unfolding broadest
broadest_held = refl

abbrev new_friend : Request
new_friend = record {
  is_post = true;
  sabun = "m3";
  short_card_id = none;
  status = none;
  fields = ("name", some "벗") ∷ ("phone", some "010-1") ∷ [];
}

owners : All (λ c. is_none (name_of c.member town.members) ≡ false) town.cards
unfolding name_of
owners = (refl, tt)

submit-OneFresh_example : OneFresh town.cards (submit_short_card "C2" new_friend town).1.cards
submit-OneFresh_example = submit-OneFresh "C2" new_friend town owners

goal_sprouts_example :
    (goal_of town (tally [] (sprout_rows town)) first_group).sprouts
    ≡ cotyledons_in_all "R" (districts_of (split_on b',' "1,2")) (sprout_rows town)
goal_sprouts_example = goal_sprouts town first_group
