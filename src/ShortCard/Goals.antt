-- ===== src/ShortCard/Goals.antt =====
-- `group_sprout_status`: how many sprouts each group of districts has.
use Prim.Native.Nat.{Ordering}
use Prim.Native.Char.{code}
use Prim.Native.String.{compare}
use ddochi_backend.Prelude.{
  ℕ, zero, suc, ◌+◌, ◌-◌, ◌*◌, String, Bool, true, false, Option, none, some, List, [], ◌∷◌, ◌++◌,
  map, not, ◌&&◌, ltb, ◌==◌, if◌then◌else◌,
}
use ddochi_backend.Prelude.Text.{str_eq, is_empty, is_in, split_on, digits_of}
use ddochi_backend.ShortCard.Tables.{
  Affiliation, DistrictGroup, Member, Card, Store, current_affiliations,
}
use ddochi_backend.ShortCard.Stage.{Stage, cotyledon, journal_stage, is_approved_sprout}
use ddochi_backend.ShortCard.Submit.{name_of}

-- `int(digits or 0)`
number_from : ℕ → String → ℕ
number_from n String.[] = n
number_from n (String.◌∷◌ c s) = number_from (n * 10 + (code c - b'0')) s

unfoldable pub group_number : DistrictGroup → ℕ
unfolding number_from digits_of
group_number g = number_from 0 (digits_of g.group_name)

-- a < b of Python on texts
abbrev pub str_lt : String → String → Bool
str_lt a b = elim (compare a b) [ Ordering.lt ↦ true | _ ↦ false ]

-- The sort key (region_code, number in the name, group_name), compared as a tuple
unfoldable pub key_lt : DistrictGroup → DistrictGroup → Bool
unfolding group_number
key_lt a b =
    if not (str_eq a.region b.region)
    then str_lt a.region b.region
    else if not (group_number a == group_number b)
    then ltb (group_number a) (group_number b)
    else str_lt a.group_name b.group_name

insert_group : DistrictGroup → List DistrictGroup → List DistrictGroup
unfolding key_lt
insert_group g [] = g ∷ []
insert_group g (h ∷ hs) = if key_lt h g then h ∷ insert_group g hs else g ∷ h ∷ hs

-- `groups.sort(key=...)`
unfoldable pub sort_groups : List DistrictGroup → List DistrictGroup
unfolding insert_group
sort_groups [] = []
sort_groups (g ∷ gs) = insert_group g (sort_groups gs)

-- `region_codes`: None for all regions
abbrev in_regions : Option (List String) → String → Bool
in_regions none r = true
in_regions (some rs) r = is_in r rs

unfoldable pub live_groups : Option (List String) → List DistrictGroup → List DistrictGroup
live_groups rs [] = []
live_groups rs (g ∷ gs) =
    if not g.deleted && in_regions rs g.region then g ∷ live_groups rs gs else live_groups rs gs

-- A row of SHORT_CARDS JOIN MEMBER_AFFILIATION_HISTORIES
pub record SproutRow : Type 0 where
  pub card : Card
  pub region : String
  pub district : String

abbrev row_of : Card → Affiliation → SproutRow
row_of c a = record { card = c; region = a.region; district = a.district }

-- DELETED_AT IS NULL AND APPROVAL_STATUS = 'approved' AND SPROUT_STATUS = 'approved'
abbrev is_counted : Card → Bool
is_counted c = not c.deleted && c.is_approved && is_approved_sprout c.sprout

unfoldable pub joined_rows : List Affiliation → List Card → List SproutRow
unfolding current_affiliations
joined_rows as_ [] = []
joined_rows as_ (c ∷ cs) =
    let rest = joined_rows as_ cs in
    if is_counted c then map (row_of c) (current_affiliations c.member as_) ++ rest else rest

-- The first `n` rows: `fetch_limit`
first_rows : ℕ → List SproutRow → List SproutRow
first_rows zero rs = []
first_rows (suc n) [] = []
first_rows (suc n) (r ∷ rs) = r ∷ first_rows n rs

unfoldable pub sprout_rows : Store → List SproutRow
unfolding joined_rows first_rows
sprout_rows s = first_rows 5000 (joined_rows s.affiliations s.cards)

-- The dictionary `sprouts`, keyed by (region, district)
abbrev pub Counts : Type 0
Counts = List (String × String × ℕ)

unfoldable pub count_of : String → String → Counts → ℕ
count_of r d [] = 0
count_of r d ((r', d', n) ∷ m) = if str_eq r' r && str_eq d' d then n else count_of r d m

-- `sprouts[key] = sprouts.get(key, 0) + 1`
unfoldable pub count_up : String → String → Counts → Counts
count_up r d [] = (r, d, 1) ∷ []
count_up r d ((r', d', n) ∷ m) =
    if str_eq r' r && str_eq d' d then (r', d', n + 1) ∷ m else (r', d', n) ∷ count_up r d m

abbrev pub is_cotyledon : Stage → Bool
is_cotyledon cotyledon = true
is_cotyledon _ = false

unfoldable pub tally : Counts → List SproutRow → Counts
unfolding count_up
tally m [] = m
tally m (r ∷ rs) =
    tally
      (if is_cotyledon (journal_stage r.card.cell r.card.sprout)
        then count_up r.region r.district m
        else m)
      rs

unfoldable pub districts_of : List String → List String
districts_of [] = []
districts_of (d ∷ ds) = if is_empty d then districts_of ds else d ∷ districts_of ds

unfoldable pub sum_counts : String → Counts → List String → ℕ
unfolding count_of
sum_counts r m [] = 0
sum_counts r m (d ∷ ds) = count_of r d m + sum_counts r m ds

abbrev pub group_sprout_goal : ℕ
group_sprout_goal = 5

pub record GroupGoal : Type 0 where
  pub group_id : String
  pub region : String
  pub name : String
  pub districts : List String
  pub leader_name : Option String
  pub goal : ℕ
  pub sprouts : ℕ

leader_name_of : Option String → List Member → Option String
leader_name_of none ms = none
leader_name_of (some l) ms = name_of l ms

unfoldable pub goal_of : Store → Counts → DistrictGroup → GroupGoal
unfolding leader_name_of districts_of sum_counts split_on
goal_of s m g =
    let ds = districts_of (split_on b',' g.district_codes) in
    record {
      group_id = g.group_id;
      region = g.region;
      name = g.group_name;
      districts = ds;
      leader_name = leader_name_of g.leader s.members;
      goal = group_sprout_goal;
      sprouts = sum_counts g.region m ds;
    }

-- `group_sprout_status`
unfoldable pub group_sprout_status : Store → Option (List String) → List GroupGoal
unfolding live_groups sort_groups tally sprout_rows
group_sprout_status s rs =
    map (goal_of s (tally [] (sprout_rows s))) (sort_groups (live_groups rs s.groups))
