-- ===== src/ShortCard/Counting.antt =====
-- The number of sprouts that a group is shown is the number of cotyledons in its districts.
use text.Mathlib.TextEquality.{eq_iff}
use ddochi_backend.Prelude.{ℕ, ◌+◌, ◌≡◌, refl, String, List, [], ◌∷◌, ◌&&◌, arith, if◌then◌else◌}
use ddochi_backend.Prelude.Text.{str_eq, split_on}
use ddochi_backend.ShortCard.Tables.{DistrictGroup, Store}
use ddochi_backend.ShortCard.Stage.{journal_stage}
use ddochi_backend.ShortCard.Goals.{
  SproutRow, Counts, count_of, count_up, is_cotyledon, tally, sum_counts, districts_of, goal_of,
  sprout_rows,
}

-- The rows of cotyledons whose author lives in the district
abbrev pub cotyledons_in : String → String → List SproutRow → ℕ
cotyledons_in r d [] = 0
cotyledons_in r d (x ∷ xs) =
    (if is_cotyledon (journal_stage x.card.cell x.card.sprout)
        && str_eq x.region r
        && str_eq x.district d
      then 1
      else 0)
    + cotyledons_in r d xs

abbrev pub cotyledons_in_all : String → List String → List SproutRow → ℕ
cotyledons_in_all r [] xs = 0
cotyledons_in_all r (d ∷ ds) xs = cotyledons_in r d xs + cotyledons_in_all r ds xs

count_of-count_up :
    (r d r' d' : String) (m : Counts)
    → count_of r d (count_up r' d' m)
      ≡ (if str_eq r' r && str_eq d' d then 1 else 0) + count_of r d m
unfolding count_of count_up
count_of-count_up r d r' d' [] = ground arith
count_of-count_up r d r' d' ((r₁, d₁, n) ∷ m) = ground (
  arith,
  eq_iff r₁ r,
  eq_iff d₁ d,
  eq_iff r₁ r',
  eq_iff d₁ d',
  eq_iff r' r,
  eq_iff d' d,
  count_of-count_up r d r' d' m,
)

count_of-tally :
    (r d : String) (m : Counts) (xs : List SproutRow)
    → count_of r d (tally m xs) ≡ count_of r d m + cotyledons_in r d xs
unfolding tally
count_of-tally r d m [] = omega arith
count_of-tally r d m (x ∷ xs) = ground (
  arith,
  count_of-tally r d m xs,
  count_of-tally r d (count_up x.region x.district m) xs,
  count_of-count_up r d x.region x.district m,
)

sum_counts-tally :
    (r : String) (ds : List String) (xs : List SproutRow)
    → sum_counts r (tally [] xs) ds ≡ cotyledons_in_all r ds xs
unfolding sum_counts count_of
sum_counts-tally r [] xs = refl
sum_counts-tally r (d ∷ ds) xs = omega (arith, count_of-tally r d [] xs, sum_counts-tally r ds xs)

-- Each group's `sprouts` is, over the districts of its comma-separated list, the number of rows
-- whose card is a cotyledon and whose author lives in that region and district.
pub goal_sprouts :
    (s : Store) (g : DistrictGroup)
    → (goal_of s (tally [] (sprout_rows s)) g).sprouts
      ≡ cotyledons_in_all g.region (districts_of (split_on b',' g.district_codes)) (sprout_rows s)
unfolding goal_of
goal_sprouts s g = sum_counts-tally g.region _ (sprout_rows s)
