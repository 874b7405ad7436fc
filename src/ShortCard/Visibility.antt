-- ===== src/ShortCard/Visibility.antt =====
-- The list and the journal of one card show the same cards, and where they do not.
use ddochi_backend.Prelude.{
  ◌≡◌, refl, String, true, false, none, some, List, [], ◌∷◌, not, ◌||◌, arith, if◌then◌else◌,
}
use ddochi_backend.Prelude.Text.{str_eq, is_in, strip, text_or_empty, is_empty}
use ddochi_backend.ShortCard.Tables.{
  Affiliation, Card, Store, current_affiliations, find_live_card, find_card_of_live,
}
use ddochi_backend.ShortCard.Tiers.{
  Tier, global, region, group, district_all, district_general, no_tier, tier_of?, no_sprout_decide,
  Context, caller_ctx,
}
use ddochi_backend.ShortCard.Stage.{journal_stage, can_decide_sprout}
use ddochi_backend.ShortCard.Scope.{
  scope_of_tier, scope_sql, journal_scope, in_scope, region_of_rows, district_of_rows,
  can_edit_journal, or_none_mark,
}
use ddochi_backend.ShortCard.Listing.{is_listed}
use ddochi_backend.ShortCard.Replies.{Request, fail, journal}
use ddochi_backend.ShortCard.Journal.{found_journal, get_short_card_journal}

-- The author has one current affiliation at most, and its district is not called `__none__`.
abbrev pub AtMostOne : List Affiliation → Type 0
AtMostOne [] = Unit
AtMostOne (a ∷ []) = str_eq a.district "__none__" ≡ false
AtMostOne (a ∷ b ∷ _) = ⊥

is_in-or_none_mark :
    (d : String) (ds : List String)
    → str_eq d "__none__" ≡ false
    → is_in d (or_none_mark ds) ≡ is_in d ds
is_in-or_none_mark d [] h = rw h
is_in-or_none_mark d (e ∷ ds) h = refl

module _ (ctx : Context) (s : Store) (sabun : String) (c : Card) where
  scopes_agree :
      (t : Tier) (rows : List Affiliation) {r d : String}
      → AtMostOne rows
      → ctx.region_code ≡ some r
      → ctx.district_code ≡ some d
      → (str_eq c.member sabun
          || journal_scope t ctx s c (region_of_rows rows) (district_of_rows rows))
        ≡ (str_eq c.member sabun || scope_of_tier t ctx s sabun c rows)
  scopes_agree global rows one er ed = refl
  scopes_agree region [] one er ed = ground arith
  scopes_agree region (a ∷ []) one er ed = ground arith
  scopes_agree region (a ∷ b ∷ rows) one er ed = absurd one
  scopes_agree group [] one er ed = ground arith
  scopes_agree group (a ∷ []) one er ed =
      ground (arith, is_in-or_none_mark a.district ctx.group_districts)
  scopes_agree group (a ∷ b ∷ rows) one er ed = absurd one
  scopes_agree district_all [] one er ed = ground arith
  scopes_agree district_all (a ∷ []) one er ed = ground arith
  scopes_agree district_all (a ∷ b ∷ rows) one er ed = absurd one
  scopes_agree district_general [] one er ed = ground arith
  scopes_agree district_general (a ∷ []) one er ed = ground arith
  scopes_agree district_general (a ∷ b ∷ rows) one er ed = absurd one
  scopes_agree no_tier rows one er ed = ground arith

  pub in_scope-scope_sql :
      {r d : String}
      → AtMostOne (current_affiliations c.member s.affiliations)
      → ctx.region_code ≡ some r
      → ctx.district_code ≡ some d
      → in_scope ctx s sabun c ≡ (str_eq c.member sabun || scope_sql ctx s sabun c)
  unfolding in_scope scope_sql
  in_scope-scope_sql one er ed =
      scopes_agree (tier_of? ctx.position_code) (current_affiliations c.member s.affiliations) one
        er ed

-- A caller with a current affiliation who posts a request for the journal of a live approved card
-- gets it exactly if the card is the caller's own or the list's query keeps it for the caller;
-- otherwise the answer is 403. The card's author has at most one current affiliation, in a district
-- that is not called __none__.
pub get_journal_scope :
    (r : Request) (s : Store) (c : Card) {here own : String}
    → r.is_post ≡ true
    → is_empty (strip (text_or_empty r.short_card_id)) ≡ false
    → find_live_card (strip (text_or_empty r.short_card_id)) s.cards ≡ some c
    → c.is_approved ≡ true
    → AtMostOne (current_affiliations c.member s.affiliations)
    → (caller_ctx r.sabun s).region_code ≡ some here
    → (caller_ctx r.sabun s).district_code ≡ some own
    → get_short_card_journal r s ≡ (
        if str_eq c.member r.sabun || is_listed (caller_ctx r.sabun s) r.sabun s c
        then journal c
            (journal_stage c.cell c.sprout)
            (str_eq c.member r.sabun || can_edit_journal s r.sabun c.member)
        else fail 403 "볼 수 없는 짧카예요")
unfolding get_short_card_journal found_journal is_listed
get_journal_scope r s c post named found shown one er ed =
    let live : c.deleted ≡ false =
      (find_card_of_live (strip (text_or_empty r.short_card_id)) s.cards found).1 in
    simp (post, named, found, shown, live)
      (ground (arith, in_scope-scope_sql (caller_ctx r.sabun s) s r.sabun c one er ed))

-- A caller of the region tier without a current affiliation sees the journal of every author
-- without one (None equals None), and may decide on the sprouts of such authors unless the
-- position is a clerk's, though the list of cards shows none of them.
pub unaffiliated_region_tier :
    (ctx : Context) (s : Store) (sabun : String) (c : Card)
    → tier_of? ctx.position_code ≡ region
    → ctx.region_code ≡ none
    → current_affiliations c.member s.affiliations ≡ []
    → (in_scope ctx s sabun c ≡ true)
      × (scope_sql ctx s sabun c ≡ false)
      × (can_decide_sprout ctx none none ≡ not (no_sprout_decide ctx.position_code))
unfolding in_scope scope_sql can_decide_sprout
unaffiliated_region_tier ctx s sabun c t none_here none_there =
    (ground arith, ground arith, ground arith)
