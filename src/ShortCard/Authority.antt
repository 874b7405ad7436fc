-- ===== src/ShortCard/Authority.antt =====
-- Who can decide on a sprout, and what a decision changes.
use ddochi_backend.Prelude.{
  ◌≡◌, refl, String, Bool, true, false, Option, none, some, not, ◌&&◌, ◌||◌, arith,
}
use ddochi_backend.Prelude.Text.{same, strip, text_or_empty, is_empty}
use ddochi_backend.ShortCard.Tables.{
  SproutStatus, pending, Card, Store, find_live_card, update_card,
}
use ddochi_backend.ShortCard.Tiers.{
  Tier, global, region, group, tier_of?, no_sprout_decide, Context, caller_ctx,
}
use ddochi_backend.ShortCard.Stage.{can_decide_sprout, is_in?}
use ddochi_backend.ShortCard.Scope.{author_region, author_district}
use ddochi_backend.ShortCard.Replies.{Request, Reply, decided}
use ddochi_backend.ShortCard.Decide.{
  decision_of, decide_card, decided_text, decide_found, decide_parsed, decide_sprout,
}

abbrev pub request_key : Request → String
request_key r = strip (text_or_empty r.short_card_id)

abbrev pub request_verdict : Request → Option SproutStatus
request_verdict r = decision_of (strip (text_or_empty r.status))

-- What a granted decision rests on.
pub record Granted (r : Request) (s : Store) : Type 0 where
  pub card : Card
  pub verdict : SproutStatus
  pub by_post : r.is_post ≡ true
  pub named : is_empty (request_key r) ≡ false
  pub found : find_live_card (request_key r) s.cards ≡ some card
  pub asked : request_verdict r ≡ some verdict
  pub waiting : card.sprout ≡ some pending
  pub permitted :
      can_decide_sprout (caller_ctx r.sabun s) (author_region s card) (author_district s card)
      ≡ true

-- The store after a granted decision
abbrev pub with_decision : (r : Request) (s : Store) → SproutStatus → Store
with_decision r s v = record s {
  cards = update_card (request_key r) (decide_card v r.sabun) s.cards;
}

abbrev pub is_global : Tier → Bool
is_global global = true
is_global _ = false

abbrev pub is_region : Tier → Bool
is_region region = true
is_region _ = false

abbrev pub is_group : Tier → Bool
is_group group = true
is_group _ = false

unfoldable pub is_decided : Reply → Bool
is_decided (decided _) = true
is_decided _ = false

module _ (s : Store) (sabun k : String) (v : SproutStatus) where
  abbrev permits : Card → Bool
  permits c = can_decide_sprout (caller_ctx sabun s) (author_region s c) (author_district s c)

  decide_found_granted :
      (c : Card)
      → c.sprout ≡ some pending
      → permits c ≡ true
      → decide_found s sabun k v (some c) ≡ (
        decided (decided_text v c.name),
        record s { cards = update_card k (decide_card v sabun) s.cards },
      )
  unfolding decide_found
  decide_found_granted c w p = ground arith

  decide_found_sound :
      (o : Option Card)
      → is_decided (decide_found s sabun k v o).0 ≡ true
      → (c : Card) × (o ≡ some c) × (c.sprout ≡ some pending) × (permits c ≡ true)
  unfolding decide_found is_decided
  decide_found_sound none h = cc
  decide_found_sound (some c) h = (c, refl, ground arith, ground arith)

  decide_found_refused :
      (o : Option Card)
      → is_decided (decide_found s sabun k v o).0 ≡ false
      → (decide_found s sabun k v o).1 ≡ s
  unfolding decide_found is_decided
  decide_found_refused none h = refl
  decide_found_refused (some c) h = ground arith

decide_parsed_sound :
    (s : Store) (sabun k : String) (o : Option SproutStatus)
    → is_decided (decide_parsed s sabun k o).0 ≡ true
    → (v : SproutStatus) × (o ≡ some v)
      × (is_empty k ≡ false)
      × (is_decided (decide_found s sabun k v (find_live_card k s.cards)).0 ≡ true)
unfolding decide_parsed is_decided
decide_parsed_sound s sabun k none h = cc
decide_parsed_sound s sabun k (some v) h = (v, refl, ground arith, ground arith)

-- A decision is made only if the method is POST, the card is live and waits for a decision, the
-- verdict is 재가 or 반려, and the caller may decide in the author's region and district.
pub decide_sprout_sound :
    (r : Request) (s : Store) → is_decided (decide_sprout r s).0 ≡ true → Granted r s
unfolding decide_sprout is_decided
decide_sprout_sound r s h =
    let post : r.is_post ≡ true = ground arith in
    let (v, asked, named, later) =
      decide_parsed_sound s r.sabun (request_key r) (request_verdict r) (rw post at h) in
    let (c, found, waiting, permitted) =
      decide_found_sound s r.sabun (request_key r) v (find_live_card (request_key r) s.cards)
        later in
    record {
      card = c;
      verdict = v;
      by_post = post;
      named = named;
      found = found;
      asked = asked;
      waiting = waiting;
      permitted = permitted;
    }

-- Where all of that holds, the decision is made: exactly that card's row gets the verdict.
pub decide_sprout_complete :
    (r : Request) (s : Store) (g : Granted r s)
    → decide_sprout r s
      ≡ (decided (decided_text g.verdict g.card.name), with_decision r s g.verdict)
unfolding decide_sprout decide_parsed
decide_sprout_complete r s g =
    rw (g.by_post, g.asked, g.named, g.found)
      (decide_found_granted s r.sabun (request_key r) g.verdict g.card g.waiting g.permitted)

decide_parsed_refused :
    (s : Store) (sabun k : String) (o : Option SproutStatus)
    → is_decided (decide_parsed s sabun k o).0 ≡ false
    → (decide_parsed s sabun k o).1 ≡ s
unfolding decide_parsed
decide_parsed_refused s sabun k none h = refl
decide_parsed_refused s sabun k (some v) h =
    ground (arith, decide_found_refused s sabun k v (find_live_card k s.cards))

-- A request that is refused changes nothing.
pub decide_sprout_refused :
    (r : Request) (s : Store) → is_decided (decide_sprout r s).0 ≡ false → (decide_sprout r s).1 ≡ s
unfolding decide_sprout
decide_sprout_refused r s h =
    ground (arith, decide_parsed_refused s r.sabun (request_key r) (request_verdict r))

-- Who may decide: never a region clerk or a region mission clerk; a global position always;
-- otherwise only in the caller's own region, at the region tier, or at the group tier for a
-- district that the caller leads.
pub can_decide_iff :
    (ctx : Context) (r d : Option String)
    → can_decide_sprout ctx r d ≡ (
        not (no_sprout_decide ctx.position_code)
        && (is_global (tier_of? ctx.position_code)
            || (same r ctx.region_code
                && (is_region (tier_of? ctx.position_code)
                    || (is_group (tier_of? ctx.position_code) && is_in? d ctx.group_districts)))))
unfolding can_decide_sprout
can_decide_iff ctx r d = ground arith
