-- ===== src/ShortCard/Decide.antt =====
-- `decide_sprout`: the approval or the rejection of a sprout.
use Prim.Native.String
use ddochi_backend.Prelude.{String, Bool, true, false, Option, none, some, not, if◌then◌else◌}
use ddochi_backend.Prelude.Text.{str_eq, strip, is_empty, text_or_empty}
use ddochi_backend.ShortCard.Tables.{
  SproutStatus, pending, approved, rejected, Card, Store, find_live_card, update_card,
}
use ddochi_backend.ShortCard.Tiers.{caller_ctx}
use ddochi_backend.ShortCard.Stage.{can_decide_sprout}
use ddochi_backend.ShortCard.Scope.{author_region, author_district}
use ddochi_backend.ShortCard.Replies.{Request, Reply, fail, decided}

-- `{'재가': 'approved', '반려': 'rejected'}.get(...)`
unfoldable pub decision_of : String → Option SproutStatus
decision_of status =
    if str_eq status "재가" then some approved else if str_eq status "반려" then some rejected else none

abbrev pub is_pending : Option SproutStatus → Bool
is_pending (some pending) = true
is_pending _ = false

abbrev pub decide_card : SproutStatus → String → Card → Card
decide_card verdict sabun c = record c {
  sprout = some verdict;
  decided_by = some sabun;
  updated_by = sabun;
}

abbrev pub decided_text : SproutStatus → String → String
decided_text approved name = String.◌++◌ "🍀 " (String.◌++◌ name " 떡잎이 됐어요!")
decided_text _ name = String.◌++◌ name " 떡잎 재가를 반려했어요"

-- From the card that the query found to the end
unfoldable pub decide_found : Store → String → String → SproutStatus → Option Card → Reply × Store
decide_found s sabun k verdict none = (fail 404 "짧카를 찾을 수 없어요", s)
decide_found s sabun k verdict (some card) =
    if not (is_pending card.sprout)
    then (fail 400 "떡잎 재가 대기 중인 짧카가 아니에요", s)
    else if not
        (can_decide_sprout (caller_ctx sabun s) (author_region s card) (author_district s card))
    then (fail 403 "그 반의 반장 이상만 떡잎 재가를 할 수 있어요", s)
    else (
      decided (decided_text verdict card.name),
      record s { cards = update_card k (decide_card verdict sabun) s.cards },
    )

unfoldable pub decide_parsed : Store → String → String → Option SproutStatus → Reply × Store
decide_parsed s sabun k none = (fail 400 "shortCardId, status 필요", s)
decide_parsed s sabun k (some verdict) =
    if is_empty k
    then (fail 400 "shortCardId, status 필요", s)
    else decide_found s sabun k verdict (find_live_card k s.cards)

unfoldable pub decide_sprout : Request → Store → Reply × Store
decide_sprout r s =
    if not r.is_post
    then (fail 405 "method_not_allowed", s)
    else decide_parsed s r.sabun (strip (text_or_empty r.short_card_id))
        (decision_of (strip (text_or_empty r.status)))
