-- ===== src/ShortCard/Lifecycle.antt =====
-- The life of a sprout (none, waiting, approved, rejected): the moves of its status, and what
-- `decide_sprout` does to the rows. The other handlers and the reachable stores are below.
pub mod Saving
pub mod Reach
use mathlib.Core.Path.{subst}
use ddochi_backend.Prelude.{
  ◌≡◌, refl, sym, ◌∙◌, ap, String, Bool, true, false, Option, none, some, List, [], ◌∷◌, not, ◌&&◌,
  ◌||◌, arith, if◌then◌else◌, Bool-cases, Option-cases, is_none, inl, inr, All, ◌⊎◌,
}
use ddochi_backend.Prelude.Text.{str_eq, strip, text_or_empty, is_empty}
use ddochi_backend.ShortCard.Tables.{
  SproutStatus, pending, approved, rejected, Card, Store, card_key, find_card, find_live_card,
  find_card_of_live, update_card,
}
use ddochi_backend.ShortCard.Stage.{cotyledon, stage3_complete, journal_stage}
use ddochi_backend.ShortCard.Scope.{can_edit_journal}
use ddochi_backend.ShortCard.Replies.{Request, Reply, field?, text_field}
use ddochi_backend.ShortCard.Decide.{decision_of, decide_card, decide_sprout}
use ddochi_backend.ShortCard.Journal.{
  may_request, is_waiting, request_sprout, withdraw_sprout, write_fields, after_write,
  write_and_request, save_found, save_short_card_journal, any_given, field_map,
}
use ddochi_backend.ShortCard.Submit.{
  insert_card, refuse_or_insert, submit_for, submit_short_card, find_duplicate, phone_of,
}
use ddochi_backend.Prelude.Rows.{
  find_row, map_row, find_row-update_row, update_row-update_row, All-update_row, All-find_row,
}
use ddochi_backend.ShortCard.Authority.{
  Granted, request_key, is_decided, decide_sprout_sound, decide_sprout_complete,
  decide_sprout_refused,
}

abbrev pub stage2 : Card → Bool
stage2 c = (stage3_complete c.cell).s2

-- The moves of a sprout's status.
pub data Move : Option SproutStatus → Option SproutStatus → Type 0 where
  stay : (o : Option SproutStatus) → Move o o
  ask : Move none (some pending)
  ask_again : Move (some rejected) (some pending)
  withdraw : Move (some pending) none
  approve : Move (some pending) (some approved)
  reject : Move (some pending) (some rejected)

-- A card that waits for a decision has its journal filled up to stage 2.
abbrev pub IsReady : Card → Type 0
IsReady c = is_waiting c.sprout ≡ true → stage2 c ≡ true

-- A new version of a row
pub record Version (c c' : Card) : Type 0 where
  pub move : Move c.sprout c'.sprout
  pub ready : IsReady c'

-- What one operation does to the rows: nothing, a new row without a sprout, or a new version of
-- the row of one key.
pub data Change (cs cs' : List Card) : Type 0 where
  same_rows : cs' ≡ cs → Change cs cs'
  new_row :
      (c : Card) → c.sprout ≡ none → find_card c.card_id cs ≡ none → cs' ≡ c ∷ cs → Change cs cs'
  new_version :
      (k : String) (f : Card → Card)
      → ((c : Card) → (f c).card_id ≡ c.card_id)
      → ((c : Card) → find_card k cs ≡ some c → Version c (f c))
      → cs' ≡ update_card k f cs
      → Change cs cs'

decided_verdict :
    (t : String) (v : SproutStatus) → decision_of t ≡ some v → is_waiting (some v) ≡ false
unfolding decision_of
decided_verdict t v h = ground arith

decide-Move :
    (o : Option SproutStatus) (v : SproutStatus)
    → o ≡ some pending
    → is_waiting (some v) ≡ false
    → Move o (some v)
decide-Move (some pending) approved h n = approve
decide-Move (some pending) rejected h n = reject
decide-Move (some pending) pending h n = cc
decide-Move (some approved) v h n = cc
decide-Move (some rejected) v h n = cc
decide-Move none v h n = cc

waits :
    {r : Request} {s : Store} (g : Granted r s) (c : Card)
    → find_card (request_key r) s.cards ≡ some c
    → c.sprout ≡ some pending
waits {r} {s} g c found =
    let live = (find_card_of_live (request_key r) s.cards g.found).0 in
    let same : c ≡ g.card = ground arith in ap (λ d. d.sprout) same ∙ g.waiting

pub decide-Change : (r : Request) (s : Store) → Change s.cards (decide_sprout r s).1.cards
decide-Change r s = elim (Bool-cases (is_decided (decide_sprout r s).0)) [
  | inl granted ↦
      let g = decide_sprout_sound r s granted in
      let settled = decided_verdict _ g.verdict g.asked in
      new_version (request_key r) (decide_card g.verdict r.sabun) (λ c. refl)
        (λ c found. record {
          move = decide-Move c.sprout g.verdict (waits g c found) settled;
          ready = λ w. cc;
        })
        (ap (λ t. t.1.cards) (decide_sprout_complete r s g))
  | inr refused ↦ same_rows (ap (λ t. t.cards) (decide_sprout_refused r s refused))
]
