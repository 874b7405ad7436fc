-- ===== src/ShortCard/Lifecycle/Reach.antt =====
-- The stores that requests can lead to, and what holds in all of them.
use text.Mathlib.TextEquality.{eq_iff}
use ddochi_backend.Prelude.{
  ◌≡◌, refl, ◌∙◌, ap, String, true, false, none, some, List, [], ◌∷◌, arith, Bool-cases, inl, inr,
  All,
}
use ddochi_backend.Prelude.Text.{str_eq}
use ddochi_backend.ShortCard.Tables.{
  approved, Card, Store, card_key, find_card, find_card_of_live, update_card,
}
use ddochi_backend.ShortCard.Stage.{cotyledon, journal_stage}
use ddochi_backend.ShortCard.Replies.{Request}
use ddochi_backend.ShortCard.Decide.{decide_card, decide_sprout}
use ddochi_backend.ShortCard.Journal.{is_waiting, save_short_card_journal}
use ddochi_backend.ShortCard.Submit.{submit_short_card}
use ddochi_backend.Prelude.Rows.{
  find_row, map_row, find_row-update_row, find_row-update_row_ne, All-update_row, All-find_row,
}
use ddochi_backend.ShortCard.Authority.{Granted, request_key, decide_sprout_complete}
use ddochi_backend.ShortCard.Lifecycle.{
  stage2, IsReady, Move, stay, Change, same_rows, new_row, new_version, decide-Change,
}
use ddochi_backend.ShortCard.Lifecycle.Saving.{save-Change, submit-Change}

-- One request; `uuid4` gives an id that no row has.
pub data Step (s : Store) : Store → Type 0 where
  submit :
      (new_id : String) (r : Request)
      → find_card new_id s.cards ≡ none
      → Step s (submit_short_card new_id r s).1
  save : (r : Request) → Step s (save_short_card_journal r s).1
  decide : (r : Request) → Step s (decide_sprout r s).1

pub data Reach (s : Store) : Store → Type 0 where
  here : Reach s s
  next : {t u : Store} → Reach s t → Step t u → Reach s u

Step-Change : {s t : Store} → Step s t → Change s.cards t.cards
Step-Change {s} (submit k r fresh) = submit-Change r k s fresh
Step-Change {s} (save r) = save-Change r s
Step-Change {s} (decide r) = decide-Change r s

abbrev pub AllReady : Store → Type 0
AllReady s = All IsReady s.cards

Change-IsReady : {cs cs' : List Card} → Change cs cs' → All IsReady cs → All IsReady cs'
Change-IsReady (same_rows e) h = rw e h
Change-IsReady (new_row c e fresh e') h = rw e' ((λ w. cc), h)
Change-IsReady {cs} (new_version k f id version e) h =
    rw e (All-update_row card_key IsReady k f cs h (λ c found. (version c found).ready))

-- In every store that requests lead to from one where it holds, a card that waits for a decision
-- has its journal filled up to stage 2.
pub Reach-AllReady : {s t : Store} → AllReady s → Reach s t → AllReady t
Reach-AllReady h here = h
Reach-AllReady h (next r st) = Change-IsReady (Step-Change st) (Reach-AllReady h r)

-- Approving a sprout in a reachable store makes the card a cotyledon.
pub approve-cotyledon :
    {s t : Store} (r : Request)
    → AllReady s
    → Reach s t
    → (g : Granted r t) → g.verdict ≡ approved
    → (c : Card) × (find_card (request_key r) (decide_sprout r t).1.cards ≡ some c)
      × (journal_stage c.cell c.sprout ≡ cotyledon)
unfolding journal_stage
approve-cotyledon {s} {t} r h reach g e =
    let k = request_key r in
    let f = decide_card g.verdict r.sabun in
    let found = (find_card_of_live k t.cards g.found).0 in
    let waits : is_waiting g.card.sprout ≡ true = rw g.waiting in
    let full : stage2 g.card ≡ true =
      All-find_row card_key IsReady k t.cards (Reach-AllReady h reach) found waits in
    let stored : (decide_sprout r t).1.cards ≡ update_card k f t.cards =
      ap (λ x. x.1.cards) (decide_sprout_complete r t g) in
    let read : find_card k (update_card k f t.cards) ≡ some (f g.card) =
      find_row-update_row card_key k f t.cards (λ c. refl) ∙ ap (map_row f) found in
    (f g.card, ap (find_card k) stored ∙ read, rw (full, e))

find_card_id : (k : String) (cs : List Card) {c : Card} → find_card k cs ≡ some c → c.card_id ≡ k
unfolding find_row
find_card_id k [] found = cc
find_card_id k (d ∷ cs) {c} found = ground (arith, eq_iff d.card_id k, find_card_id k cs {c = c})

abbrev pub Moved : String → Card → List Card → Type 0
Moved k c cs = (c' : Card) × (find_card k cs ≡ some c') × Move c.sprout c'.sprout

Change-Move :
    {cs cs' : List Card} (k : String) (c : Card)
    → Change cs cs'
    → find_card k cs ≡ some c
    → Moved k c cs'
unfolding find_row
Change-Move k c (same_rows e) found = (c, ap (find_card k) e ∙ found, stay c.sprout)
Change-Move {cs} k c (new_row d e fresh e') found =
    let other : str_eq d.card_id k ≡ false = ground (arith, eq_iff d.card_id k) in
    (c, rw (e', other) found, stay c.sprout)
Change-Move {cs} k c (new_version j f id version e) found = elim (Bool-cases (str_eq j k)) [
  | inl hit ↦
      let key : j ≡ k = (eq_iff j k).0 hit in
      let found_j : find_card j cs ≡ some c = rw key found in
      let read : find_card j (update_card j f cs) ≡ some (f c) =
        find_row-update_row card_key j f cs id ∙ ap (map_row f) found_j in
      (f c, rw (e, ← key) read, (version c found_j).move)
  | inr miss ↦ (c, rw (e, find_row-update_row_ne card_key j k f cs id miss) found, stay c.sprout)
]

-- One request keeps every existing card and moves its status only along `Move`.
pub Step-Move :
    {s t : Store} (k : String) (c : Card)
    → Step s t
    → find_card k s.cards ≡ some c
    → Moved k c t.cards
Step-Move k c st found = Change-Move k c (Step-Change st) found
