-- ===== src/ShortCard/Phones.antt =====
-- No two live cards share a telephone number, as far as submissions go.
use ddochi_backend.Prelude.{
  ◌≡◌, refl, ◌⊎◌, String, false, Option, none, some, List, [], ◌∷◌, arith, All, is_none, Bool-cases,
  Option-cases, inl, inr,
}
use ddochi_backend.Prelude.Text.{str_eq, is_empty, sql_eq}
use ddochi_backend.ShortCard.Tables.{Member, Card, Store, phone_normalized}
use ddochi_backend.ShortCard.Replies.{Request, text_field}
use ddochi_backend.ShortCard.Submit.{
  new_cell, phone_of, name_of, takes_phone, find_duplicate, insert_card, refuse_or_insert,
  submit_for, submit_short_card,
}

-- No card of the list is live and has the number.
abbrev pub IsFree : Option String → List Card → Type 0
IsFree p cs = All (λ d. d.deleted ≡ false → sql_eq (d.cell phone_normalized) p ≡ false) cs

-- A live card's number is not the number of another live card; NULL is no number.
abbrev pub UniquePhones : List Card → Type 0
UniquePhones [] = Unit
UniquePhones (c ∷ cs) = (c.deleted ≡ false → IsFree (c.cell phone_normalized) cs) × UniquePhones cs

-- The foreign key of SHORT_CARDS: every card's owner is in MEMBERS.
abbrev pub HasOwners : List Member → List Card → Type 0
HasOwners ms cs = All (λ c. is_none (name_of c.member ms) ≡ false) cs

find_duplicate-none :
    (p : Option String) (ms : List Member) (cs : List Card)
    → HasOwners ms cs
    → find_duplicate p ms cs ≡ none
    → IsFree p cs
unfolding find_duplicate takes_phone
find_duplicate-none p ms [] own h = tt
find_duplicate-none p ms (c ∷ cs) (o, own) h =
    ((λ live. ground arith), find_duplicate-none p ms cs own (ground arith))

-- The cards are as they were, or have one more, a live one whose number no live card had.
abbrev pub OneFresh : List Card → List Card → Type 0
OneFresh cs ds =
    (ds ≡ cs)
    ⊎ ((c : Card) × (ds ≡ c ∷ cs) × (c.deleted ≡ false) × IsFree (c.cell phone_normalized) cs)

submit_for_fresh :
    (new_id name : String) (r : Request) (s : Store) (o : Option String)
    → HasOwners s.members s.cards
    → OneFresh s.cards (submit_for new_id name r s o).1.cards
unfolding submit_for refuse_or_insert insert_card new_cell
submit_for_fresh new_id name r s none own = inl refl
submit_for_fresh new_id name r s (some guide) own =
    elim (Option-cases (find_duplicate (phone_of r.fields) s.members s.cards)) [
      | inl fresh ↦
          rw fresh (
            inr
              (_, refl, refl, find_duplicate-none (phone_of r.fields) s.members s.cards own fresh))
      | inr (dup, taken) ↦ rw taken (elim (Bool-cases (str_eq dup.0 guide)) [
        | inl mine ↦ rw mine (inl refl)
        | inr theirs ↦ rw theirs (inl refl)
      ])
    ]

-- A submission leaves the cards as they are or adds one live card whose telephone number is that of
-- no live card; every card's member exists.
pub submit-OneFresh :
    (new_id : String) (r : Request) (s : Store)
    → HasOwners s.members s.cards
    → OneFresh s.cards (submit_short_card new_id r s).1.cards
unfolding submit_short_card
submit-OneFresh new_id r s own = elim (Bool-cases r.is_post) [
  | inl post ↦ elim (Bool-cases (is_empty (text_field "name" r.fields))) [
    | inl unnamed ↦ simp (post, unnamed) (inl refl)
    | inr named ↦
        simp (post, named) (submit_for_fresh new_id (text_field "name" r.fields) r s _ own)
  ]
  | inr other ↦ simp other (inl refl)
]

-- A submission keeps the numbers of live cards distinct, where they are; every card's member exists.
pub submit-UniquePhones :
    (new_id : String) (r : Request) (s : Store)
    → HasOwners s.members s.cards
    → UniquePhones s.cards
    → UniquePhones (submit_short_card new_id r s).1.cards
submit-UniquePhones new_id r s own h = elim (submit-OneFresh new_id r s own) [
  | inl same ↦ rw same h
  | inr (c, more, live, free) ↦ rw more ((λ _. free), h)
]
