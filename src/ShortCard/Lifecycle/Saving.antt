-- ===== src/ShortCard/Lifecycle/Saving.antt =====
-- What `save_short_card_journal` and `submit_short_card` do to the rows.
use mathlib.Core.Path.{subst}
use ddochi_backend.Prelude.{
  ◌≡◌, refl, String, true, false, Option, none, some, List, not, ◌&&◌, ◌||◌, arith, Bool-cases,
  Option-cases, is_none, inl, inr,
}
use ddochi_backend.Prelude.Text.{str_eq, is_empty}
use ddochi_backend.ShortCard.Tables.{
  SproutStatus, pending, approved, rejected, Card, Store, card_key, find_card, find_live_card,
  update_card,
}
use ddochi_backend.ShortCard.Scope.{can_edit_journal}
use ddochi_backend.ShortCard.Replies.{Request, field?, text_field}
use ddochi_backend.ShortCard.Journal.{
  may_request, is_waiting, request_sprout, withdraw_sprout, write_fields, after_write,
  write_and_request, save_found, save_short_card_journal, any_given, field_map,
}
use ddochi_backend.ShortCard.Submit.{
  insert_card, refuse_or_insert, submit_for, submit_short_card, find_duplicate, phone_of,
}
use ddochi_backend.Prelude.Rows.{map_row, find_row-update_row, update_row-update_row}
use ddochi_backend.ShortCard.Authority.{request_key}
use ddochi_backend.ShortCard.Lifecycle.{
  stage2, Move, stay, ask, ask_again, withdraw, Version, Change, same_rows, new_row, new_version,
}

ask-Move : (o : Option SproutStatus) → may_request o ≡ true → Move o (some pending)
ask-Move none h = ask
ask-Move (some rejected) h = ask_again
ask-Move (some pending) h = cc
ask-Move (some approved) h = cc

withdraw-Move : (o : Option SproutStatus) → is_waiting o ≡ true → Move o none
withdraw-Move (some pending) h = withdraw
withdraw-Move (some approved) h = cc
withdraw-Move (some rejected) h = cc
withdraw-Move none h = cc

-- The card after the first UPDATE of `save_short_card_journal`
module _ (r : Request) where
  abbrev written : Card → Card
  written = write_fields r.fields r.sabun

  written_id : (c : Card) → (written c).card_id ≡ c.card_id
  unfolding write_fields
  written_id c = refl

  written_sprout : (c : Card) → (written c).sprout ≡ c.sprout
  unfolding write_fields
  written_sprout c = refl

  abbrev written_cards : String → Store → List Card
  written_cards k s = update_card k written s.cards

  asked-Version :
      (c : Card)
      → (stage2 (written c) && may_request (written c).sprout) ≡ true
      → Version c (request_sprout (written c))
  asked-Version c full = record {
    move = ask-Move c.sprout (rw (← written_sprout c) (ground arith));
    ready = λ w. ground arith;
  }

  withdrawn-Version :
      (c : Card)
      → (not (stage2 (written c)) && is_waiting (written c).sprout) ≡ true
      → Version c (withdraw_sprout (written c))
  withdrawn-Version c short = record {
    move = withdraw-Move c.sprout (rw (← written_sprout c) (ground arith));
    ready = λ w. cc;
  }

  kept-Version :
      (c : Card)
      → (not (stage2 (written c)) && is_waiting (written c).sprout) ≡ false
      → Version c (written c)
  kept-Version c kept = record {
    move = rw (written_sprout c) (stay c.sprout);
    ready = λ w. ground arith;
  }

  only_row :
      (k : String) (s : Store) (f : Card → Card) (c : Card)
      → find_card k s.cards ≡ some c
      → Version c (f c)
      → (d : Card) → find_card k s.cards ≡ some d
      → Version d (f d)
  only_row k s f c e v d found =
      let same : c ≡ d = ground arith in subst (λ x. Version x (f x)) same v

  -- The second half of the handler, by what it reads back
  after_write-Change :
      (k : String) (s : Store) (o : Option Card)
      → find_card k s.cards ≡ o
      → Change s.cards
          (after_write k (record s { cards = written_cards k s }) (map_row written o)).1.cards
  unfolding after_write
  after_write-Change k s none e = new_version k written written_id (λ d found. cc) refl
  after_write-Change k s (some c) e =
      elim (Bool-cases (stage2 (written c) && may_request (written c).sprout)) [
        | inl full ↦ rw full (
            new_version k (λ d. request_sprout (written d)) written_id
              (only_row k s (λ d. request_sprout (written d)) c e (asked-Version c full))
              (update_row-update_row card_key k written request_sprout s.cards written_id))
        | inr no_request ↦
            elim (Bool-cases (not (stage2 (written c)) && is_waiting (written c).sprout)) [
              | inl short ↦
                  rw (no_request, short)
                    (new_version k (λ d. withdraw_sprout (written d)) written_id
                      (only_row k s (λ d. withdraw_sprout (written d)) c e
                        (withdrawn-Version c short))
                      (update_row-update_row card_key k written withdraw_sprout s.cards written_id))
              | inr kept ↦
                  rw (no_request, kept)
                    (new_version k written written_id
                      (only_row k s written c e (kept-Version c kept)) refl)
            ]
      ]

  write-Change : (k : String) (s : Store) → Change s.cards (write_and_request r k s).1.cards
  unfolding write_and_request
  write-Change k s =
      let given = any_given field_map r.fields || not (is_none (field? "phone" r.fields)) in
      let read_back = find_row-update_row card_key k written s.cards written_id in
      elim (Bool-cases given) [
        | inl some_given ↦
            rw (some_given, read_back) (after_write-Change k s (find_card k s.cards) refl)
        | inr none_given ↦ rw none_given (same_rows refl)
      ]

  save_found-Change :
      (k : String) (s : Store) (o : Option Card) → Change s.cards (save_found r k s o).1.cards
  unfolding save_found
  save_found-Change k s none = same_rows refl
  save_found-Change k s (some card) = elim (Bool-cases (can_edit_journal s r.sabun card.member)) [
    | inl editor ↦ rw editor (write-Change k s)
    | inr stranger ↦ rw stranger (same_rows refl)
  ]

  pub save-Change : (s : Store) → Change s.cards (save_short_card_journal r s).1.cards
  unfolding save_short_card_journal
  save-Change s = elim (Bool-cases r.is_post) [
    | inl post ↦ elim (Bool-cases (is_empty (request_key r))) [
      | inl unnamed ↦ rw (post, unnamed) (same_rows refl)
      | inr named ↦
          simp (post, named)
            (save_found-Change (request_key r) s (find_live_card (request_key r) s.cards))
    ]
    | inr other ↦ rw other (same_rows refl)
  ]

  submit_for-Change :
      (new_id name : String) (s : Store) (o : Option String)
      → find_card new_id s.cards ≡ none
      → Change s.cards (submit_for new_id name r s o).1.cards
  unfolding submit_for refuse_or_insert insert_card
  submit_for-Change new_id name s none fresh_id = same_rows refl
  submit_for-Change new_id name s (some guide) fresh_id =
      elim (Option-cases (find_duplicate (phone_of r.fields) s.members s.cards)) [
        | inl fresh ↦ rw fresh (new_row _ refl fresh_id refl)
        | inr (dup, taken) ↦ rw taken (elim (Bool-cases (str_eq dup.0 guide)) [
          | inl own ↦ rw own (same_rows refl)
          | inr foreign ↦ rw foreign (same_rows refl)
        ])
      ]

  pub submit-Change :
      (new_id : String) (s : Store)
      → find_card new_id s.cards ≡ none
      → Change s.cards (submit_short_card new_id r s).1.cards
  unfolding submit_short_card
  submit-Change new_id s fresh_id =
      let name = text_field "name" r.fields in
      let guide_name = text_field "guideName" r.fields in
      elim (Bool-cases r.is_post) [
        | inl post ↦ elim (Bool-cases (is_empty name)) [
          | inl unnamed ↦ rw (post, unnamed) (same_rows refl)
          | inr named ↦ simp (post, named) (submit_for-Change new_id name s _ fresh_id)
        ]
        | inr other ↦ rw other (same_rows refl)
      ]
