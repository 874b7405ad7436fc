-- ===== src/Sarang/Active.antt =====
-- A prospect has at most one active card: what an update of cards keeps.
use ddochi_backend.Prelude.{
  ◌≡◌, refl, String, Bool, true, false, none, List, [], ◌∷◌, not, ◌&&◌, ◌||◌, arith,
}
use ddochi_backend.Prelude.Rows.{update_row}
use ddochi_backend.Sarang.Tables.{
  HabJaeYang, card_key, is_active_of, active_card, first_where, update_where,
}

unfoldable pub has_active : String → List HabJaeYang → Bool
has_active k [] = false
has_active k (c ∷ cs) = is_active_of k c || has_active k cs

unfoldable pub one_active : List HabJaeYang → Bool
unfolding has_active
one_active [] = true
one_active (c ∷ cs) = not (c.is_active && has_active c.sarang_id cs) && one_active cs

pub active_card-has_active :
    (k : String) (cs : List HabJaeYang) → active_card k cs ≡ none → has_active k cs ≡ false
unfolding active_card first_where has_active
active_card-has_active k [] h = refl
active_card-has_active k (c ∷ cs) h = ground (arith, active_card-has_active k cs)

-- An update that keeps the owner and activates nothing
pub record Tame (g : HabJaeYang → HabJaeYang) : Type 0 where
  pub owner : (c : HabJaeYang) → (g c).sarang_id ≡ c.sarang_id
  pub tame : (c : HabJaeYang) → ((g c).is_active && not c.is_active) ≡ false

module _ (g : HabJaeYang → HabJaeYang) (t : Tame g) where
  row-has_active :
      (i k : String) (cs : List HabJaeYang)
      → has_active k cs ≡ false
      → has_active k (update_row card_key i g cs) ≡ false
  unfolding update_row has_active
  row-has_active i k [] h = refl
  row-has_active i k (c ∷ cs) h = ground (arith, t.owner c, t.tame c, row-has_active i k cs)

  pub row-one_active :
      (i : String) (cs : List HabJaeYang)
      → one_active cs ≡ true
      → one_active (update_row card_key i g cs) ≡ true
  unfolding update_row one_active
  row-one_active i [] h = refl
  row-one_active i (c ∷ cs) h =
      ground (arith, t.owner c, t.tame c, row-one_active i cs, row-has_active i c.sarang_id cs)

  where-has_active :
      (f : HabJaeYang → Bool) (k : String) (cs : List HabJaeYang)
      → has_active k cs ≡ false
      → has_active k (update_where f g cs) ≡ false
  unfolding update_where has_active
  where-has_active f k [] h = refl
  where-has_active f k (c ∷ cs) h = ground (arith, t.owner c, t.tame c, where-has_active f k cs)

  pub where-one_active :
      (f : HabJaeYang → Bool) (cs : List HabJaeYang)
      → one_active cs ≡ true
      → one_active (update_where f g cs) ≡ true
  unfolding update_where one_active
  where-one_active f [] h = refl
  where-one_active f (c ∷ cs) h =
      ground (arith, t.owner c, t.tame c, where-one_active f cs, where-has_active f c.sarang_id cs)
