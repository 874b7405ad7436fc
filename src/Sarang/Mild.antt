-- ===== src/Sarang/Mild.antt =====
-- The edits keep the order of the attempts and the single active cards.
use ddochi_backend.Prelude.{
  ◌≡◌, refl, ◌∙◌, String, Bool, true, false, Option, none, some, List, not, ◌||◌, arith,
  if◌then◌else◌,
}
use ddochi_backend.Prelude.Text.{
  str_eq, is_empty, strip, split_on, digits_of, prefix_of, text_or_empty,
}
use ddochi_backend.Prelude.Rows.{update_row}
use ddochi_backend.Sarang.Tables.{
  Sarang, HabJaeYang, Match, Store, card_key, update_where, is_active_of, active_card,
}
use ddochi_backend.Sarang.Attempts.{latest_open}
use ddochi_backend.Sarang.Results.{with_space}
use ddochi_backend.Sarang.Labels.{clean, trunc_chars}
use ddochi_backend.Sarang.Submit.{member_id_by_name}
use ddochi_backend.Sarang.Teacher.{
  put_teacher, teacher_name, teacher_columns, web_columns, assign_columns, assign_found,
  assign_teacher, card_for_short,
}
use ddochi_backend.Sarang.Editing.{
  edit_teacher, set_matched_at, set_scheduled_at, edit_date, first_part, second_part, set_guide,
  edit_guide, edit_sub_guide, edit_phone, edit_by_type, edit_found, edit_match, CardEdit,
  write_edit, edit_card_found, is_unlisted,
}
use ddochi_backend.Sarang.Ordering.{IsHistory, Keeps, update-InOrder, update-unique_matches}
use ddochi_backend.Sarang.Active.{one_active, Tame, row-one_active, where-one_active}

pub record Mild (s t : Store) : Type 0 where
  pub history : IsHistory s.matches → IsHistory t.matches
  pub active : one_active s.cards ≡ true → one_active t.cards ≡ true

pub Mild-refl : (s : Store) → Mild s s
Mild-refl s = record { history = λ h. h; active = λ h. h }

Mild-if :
    {A : Type 0} (b : Bool) (s : Store) (x y : A × Store)
    → Mild s x.1
    → Mild s y.1
    → Mild s (if b then x else y).1
Mild-if true s x y p q = p
Mild-if false s x y p q = q

-- An update of one card
card-Mild :
    (g : HabJaeYang → HabJaeYang) (i : String) (s : Store)
    → Tame g
    → Mild s (record s { cards = update_row card_key i g s.cards })
card-Mild g i s t = record { history = λ h. h; active = row-one_active g t i s.cards }

cards-Mild :
    (g : HabJaeYang → HabJaeYang) (k : String) (s : Store)
    → Tame g
    → Mild s (record s { cards = update_where (is_active_of k) g s.cards })
cards-Mild g k s t = record {
  history = λ h. h;
  active = where-one_active g t (is_active_of k) s.cards;
}

teacher-Mild :
    (raw card_id : String) (s : Store) (o : Option (Option String × Option String))
    → Mild s (edit_teacher raw card_id s o).1
unfolding edit_teacher
teacher-Mild raw card_id s none = Mild-refl s
teacher-Mild raw card_id s (some (id, other)) =
    card-Mild (put_teacher (id, other)) card_id s
      (record { owner = λ c. refl; tame = λ c. ground arith })

date-Mild : (t card_id : String) (s : Store) (o : Option Match) → Mild s (edit_date t card_id s o)
unfolding edit_date
date-Mild t card_id s none =
    card-Mild (set_scheduled_at t) card_id s
      (record { owner = λ c. refl; tame = λ c. ground arith })
date-Mild t card_id s (some m) =
    let kept : Keeps (set_matched_at t) = record {
      id = λ m. refl;
      owner = λ m. refl;
      degree = λ m. refl;
      attempt = λ m. refl;
      shut = λ m h. h;
    } in
    record {
      history = λ h. record {
        unique = update-unique_matches (set_matched_at t) kept m.match_id s.matches ∙ h.unique;
        ordered = update-InOrder (set_matched_at t) kept m.match_id s.matches h.ordered;
      };
      active = λ h. h;
    }

guide-Mild :
    (name card_id : String) (s : Store) (o : Option String) → Mild s (edit_guide name card_id s o).1
unfolding edit_guide
guide-Mild name card_id s none = Mild-refl s
guide-Mild name card_id s (some id) =
    card-Mild (set_guide id) card_id s (record { owner = λ c. refl; tame = λ c. ground arith })

sarang-Mild : (s : Store) (xs : List Sarang) → Mild s (record s { sarangs = xs })
sarang-Mild s xs = record { history = λ h. h; active = λ h. h }

sub_guide-Mild :
    (k card_id : String) (s : Store) (parts : List String)
    → Mild s (edit_sub_guide k card_id s parts).1
unfolding edit_sub_guide
sub_guide-Mild k card_id s parts =
    Mild-if (not (is_empty (first_part parts))) s _ _ (sarang-Mild s _) (
      Mild-if (not (is_empty (second_part parts))) s _ _
        (guide-Mild (second_part parts) card_id s
          (member_id_by_name (some (second_part parts)) s.members))
        (Mild-refl s))

phone-Mild : (k raw : String) (s : Store) → Mild s (edit_phone k raw s).1
unfolding edit_phone
phone-Mild k raw s = Mild-if (is_empty (digits_of raw)) s _ _ (Mild-refl s) (sarang-Mild s _)

type-Mild :
    (k edit_type : String) (value : Option String) (s : Store) (c : HabJaeYang)
    → Mild s (edit_by_type k edit_type value s c).1
unfolding edit_by_type
type-Mild k edit_type value s c =
    let raw = strip (text_or_empty value) in
    Mild-if (str_eq edit_type "teacher") s _ _
      (teacher-Mild raw c.hab_jae_yang_id s (web_columns raw s.members))
      (Mild-if (str_eq edit_type "date") s _ _
        (date-Mild (prefix_of 16 (with_space (text_or_empty value))) c.hab_jae_yang_id s
          (latest_open k s.matches))
        (Mild-if (str_eq edit_type "subGuide") s _ _
          (sub_guide-Mild k c.hab_jae_yang_id s (split_on b',' (text_or_empty value)))
          (Mild-if (str_eq edit_type "gender") s _ _ (sarang-Mild s _) (
            Mild-if (str_eq edit_type "age") s _ _ (sarang-Mild s _) (
              Mild-if (str_eq edit_type "residence") s _ _ (sarang-Mild s _) (
                Mild-if (str_eq edit_type "phone") s _ _ (phone-Mild k raw s) (
                  Mild-if (str_eq edit_type "path") s _ _
                    (cards-Mild (λ d. record d { route = trunc_chars 50 (clean value) }) k s
                      (record { owner = λ c. refl; tame = λ c. ground arith }))
                    (Mild-if (str_eq edit_type "tool") s _ _
                      (cards-Mild (λ d. record d { tool = trunc_chars 50 (clean value) }) k s
                        (record { owner = λ c. refl; tame = λ c. ground arith }))
                      (Mild-refl s)))))))))

found-Mild :
    (k edit_type : String) (value : Option String) (s : Store) (o : Option HabJaeYang)
    → Mild s (edit_found k edit_type value s o).1
unfolding edit_found
found-Mild k edit_type value s none = Mild-refl s
found-Mild k edit_type value s (some c) = type-Mild k edit_type value s c

pub edit-Mild :
    (is_post : Bool) (row_index edit_type value : Option String) (s : Store)
    → Mild s (edit_match is_post row_index edit_type value s).1
unfolding edit_match
edit-Mild is_post row_index edit_type value s =
    let k = strip (text_or_empty row_index) in
    Mild-if (not is_post) s _ _ (Mild-refl s) (
      Mild-if (is_empty k || is_empty (text_or_empty edit_type)) s _ _ (Mild-refl s)
        (found-Mild k (text_or_empty edit_type) value s (active_card k s.cards)))

pub data-Mild :
    (k : String) (e : CardEdit) (s : Store) (o : Option HabJaeYang)
    → Mild s (edit_card_found k e s o).1
unfolding edit_card_found
data-Mild k e s none = Mild-refl s
data-Mild k e s (some c) =
    let g =
      write_edit e (member_id_by_name e.guide s.members) (member_id_by_name e.tm_name s.members) in
    let tame : Tame g = record { owner = λ d. refl; tame = λ d. ground arith } in
    Mild-if (is_unlisted e.guide s.members) s _ _ (Mild-refl s) (
      Mild-if (is_unlisted e.tm_name s.members) s _ _ (Mild-refl s)
        (record { history = λ h. h; active = row-one_active g tame c.hab_jae_yang_id s.cards }))

columns-Mild :
    (card_id : String) (s : Store) (o : Option (Option String × Option String))
    → Mild s (assign_columns card_id s o).1
unfolding assign_columns
columns-Mild card_id s none = Mild-refl s
columns-Mild card_id s (some (id, other)) =
    card-Mild (put_teacher (id, other)) card_id s
      (record { owner = λ c. refl; tame = λ c. ground arith })

columns_agree :
    (raw card_id : String) (s : Store) (o : Option (Option String × Option String))
    → (assign_columns card_id s o).1 ≡ (edit_teacher raw card_id s o).1
unfolding assign_columns edit_teacher
columns_agree raw card_id s none = refl
columns_agree raw card_id s (some columns) = refl

assign_found-Mild :
    (raw : String) (s : Store) (o : Option HabJaeYang) → Mild s (assign_found raw s o).1
unfolding assign_found
assign_found-Mild raw s none = Mild-refl s
assign_found-Mild raw s (some c) =
    Mild-if (is_empty (teacher_name raw)) s _ _ (Mild-refl s)
      (columns-Mild c.hab_jae_yang_id s (teacher_columns raw s.members))

pub assign-Mild :
    (short : String) (raw : Option String) (s : Store) → Mild s (assign_teacher short raw s).1
unfolding assign_teacher
assign-Mild short raw s = assign_found-Mild (strip (text_or_empty raw)) s (card_for_short short s)

-- Where a name is given, the bot's command writes the teacher that the web's form writes for the
-- same text into the same card.
pub teacher_as_web :
    (k raw : String) (s : Store) (c : HabJaeYang)
    → is_empty (teacher_name (strip raw)) ≡ false
    → (assign_found (strip raw) s (some c)).1 ≡ (edit_found k "teacher" (some raw) s (some c)).1
unfolding assign_found edit_found edit_by_type web_columns
teacher_as_web k raw s c named =
    rw named (columns_agree (strip raw) c.hab_jae_yang_id s (teacher_columns (strip raw) s.members))
