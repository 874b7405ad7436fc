-- ===== src/Sarang/Tapping.antt =====
-- Taps on the buttons agree with the web's forms and with the keyboard.
use ddochi_backend.Prelude.{
  ◌≡◌, refl, sym, ap, ◌∙◌, not, if◌then◌else◌, ℕ, zero, suc, String, Bool, true, false, Option,
  none, some, List, [], ◌∷◌, ◌&&◌, ◌||◌, inl, inr, Bool-cases, Option-cases, is_none, All, arith,
}
use mathlib.Core.Path.{subst}
use text.Mathlib.TextEquality.{eq_iff}
use ddochi_backend.Prelude.Outcome.{Outcome, ok, raise}
use ddochi_backend.Prelude.Text.{str_eq, prefix_of}
use ddochi_backend.Prelude.Int.{digits_value}
use ddochi_backend.Prelude.Rows.{map_row, find_row, find_row-update_row}
use ddochi_backend.Sarang.Tables.{
  approval, Sarang, MatchResult, ApprovalStatus, pending, approved, rejected, HabJaeYang, Match,
  MemberRow, Store, sarang_key, card_key, first_where, active_card,
}
use ddochi_backend.Pairing.Bearer.{drop_prefix}
use ddochi_backend.Sarang.Attempts.{is_later, latest_where, has_attempt}
use ddochi_backend.Sarang.Approval.{
  set_stage, decide_card, first_attempt, write_approval, set_habjaeyang_approval, approve_found,
}
use ddochi_backend.Sarang.Lifecycle.{active_card-owner}
use ddochi_backend.Sarang.Results.{
  without_icon, find_reason, result_named, record_match_result, recorded_reply, status_named,
  update_match_status,
}
use ddochi_backend.Sarang.Taps.{
  Tapped, is_digits, nth, numbered, tail_of, decision_row, build_hj_keyboard, hj_code, approve_by,
  resolve_actor, linked, or_inflow, inflow_of, partition_dot,
}
use ddochi_backend.Sarang.ResultTaps.{
  sub_reasons, give_reason, reason_code, is_shown, is_open_short, find_open, postpone_open,
  other_code, by_letter, result_code, result_for, handle_callback,
}

-- A reason of the bot has the web's result and reason.
Agrees : MatchResult → String × String → Type 0
Agrees r (label, sub) = result_named (without_icon label) ≡ some (r, some sub)

All-nth :
    {A : Type 0} (P : A → Type 0) (xs : List A) (n : ℕ) (a : A) → All P xs → nth xs n ≡ some a → P a
unfolding nth
All-nth P [] n a all h = absurd (ground arith)
All-nth P (x ∷ xs) zero a (p, all) h = subst P (ground arith) p
All-nth P (x ∷ xs) (suc n) a (p, all) h = All-nth P xs n a all h

All-numbered :
    {A : Type 0} (P : A → Type 0) (xs : List A) (n : ℕ) (a : A)
    → All P xs
    → numbered xs n ≡ some a
    → P a
All-numbered P xs zero a all h = absurd (ground arith)
All-numbered P xs (suc n) a all h = All-nth P xs n a all h

AgreeIn : Option (MatchResult × List (String × String)) → Type 0
AgreeIn none = Unit
AgreeIn (some (r, reasons)) = All (Agrees r) reasons

reasons_agree : (letter : String) → AgreeIn (sub_reasons letter)
unfolding AgreeIn Agrees result_named without_icon drop_prefix find_reason
reasons_agree letter = elim (Bool-cases (str_eq letter "C")) [
  | inl c ↦ rw c (refl, (refl, (refl, (refl, tt))))
  | inr not_c ↦ elim (Bool-cases (str_eq letter "U")) [
    | inl u ↦ rw (not_c, u) (refl, (refl, (refl, (refl, tt))))
    | inr not_u ↦ elim (Bool-cases (str_eq letter "X")) [
      | inl x ↦ rw (not_c, not_u, x) (refl, (refl, tt))
      | inr not_x ↦ rw (not_c, not_u, not_x) tt
    ]
  ]
]

reason_agrees :
    (letter : String) (r : MatchResult) (reasons : List (String × String)) (n : ℕ)
    (label sub : String)
    → sub_reasons letter ≡ some (r, reasons)
    → numbered reasons n ≡ some (label, sub)
    → result_named (without_icon label) ≡ some (r, some sub)
unfolding AgreeIn Agrees
reason_agrees letter r reasons n label sub h at =
    All-numbered (Agrees r) reasons n (label, sub) (subst AgreeIn h (reasons_agree letter)) at

recorded_store : (said : String) (p : Bool × Store) → (recorded_reply said p).1 ≡ p.1
recorded_store said (true, s) = refl
recorded_store said (false, s) = refl

-- A tap on a button with a reason writes what the web's form writes for the label of that button.
pub reason_as_web :
    (letter c k label sub : String) (s : Store) (r : MatchResult) (reasons : List (String × String))
    → sub_reasons letter ≡ some (r, reasons)
    → numbered reasons (digits_value (tail_of c)) ≡ some (label, sub)
    → (reason_code k c s (r, reasons)).1 ≡ (update_match_status k label s).1
unfolding update_match_status status_named give_reason
reason_as_web letter c k label sub s r reasons h at =
    rw (at, reason_agrees letter r reasons (digits_value (tail_of c)) label sub h at)
      (sym (recorded_store "결과가 입력됐어!" (record_match_result k r (some sub) s)))

-- The keyboard has a button with the code.
unfoldable pub offers : String → List (List (String × String)) → Bool
offers c [] = false
offers c ([] ∷ rows) = offers c rows
offers c (((_, d) ∷ more) ∷ rows) = str_eq d c || offers c (more ∷ rows)

row_ready :
    (ready : Bool) (v : ApprovalStatus)
    → offers "a" (decision_row ready v ∷ []) ≡ true
    → (ready ≡ true) × (v ≡ pending)
unfolding offers
row_ready true pending h = (refl, refl)
row_ready false pending h = absurd (ground arith)
row_ready ready approved h = absurd (ground arith)
row_ready ready rejected h = absurd (ground arith)

some_attempt :
    (k id now : String) (c : HabJaeYang) (ms : List Match)
    → c.sarang_id ≡ k
    → has_attempt k (if not (has_attempt k ms) then first_attempt id now c ∷ ms else ms) ≡ true
unfolding has_attempt
some_attempt k id now c ms owner = elim (Bool-cases (has_attempt k ms)) [
  | inl e ↦ rw (e, e) refl
  | inr e ↦ rw (e, (eq_iff c.sarang_id k).1 owner) refl
]

-- A keyboard offers the approval only where the prospect has replied, the window is open and
-- nothing is decided, and where it does, a tap on it by someone who is known approves: the card has
-- the approval and no reason, the prospect, if there is one, is at the stage of approval, and has
-- an attempt. The card's id is the key of its row.
pub offered_approve :
    (new_id : ℕ → String) (now actor k : String) (s : Store) (c : HabJaeYang)
    → active_card k s.cards ≡ some c
    → find_row card_key c.hab_jae_yang_id s.cards ≡ some c
    → offers "a" (build_hj_keyboard c) ≡ true
    → let after = hj_code new_id now (some actor) k "a" s in
      (c.has_replied ≡ true)
      × (c.is_window_opened ≡ true)
      × (c.approval_status ≡ pending)
      × (after.0 ≡ some "🎉 재가 완료!")
      × (find_row card_key c.hab_jae_yang_id after.1.cards ≡ some (decide_card approved none c))
      × (find_row sarang_key k after.1.sarangs
          ≡ map_row (set_stage approval) (find_row sarang_key k s.sarangs))
      × (has_attempt k after.1.matches ≡ true)
unfolding offers build_hj_keyboard hj_code approve_by set_habjaeyang_approval approve_found
    prefix_of write_approval
offered_approve new_id now actor k s c e key h =
    let (ready, open_) = row_ready (c.has_replied && c.is_window_opened) c.approval_status h in
    let answered : c.has_replied ≡ true = ground arith in
    let opened : c.is_window_opened ≡ true = ground arith in
    let decided =
      find_row-update_row card_key c.hab_jae_yang_id (decide_card approved none) s.cards (λ _. refl)
      ∙ ap (map_row (decide_card approved none)) key in
    let tapped : hj_code new_id now (some actor) k "a" s
        ≡ (some "🎉 재가 완료!", write_approval new_id now actor k approved none c s) =
      rw (e, answered, opened) refl in
    rw tapped (
      answered,
      opened,
      open_,
      refl,
      decided,
      find_row-update_row sarang_key k (set_stage approval) s.sarangs (λ _. refl),
      some_attempt k (new_id 1) now c s.matches (active_card-owner k s.cards c e),
    )

open_short_listed :
    (short : String) (xs : List Sarang) (m : Match)
    → is_open_short short xs m ≡ true
    → is_none (first_where (is_shown m.sarang_id) xs) ≡ false
unfolding is_open_short
open_short_listed short xs m h = ground arith

latest_where-holds :
    (f : Match → Bool) (ms : List Match) (m : Match) → latest_where f ms ≡ some m → f m ≡ true
unfolding latest_where
latest_where-holds f [] m h = absurd (ground arith)
latest_where-holds f (n ∷ ms) m h = elim (Bool-cases (f n)) [
  | inr e ↦ latest_where-holds f ms m (rw e at h)
  | inl e ↦ elim (Option-cases (latest_where f ms)) [
    | inl nothing ↦ let same : n ≡ m = ground arith in subst (λ x. f x ≡ true) same e
    | inr (p, there) ↦ elim (Bool-cases (is_later p n)) [
      | inl beyond ↦
          let same : p ≡ m = ground arith in
          subst (λ x. f x ≡ true) same (latest_where-holds f ms p there)
      | inr not_beyond ↦ let same : n ≡ m = ground arith in subst (λ x. f x ≡ true) same e
    ]
  ]
]

listed-find_row :
    (id : String) (xs : List Sarang)
    → is_none (first_where (is_shown id) xs) ≡ false
    → is_none (find_row sarang_key id xs) ≡ false
unfolding first_where find_row
listed-find_row id [] h = h
listed-find_row id (x ∷ xs) h = ground (arith, listed-find_row id xs)

inflow_some : (o : Option Sarang) → is_none o ≡ false → is_none (inflow_of o) ≡ false
inflow_some none h = h
inflow_some (some x) h = refl

actor_known :
    (o : Option MemberRow) (k : String) (xs : List Sarang)
    → is_none (find_row sarang_key k xs) ≡ false
    → is_none (or_inflow o k xs) ≡ false
actor_known none k xs h = inflow_some (find_row sarang_key k xs) h
actor_known (some m) k xs h = refl

unfoldable pub returns : Outcome Tapped → Bool
returns (ok t) = true
returns (raise e) = false

other-returns :
    (new_id : ℕ → String) (actor : Option String) (k c : String) (s : Store)
    → is_none actor ≡ false
    → returns (other_code new_id actor k c s) ≡ true
unfolding returns other_code postpone_open
other-returns new_id none k c s h = absurd (ground arith)
other-returns new_id (some actor) k c s h = ground arith

letter-returns :
    (new_id : ℕ → String) (actor : Option String) (k c : String) (s : Store)
    (o : Option (MatchResult × List (String × String)))
    → is_none actor ≡ false
    → returns (by_letter new_id actor k c s o) ≡ true
unfolding returns by_letter
letter-returns new_id actor k c s none h = other-returns new_id actor k c s h
letter-returns new_id actor k c s (some (r, reasons)) h =
    elim (Bool-cases (is_digits (tail_of c))) [
      | inl e ↦ rw e refl
      | inr e ↦ rw e (other-returns new_id actor k c s h)
    ]

code-returns :
    (new_id : ℕ → String) (actor : Option String) (k c : String) (s : Store)
    → is_none actor ≡ false
    → returns (result_code new_id actor k c s) ≡ true
unfolding returns result_code
code-returns new_id actor k c s h = elim (Bool-cases (str_eq c "b")) [
  | inl e ↦ rw e refl
  | inr not_b ↦ elim (Bool-cases (str_eq c "W")) [
    | inl e ↦ rw (not_b, e) refl
    | inr not_w ↦ elim (Bool-cases (is_none (sub_reasons c))) [
      | inl e ↦
          rw (not_b, not_w, e) (letter-returns new_id actor k c s (sub_reasons (prefix_of 1 c)) h)
      | inr e ↦ rw (not_b, not_w, e) refl
    ]
  ]
]

result-returns :
    (new_id : ℕ → String) (telegram_id : Option String) (short c : String) (s : Store)
    (o : Option Match)
    → find_open short s ≡ o
    → returns (result_for new_id telegram_id c s o) ≡ true
unfolding returns result_for find_open resolve_actor
result-returns new_id telegram_id short c s none e = refl
result-returns new_id telegram_id short c s (some m) e =
    let open_ = latest_where-holds (is_open_short short s.sarangs) s.matches m e in
    let known = listed-find_row m.sarang_id s.sarangs (open_short_listed short s.sarangs m open_) in
    code-returns new_id (or_inflow (linked telegram_id s.members) m.sarang_id s.sarangs) m.sarang_id
      c s (actor_known (linked telegram_id s.members) m.sarang_id s.sarangs known)

-- A tap on a button for a result never fails for want of an actor: each open attempt that the
-- bot finds has a prospect, and so someone who stands behind it.
pub handle_callback-returns :
    (new_id : ℕ → String) (telegram_id : Option String) (args : String) (s : Store)
    → returns (handle_callback new_id telegram_id args s) ≡ true
unfolding handle_callback
handle_callback-returns new_id telegram_id args s =
    result-returns new_id telegram_id (partition_dot args).0 (partition_dot args).1 s
      (find_open (partition_dot args).0 s) refl
