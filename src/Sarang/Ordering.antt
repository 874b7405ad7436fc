-- ===== src/Sarang/Ordering.antt =====
-- The attempts of a prospect descend in number, newest first, and only the newest can be open.
use text.Mathlib.TextEquality.{eq_iff}
use mathlib.Core.Path.{subst}
use ddochi_backend.Prelude.{
  ◌≡◌, refl, sym, String, Bool, true, false, none, some, List, [], ◌∷◌, ◌&&◌, inl, inr, Bool-cases,
  Option-cases, is_none, arith, All,
}
use ddochi_backend.Prelude.Text.{str_eq}
use ddochi_backend.Prelude.Rows.{find_row, update_row, All-update_row, All-find_row}
use ddochi_backend.Sarang.Tables.{Match, match_key}
use ddochi_backend.Sarang.Attempts.{is_open_of, is_later, latest_where, has_attempt}

-- The row is later than the other rows of its prospect, and these are closed.
abbrev pub Precedes : Match → Match → Type 0
Precedes m n =
    str_eq n.sarang_id m.sarang_id ≡ true → (is_later m n ≡ true) × (is_none n.result ≡ false)

abbrev pub IsNewest : Match → List Match → Type 0
IsNewest m ms = All (Precedes m) ms

abbrev pub InOrder : List Match → Type 0
InOrder [] = Unit
InOrder (m ∷ ms) = IsNewest m ms × InOrder ms

-- MATCH_ID is the primary key.
unfoldable pub unique_matches : List Match → Bool
unique_matches [] = true
unique_matches (m ∷ ms) = is_none (find_row match_key m.match_id ms) && unique_matches ms

-- An update that closes the row and leaves its prospect, number and id
pub record Closes (g : Match → Match) : Type 0 where
  pub id : (m : Match) → (g m).match_id ≡ m.match_id
  pub owner : (m : Match) → (g m).sarang_id ≡ m.sarang_id
  pub degree : (m : Match) → (g m).match_degree ≡ m.match_degree
  pub attempt : (m : Match) → (g m).attempt_count ≡ m.attempt_count
  pub closed : (m : Match) → is_none (g m).result ≡ false

-- An update that leaves these, and opens nothing
pub record Keeps (g : Match → Match) : Type 0 where
  pub id : (m : Match) → (g m).match_id ≡ m.match_id
  pub owner : (m : Match) → (g m).sarang_id ≡ m.sarang_id
  pub degree : (m : Match) → (g m).match_degree ≡ m.match_degree
  pub attempt : (m : Match) → (g m).attempt_count ≡ m.attempt_count
  pub shut : (m : Match) → is_none m.result ≡ false → is_none (g m).result ≡ false

pub Closes-Keeps : {g : Match → Match} → Closes g → Keeps g
Closes-Keeps c = record {
  id = c.id;
  owner = c.owner;
  degree = c.degree;
  attempt = c.attempt;
  shut = λ m h. c.closed m;
}

module _ (g : Match → Match) (c : Keeps g) (i : String) where
  update-IsNewest :
      (m : Match) (ms : List Match) → IsNewest m ms → IsNewest m (update_row match_key i g ms)
  update-IsNewest m ms h = All-update_row match_key (Precedes m) i g ms h (λ r found same.
      let owned : str_eq r.sarang_id m.sarang_id ≡ true = ground (arith, c.owner r) in
      let (less, shut) = All-find_row match_key (Precedes m) i ms h found owned in
      (ground (arith, c.degree r, c.attempt r), c.shut r shut))

  pub update-InOrder : (ms : List Match) → InOrder ms → InOrder (update_row match_key i g ms)
  unfolding update_row
  update-InOrder [] h = tt
  update-InOrder (m ∷ ms) (newest, h) = elim (Bool-cases (str_eq m.match_id i)) [
    | inl e ↦ rw e (rw (c.owner m, c.degree m, c.attempt m) newest, h)
    | inr e ↦ rw e (update-IsNewest m ms newest, update-InOrder ms h)
  ]

  pub find-update_row :
      (j : String) (ms : List Match)
      → is_none (find_row match_key j (update_row match_key i g ms))
        ≡ is_none (find_row match_key j ms)
  unfolding update_row find_row
  find-update_row j [] = refl
  find-update_row j (m ∷ ms) = ground (arith, c.id m, find-update_row j ms)

  pub update-unique_matches :
      (ms : List Match) → unique_matches (update_row match_key i g ms) ≡ unique_matches ms
  unfolding update_row unique_matches
  update-unique_matches [] = refl
  update-unique_matches (m ∷ ms) =
      ground (arith, c.id m, find-update_row m.match_id ms, update-unique_matches ms)

found_self : (n : Match) (ms : List Match) → find_row match_key n.match_id (n ∷ ms) ≡ some n
unfolding find_row
found_self n ms = rw ((eq_iff n.match_id n.match_id).1 refl)

found_behind :
    (n p : Match) (ms : List Match)
    → unique_matches (n ∷ ms) ≡ true
    → find_row match_key p.match_id ms ≡ some p
    → str_eq n.match_id p.match_id ≡ false
unfolding unique_matches find_row
found_behind n p ms u h = ground (arith, eq_iff n.match_id p.match_id)

found_later :
    (n p : Match) (ms : List Match)
    → unique_matches (n ∷ ms) ≡ true
    → find_row match_key p.match_id ms ≡ some p
    → find_row match_key p.match_id (n ∷ ms) ≡ some p
unfolding find_row
found_later n p ms u h = rw (found_behind n p ms u h) h

pub find_row-latest_where :
    (f : Match → Bool) (ms : List Match) (m : Match)
    → unique_matches ms ≡ true
    → latest_where f ms ≡ some m
    → (find_row match_key m.match_id ms ≡ some m) × (f m ≡ true)
unfolding latest_where unique_matches find_row
find_row-latest_where f [] m u h = cc
find_row-latest_where f (n ∷ ms) m u h = elim (Bool-cases (f n)) [
  | inr e ↦
      let (found, kept) = find_row-latest_where f ms m (ground arith) (rw e at h) in
      (found_later n m ms u found, kept)
  | inl e ↦ elim (Option-cases (latest_where f ms)) [
    | inl nothing ↦
        let same : n ≡ m = ground arith in
        subst (λ x. (find_row match_key x.match_id (n ∷ ms) ≡ some x) × (f x ≡ true)) same
          (found_self n ms, e)
    | inr (p, there) ↦ elim (Bool-cases (is_later p n)) [
      | inl beyond ↦
          let same : p ≡ m = ground arith in
          let (found, kept) = find_row-latest_where f ms p (ground arith) there in
          subst (λ x. (find_row match_key x.match_id (n ∷ ms) ≡ some x) × (f x ≡ true)) same
            (found_later n p ms u found, kept)
      | inr not_beyond ↦
          let same : n ≡ m = ground arith in
          subst (λ x. (find_row match_key x.match_id (n ∷ ms) ≡ some x) × (f x ≡ true)) same
            (found_self n ms, e)
    ]
  ]
]

older_closed :
    (k : String) (m n : Match) → str_eq m.sarang_id k ≡ true → Precedes m n → is_open_of k n ≡ false
older_closed k m n same older = elim (Bool-cases (str_eq n.sarang_id k)) [
  | inr other ↦ rw other
  | inl mine ↦
      let (_, shut) = older (
        ground
          (arith, eq_iff n.sarang_id k, eq_iff m.sarang_id k, eq_iff n.sarang_id m.sarang_id)) in
      rw (mine, shut)
]

later_Precedes :
    (k : String) (m new n : Match)
    → str_eq m.sarang_id k ≡ true
    → str_eq new.sarang_id k ≡ true
    → is_later new m ≡ true
    → Precedes m n
    → Precedes new n
later_Precedes k m new n mine same later older owned =
    let owned_ : str_eq n.sarang_id m.sarang_id ≡ true = ground (
      arith,
      eq_iff n.sarang_id new.sarang_id,
      eq_iff m.sarang_id k,
      eq_iff new.sarang_id k,
      eq_iff n.sarang_id m.sarang_id,
    ) in
    let (less, shut) = older owned_ in (ground arith, shut)

later_IsNewest :
    (k : String) (m new : Match) (ms : List Match)
    → str_eq m.sarang_id k ≡ true
    → str_eq new.sarang_id k ≡ true
    → is_later new m ≡ true
    → IsNewest m ms
    → IsNewest new ms
later_IsNewest k m new [] mine same later h = tt
later_IsNewest k m new (n ∷ ms) mine same later (older, h) =
    (later_Precedes k m new n mine same later older, later_IsNewest k m new ms mine same later h)

-- Where the attempts are in order, an open attempt of a prospect is the newest of it.
all_closed-latest :
    (k : String) (m : Match) (ms : List Match)
    → str_eq m.sarang_id k ≡ true
    → IsNewest m ms
    → latest_where (is_open_of k) ms ≡ none
unfolding latest_where
all_closed-latest k m [] same h = refl
all_closed-latest k m (n ∷ ms) same (older, h) =
    let shut : is_open_of k n ≡ false = older_closed k m n same older in
    rw shut (all_closed-latest k m ms same h)

pub has_attempt-IsNewest :
    (m : Match) (ms : List Match) → has_attempt m.sarang_id ms ≡ false → IsNewest m ms
unfolding has_attempt
has_attempt-IsNewest m [] h = tt
has_attempt-IsNewest m (n ∷ ms) h =
    ((λ same. absurd (ground arith)), has_attempt-IsNewest m ms (ground arith))

not_newer :
    (k : String) (m cur new : Match)
    → is_open_of k m ≡ false
    → is_open_of k cur ≡ true
    → Precedes m cur
    → str_eq new.sarang_id k ≡ true
    → Precedes new m
not_newer k m cur new shut still older same owned =
    let mine : str_eq cur.sarang_id m.sarang_id ≡ true = ground (
      arith,
      eq_iff m.sarang_id new.sarang_id,
      eq_iff cur.sarang_id k,
      eq_iff new.sarang_id k,
      eq_iff cur.sarang_id m.sarang_id,
    ) in
    let (_, closed_) = older mine in absurd (ground arith)

-- After the newest attempt is closed, a later one is newest.
pub close_latest-IsNewest :
    (g : Match → Match) (c : Closes g) (k : String) (ms : List Match) (cur new : Match)
    → unique_matches ms ≡ true
    → InOrder ms
    → latest_where (is_open_of k) ms ≡ some cur
    → str_eq new.sarang_id k ≡ true
    → is_later new cur ≡ true
    → IsNewest new (update_row match_key cur.match_id g ms)
unfolding latest_where unique_matches update_row find_row
close_latest-IsNewest g c k [] cur new u h open_ same later = cc
close_latest-IsNewest g c k (m ∷ ms) cur new u (newest, h) open_ same later =
    elim (Bool-cases (is_open_of k m)) [
      | inl e ↦
          let mine : str_eq m.sarang_id k ≡ true = ground arith in
          let alone : latest_where (is_open_of k) ms ≡ none =
            all_closed-latest k m ms mine newest in
          let same_row : m ≡ cur = ground (arith, alone) in
          let beyond : is_later new m ≡ true =
            subst (λ x. is_later new x ≡ true) (sym same_row) later in
          subst (λ x. IsNewest new (update_row match_key x.match_id g (m ∷ ms))) same_row
            (rw ((eq_iff m.match_id m.match_id).1 refl) (
              (λ _. (ground (arith, c.degree m, c.attempt m), c.closed m)),
              later_IsNewest k m new ms mine same beyond newest,
            ))
      | inr e ↦
          let open_later : latest_where (is_open_of k) ms ≡ some cur = rw e at open_ in
          let (found, still) =
            find_row-latest_where (is_open_of k) ms cur (ground arith) open_later in
          rw (found_behind m cur ms u found) (
            not_newer k m cur new e still
                (All-find_row match_key (Precedes m) cur.match_id ms newest found) same,
            close_latest-IsNewest g c k ms cur new (ground arith) h open_later same later,
          )
    ]

-- The attempts are in order, under their own ids.
pub record IsHistory (ms : List Match) : Type 0 where
  pub unique : unique_matches ms ≡ true
  pub ordered : InOrder ms
