-- ===== src/Pairing/Fresh.antt =====
-- The code that `telegram_pair_start` answers leads to a fresh row.
use text.Mathlib.TextEquality.{eq_iff}
use mathlib.Core.Path.{subst}
use ddochi_backend.Prelude.{
  ◌≡◌, refl, sym, ap, ◌∙◌, ℕ, ◌+◌, String, Bool, true, false, Option, none, some, List, [], ◌∷◌,
  ◌&&◌, inl, inr, Bool-cases, is_none, arith,
}
use ddochi_backend.Prelude.Text.{str_eq}
use ddochi_backend.Prelude.Rows.{find_row, map_row, find_row-update_row}
use ddochi_backend.Pairing.Rows.{
  Pairing, Store, pairing_key, find_pairing, update_pairing, is_for, is_open, first_where,
  is_refused, ten_minutes,
}
use ddochi_backend.Pairing.Admin.{
  Request, started, request_team, request_channel, new_pairing, extend, issue, start_found,
  telegram_pair_start,
}

-- CODE is the primary key.
unfoldable pub unique_codes : List Pairing → Bool
unique_codes [] = true
unique_codes (p ∷ ps) = is_none (find_pairing p.code ps) && unique_codes ps

first_where-holds :
    (f : Pairing → Bool) (ps : List Pairing) (p : Pairing) → first_where f ps ≡ some p → f p ≡ true
unfolding first_where
first_where-holds f [] p h = cc
first_where-holds f (q ∷ ps) p h = elim (Bool-cases (f q)) [
  | inl e ↦ let same : q ≡ p = ground arith in subst (λ x. f x ≡ true) same e
  | inr e ↦ first_where-holds f ps p (rw e at h)
]

find_pairing-first_where :
    (f : Pairing → Bool) (ps : List Pairing) (p : Pairing)
    → unique_codes ps ≡ true
    → first_where f ps ≡ some p
    → find_pairing p.code ps ≡ some p
unfolding first_where unique_codes find_row
find_pairing-first_where f [] p u h = cc
find_pairing-first_where f (q ∷ ps) p u h = elim (Bool-cases (f q)) [
  | inl e ↦
      let same : q ≡ p = ground arith in
      subst (λ x. find_pairing x.code (q ∷ ps) ≡ some x) same (rw ((eq_iff q.code q.code).1 refl))
  | inr e ↦
      let later = find_pairing-first_where f ps p (ground arith) (rw e at h) in
      let other : str_eq q.code p.code ≡ false = ground (arith, eq_iff q.code p.code) in
      rw other later
]

-- The code leads to an unused row of the team and channel that is good until ten minutes on.
pub record IsFresh (k team channel : String) (now : ℕ) (s : Store) : Type 0 where
  pub row : Pairing
  pub found : find_pairing k s.pairings ≡ some row
  pub unused : row.completed_at ≡ none
  pub until_ : row.expires_at ≡ now + ten_minutes
  pub of_team : row.team_id ≡ team
  pub of_channel : row.channel_type ≡ channel

issue-configs :
    (bot team channel sabun : String) (now : ℕ) (s : Store) (codes : List String)
    → (issue bot team channel sabun now s codes).1.configs ≡ s.configs
unfolding issue
issue-configs bot team channel sabun now s [] = refl
issue-configs bot team channel sabun now s (c ∷ codes) =
    ground (arith, issue-configs bot team channel sabun now s codes)

is_open-holds :
    (team channel : String) (p : Pairing)
    → is_open team channel p ≡ true
    → (p.completed_at ≡ none) × (p.team_id ≡ team) × (p.channel_type ≡ channel)
unfolding is_open is_for
is_open-holds team channel p h = (
  ground arith,
  ground (arith, eq_iff p.team_id team),
  ground (arith, eq_iff p.channel_type channel),
)

issue-IsFresh :
    (bot team channel sabun k cmd : String) (now : ℕ) (s : Store) (codes : List String)
    → (issue bot team channel sabun now s codes).0 ≡ started k cmd
    → IsFresh k team channel now (issue bot team channel sabun now s codes).1
unfolding issue find_row
issue-IsFresh bot team channel sabun k cmd now s [] h = cc
issue-IsFresh bot team channel sabun k cmd now s (c ∷ codes) h =
    elim (Bool-cases (is_refused (new_pairing c team channel sabun now) s)) [
      | inl e ↦ rw e (issue-IsFresh bot team channel sabun k cmd now s codes (rw e at h))
      | inr e ↦
          let same : c ≡ k = ground arith in
          rw (e, same)
            (record {
              row = new_pairing k team channel sabun now;
              found = rw ((eq_iff k k).1 refl);
              unused = refl;
              until_ = refl;
              of_team = refl;
              of_channel = refl;
            })
    ]

start_found-IsFresh :
    (bot team channel sabun k cmd : String) (now : ℕ) (codes : List String) (s : Store)
    (o : Option Pairing)
    → unique_codes s.pairings ≡ true
    → first_where (is_open team channel) s.pairings ≡ o
    → (start_found bot team channel sabun now codes s o).0 ≡ started k cmd
    → IsFresh k team channel now (start_found bot team channel sabun now codes s o).1
unfolding start_found
start_found-IsFresh bot team channel sabun k cmd now codes s none u e h =
    issue-IsFresh bot team channel sabun k cmd now s codes h
start_found-IsFresh bot team channel sabun k cmd now codes s (some p) u e h =
    let same : p.code ≡ k = ground arith in
    let kept : is_open team channel p ≡ true =
      first_where-holds (is_open team channel) s.pairings p e in
    let read : find_pairing p.code (update_pairing p.code (extend now) s.pairings)
        ≡ some (extend now p) =
      find_row-update_row pairing_key p.code (extend now) s.pairings (λ q. refl)
      ∙ ap (map_row (extend now))
          (find_pairing-first_where (is_open team channel) s.pairings p u e) in
    let (unused_, team_, channel_) = is_open-holds team channel p kept in
    record {
      row = extend now p;
      found =
          subst
            (λ j.
              find_pairing j (update_pairing p.code (extend now) s.pairings) ≡ some (extend now p))
            same read;
      unused = unused_;
      until_ = refl;
      of_team = team_;
      of_channel = channel_;
    }

start_is_found :
    (bot k cmd : String) (now : ℕ) (codes : List String) (r : Request) (s : Store)
    → (telegram_pair_start bot now codes r s).0 ≡ started k cmd
    → telegram_pair_start bot now codes r s
      ≡ start_found bot
          (request_team r)
          (request_channel r)
          r.sabun
          now
          codes
          s
          (first_where (is_open (request_team r) (request_channel r)) s.pairings)
unfolding telegram_pair_start
start_is_found bot k cmd now codes r s h = ground arith

pub start-IsFresh :
    (bot k cmd : String) (now : ℕ) (codes : List String) (r : Request) (s : Store)
    → unique_codes s.pairings ≡ true
    → (telegram_pair_start bot now codes r s).0 ≡ started k cmd
    → IsFresh k (request_team r) (request_channel r) now (telegram_pair_start bot now codes r s).1
start-IsFresh bot k cmd now codes r s u h =
    let same = start_is_found bot k cmd now codes r s h in
    subst (λ o. IsFresh k (request_team r) (request_channel r) now o.1) (sym same)
      (start_found-IsFresh bot (request_team r) (request_channel r) r.sabun k cmd now codes s
        (first_where (is_open (request_team r) (request_channel r)) s.pairings) u refl
        (ap (λ o. o.0) (sym same) ∙ h))

pub start-configs :
    (bot : String) (now : ℕ) (codes : List String) (r : Request) (s : Store)
    → (telegram_pair_start bot now codes r s).1.configs ≡ s.configs
unfolding telegram_pair_start start_found
start-configs bot now codes r s =
    ground (arith, issue-configs bot (request_team r) (request_channel r) r.sabun now s codes)
