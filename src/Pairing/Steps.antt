-- ===== src/Pairing/Steps.antt =====
-- A code that has connected a chat never does so again, whatever requests follow.
use text.Mathlib.TextEquality.{eq_iff}
use mathlib.Core.Path.{subst}
use ddochi_backend.Prelude.{
  ◌≡◌, refl, sym, ap, ◌∙◌, ℕ, String, Bool, true, false, Option, none, some, List, [], ◌∷◌, not,
  inl, inr, Bool-cases, Option-cases, is_none, arith,
}
use ddochi_backend.Prelude.Text.{str_eq}
use ddochi_backend.Prelude.Rows.{find_row, map_row, find_row-update_row, find_row-update_row_ne}
use ddochi_backend.Pairing.Rows.{
  Pairing, Store, pairing_key, find_pairing, update_pairing, is_open, first_where, delete_where,
  is_refused,
}
use ddochi_backend.Pairing.Admin.{
  Request, request_team, request_channel, extend, issue, start_found, telegram_pair_start,
  telegram_pair_cancel, telegram_pair_disconnect, disconnect_found,
}
use ddochi_backend.Pairing.Complete.{
  Service, CompleteRequest, request_code, request_chat, request_title, complete_row,
  telegram_pair_complete,
}
use ddochi_backend.Pairing.Completing.{is_completed, complete_sound, complete_refused}

-- One request of the administrator's pages or of the bot router
pub data Step (bot : String) : Store → Store → Type 0 where
  start :
      (now : ℕ) (codes : List String) (r : Request) (s : Store)
      → Step bot s (telegram_pair_start bot now codes r s).1
  cancel : (r : Request) (s : Store) → Step bot s (telegram_pair_cancel r s).1
  disconnect : (r : Request) (s : Store) → Step bot s (telegram_pair_disconnect r s).1
  complete :
      (v : Service) (now : ℕ) (r : CompleteRequest) (s : Store)
      → Step bot s (telegram_pair_complete v now r s).1

pub data Reach (bot : String) (s : Store) : Store → Type 0 where
  here : Reach bot s s
  next : {t u : Store} → Reach bot s t → Step bot t u → Reach bot s u

abbrev used_row : Option Pairing → Bool
used_row none = false
used_row (some p) = not (is_none p.completed_at)

-- The code's row is marked as used.
unfoldable pub is_used : String → List Pairing → Bool
is_used k ps = used_row (find_pairing k ps)

-- An update that leaves the code and unmarks no row keeps a used code used.
update-is_used :
    (k j : String) (f : Pairing → Pairing) (ps : List Pairing)
    → ((p : Pairing) → (f p).code ≡ p.code)
    → ((p : Pairing) → is_none p.completed_at ≡ false → is_none (f p).completed_at ≡ false)
    → is_used k ps ≡ true
    → is_used k (update_pairing j f ps) ≡ true
unfolding is_used
update-is_used k j f ps id keeps u = elim (Bool-cases (str_eq j k)) [
  | inr miss ↦ ap used_row (find_row-update_row_ne pairing_key j k f ps id miss) ∙ u
  | inl hit ↦ elim (Option-cases (find_pairing k ps)) [
    | inl e ↦ absurd (ground arith)
    | inr (p, e) ↦
        let used : is_none p.completed_at ≡ false = ground arith in
        let still = keeps p used in
        let read : find_pairing k (update_pairing k f ps) ≡ some (f p) =
          find_row-update_row pairing_key k f ps id ∙ ap (map_row f) e in
        let marked : not (is_none (f p).completed_at) ≡ true = rw still in
        rw ((eq_iff j k).0 hit) (ap used_row read ∙ marked)
  ]
]

-- A deletion of open rows keeps a used code used.
find-delete_where :
    (team channel k : String) (ps : List Pairing) (p : Pairing)
    → find_pairing k ps ≡ some p
    → is_none p.completed_at ≡ false
    → find_pairing k (delete_where (is_open team channel) ps) ≡ some p
unfolding delete_where is_open find_row
find-delete_where team channel k [] p found used = cc
find-delete_where team channel k (q ∷ ps) p found used =
    ground (arith, find-delete_where team channel k ps p)

delete-is_used :
    (team channel k : String) (ps : List Pairing)
    → is_used k ps ≡ true
    → is_used k (delete_where (is_open team channel) ps) ≡ true
unfolding is_used
delete-is_used team channel k ps u = elim (Option-cases (find_pairing k ps)) [
  | inl e ↦ absurd (ground arith)
  | inr (p, e) ↦
      let used : is_none p.completed_at ≡ false = ground arith in
      let marked : not (is_none p.completed_at) ≡ true = rw used in
      ap used_row (find-delete_where team channel k ps p e used) ∙ marked
]

-- A new row has a new code.
issue-is_used :
    (bot team channel sabun k : String) (now : ℕ) (s : Store) (codes : List String)
    → is_used k s.pairings ≡ true
    → is_used k (issue bot team channel sabun now s codes).1.pairings ≡ true
unfolding issue is_refused find_row is_used
issue-is_used bot team channel sabun k now s [] u = u
issue-is_used bot team channel sabun k now s (c ∷ codes) u =
    ground (arith, eq_iff c k, issue-is_used bot team channel sabun k now s codes u)

start_found-is_used :
    (bot team channel sabun k : String) (now : ℕ) (codes : List String) (s : Store)
    (o : Option Pairing)
    → is_used k s.pairings ≡ true
    → is_used k (start_found bot team channel sabun now codes s o).1.pairings ≡ true
unfolding start_found
start_found-is_used bot team channel sabun k now codes s none u =
    issue-is_used bot team channel sabun k now s codes u
start_found-is_used bot team channel sabun k now codes s (some p) u =
    update-is_used k p.code (extend now) s.pairings (λ q. refl) (λ q h. h) u

start-is_used :
    (bot k : String) (now : ℕ) (codes : List String) (r : Request) (s : Store)
    → is_used k s.pairings ≡ true
    → is_used k (telegram_pair_start bot now codes r s).1.pairings ≡ true
unfolding telegram_pair_start
start-is_used bot k now codes r s u = ground (
  arith,
  start_found-is_used bot (request_team r) (request_channel r) r.sabun k now codes s
      (first_where (is_open (request_team r) (request_channel r)) s.pairings) u,
)

cancel-is_used :
    (k : String) (r : Request) (s : Store)
    → is_used k s.pairings ≡ true
    → is_used k (telegram_pair_cancel r s).1.pairings ≡ true
unfolding telegram_pair_cancel
cancel-is_used k r s u =
    ground (arith, delete-is_used (request_team r) (request_channel r) k s.pairings u)

disconnect-pairings :
    (r : Request) (s : Store) → (telegram_pair_disconnect r s).1.pairings ≡ s.pairings
unfolding telegram_pair_disconnect disconnect_found
disconnect-pairings r s = ground arith

complete-is_used :
    (k : String) (v : Service) (now : ℕ) (r : CompleteRequest) (s : Store)
    → is_used k s.pairings ≡ true
    → is_used k (telegram_pair_complete v now r s).1.pairings ≡ true
complete-is_used k v now r s u =
    elim (Bool-cases (is_completed (telegram_pair_complete v now r s).0)) [
      | inr refused ↦ ap (λ t. is_used k t.pairings) (complete_refused v now r s refused) ∙ u
      | inl accepted ↦
          ap (is_used k) (complete_sound v now r s accepted).written
          ∙ (update-is_used k (request_code r) (complete_row now (request_chat r) (request_title r))
              s.pairings (λ q. refl) (λ q h. refl) u)
    ]

Step-is_used :
    {bot : String} (k : String) {s t : Store}
    → Step bot s t
    → is_used k s.pairings ≡ true
    → is_used k t.pairings ≡ true
Step-is_used {bot = bot} k (start now codes r s) u = start-is_used bot k now codes r s u
Step-is_used k (cancel r s) u = cancel-is_used k r s u
Step-is_used k (disconnect r s) u = rw (disconnect-pairings r s) u
Step-is_used k (complete v now r s) u = complete-is_used k v now r s u

Reach-is_used :
    {bot : String} (k : String) {s t : Store}
    → Reach bot s t
    → is_used k s.pairings ≡ true
    → is_used k t.pairings ≡ true
Reach-is_used k here u = u
Reach-is_used k (next r st) u = Step-is_used k st (Reach-is_used k r u)

-- An accepted code is used afterwards.
accepted-is_used :
    (v : Service) (now : ℕ) (r : CompleteRequest) (s : Store)
    → is_completed (telegram_pair_complete v now r s).0 ≡ true
    → is_used (request_code r) (telegram_pair_complete v now r s).1.pairings ≡ true
unfolding is_used
accepted-is_used v now r s h =
    let a = complete_sound v now r s h in
    let k = request_code r in
    let f = complete_row now (request_chat r) (request_title r) in
    ap (is_used k) a.written
    ∙ ap used_row
        (find_row-update_row pairing_key k f s.pairings (λ q. refl) ∙ ap (map_row f) a.found)

used_refused :
    (v : Service) (now : ℕ) (r : CompleteRequest) (s : Store)
    → is_used (request_code r) s.pairings ≡ true
    → is_completed (telegram_pair_complete v now r s).0 ≡ false
unfolding is_used
used_refused v now r s u = elim (Bool-cases (is_completed (telegram_pair_complete v now r s).0)) [
  | inr refused ↦ refused
  | inl accepted ↦
      let a = complete_sound v now r s accepted in absurd (ground (arith, a.found, a.unused))
]

-- Once a code has been accepted, no request with it is accepted in any table that starts,
-- cancellations, disconnections and completions lead to, and none changes anything.
pub accepted_once :
    {bot : String} {t : Store} (v v' : Service) (now now' : ℕ) (r r' : CompleteRequest) (s : Store)
    → is_completed (telegram_pair_complete v now r s).0 ≡ true
    → Reach bot (telegram_pair_complete v now r s).1 t
    → request_code r' ≡ request_code r
    → (is_completed (telegram_pair_complete v' now' r' t).0 ≡ false)
      × ((telegram_pair_complete v' now' r' t).1 ≡ t)
accepted_once {t = t} v v' now now' r r' s accepted reach same =
    let used = Reach-is_used (request_code r) reach (accepted-is_used v now r s accepted) in
    let refused =
      used_refused v' now' r' t (subst (λ k. is_used k t.pairings ≡ true) (sym same) used) in
    (refused, complete_refused v' now' r' t refused)
