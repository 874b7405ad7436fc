-- ===== src/Router/Redelivery.antt =====
-- An update that Telegram delivers again is not handled again.
use ddochi_backend.Prelude.{
  ◌≡◌, refl, sym, ℕ, ◌+◌, ◌≤◌, String, Bool, true, false, Option, none, some, List, [], ◌∷◌, not,
  ◌&&◌, ◌||◌, ltb, ◌==◌, All, arith,
}
use mathlib.Core.Path.{subst}
use text.Mathlib.TextEquality.{eq_iff}
use ddochi_backend.Prelude.Text.{is_empty}
use ddochi_backend.Router.Webhook.{
  dedup_ttl, Seen, drop_old, is_seen, dedup_known, dedup_hit, Update, duplicate, route_new, webhook,
}

-- The id is remembered from a time not before `t`.
unfoldable pub remembers : ℕ → ℕ → Seen → Bool
remembers k t [] = false
remembers k t ((j, at) ∷ seen) = (j == k && not (ltb at t)) || remembers k t seen

drop_old-remembers :
    (now k t : ℕ) (seen : Seen)
    → now ≤ t + dedup_ttl
    → remembers k t seen ≡ true
    → remembers k t (drop_old now seen) ≡ true
unfolding remembers drop_old
drop_old-remembers now k t [] early h = h
drop_old-remembers now k t ((j, at) ∷ seen) early h =
    ground (arith, drop_old-remembers now k t seen early)

remembers-is_seen : (k t : ℕ) (seen : Seen) → remembers k t seen ≡ true → is_seen k seen ≡ true
unfolding remembers is_seen
remembers-is_seen k t [] h = h
remembers-is_seen k t ((j, at) ∷ seen) h = ground (arith, remembers-is_seen k t seen)

known-remembers :
    (now j k t : ℕ) (seen : Seen)
    → remembers k t seen ≡ true
    → remembers k t (dedup_known now j seen).1 ≡ true
unfolding dedup_known remembers
known-remembers now j k t seen h = ground arith

hit-remembers :
    (now : ℕ) (o : Option ℕ) (k t : ℕ) (seen : Seen)
    → now ≤ t + dedup_ttl
    → remembers k t seen ≡ true
    → remembers k t (dedup_hit now o seen).1 ≡ true
unfolding dedup_hit
hit-remembers now none k t seen early h = h
hit-remembers now (some j) k t seen early h =
    known-remembers now j k t (drop_old now seen) (drop_old-remembers now k t seen early h)

-- Later updates, each with its time
unfoldable pub deliver : List (ℕ × Option ℕ) → Seen → Seen
deliver [] seen = seen
deliver ((now, o) ∷ more) seen = deliver more (dedup_hit now o seen).1

abbrev pub IsEarly : ℕ → ℕ × Option ℕ → Type 0
IsEarly t (now, o) = now ≤ t + dedup_ttl

deliver-remembers :
    (k t : ℕ) (later : List (ℕ × Option ℕ)) (seen : Seen)
    → All (IsEarly t) later
    → remembers k t seen ≡ true
    → remembers k t (deliver later seen) ≡ true
unfolding deliver
deliver-remembers k t [] seen early h = h
deliver-remembers k t ((now, o) ∷ later) seen (first, early) h =
    deliver-remembers k t later (dedup_hit now o seen).1 early
      (hit-remembers now o k t seen first h)

first_remembers :
    (t k : ℕ) (seen : Seen)
    → (dedup_hit t (some k) seen).0 ≡ false
    → remembers k t (dedup_hit t (some k) seen).1 ≡ true
unfolding dedup_hit dedup_known remembers
first_remembers t k seen new = ground arith

known_hit :
    (now k t : ℕ) (seen : Seen)
    → now ≤ t + dedup_ttl
    → remembers k t seen ≡ true
    → (dedup_hit now (some k) seen).0 ≡ true
unfolding dedup_hit dedup_known
known_hit now k t seen early h =
    let still =
      remembers-is_seen k t (drop_old now seen) (drop_old-remembers now k t seen early h) in
    rw still refl

hit_duplicate :
    (is_word : ℕ → Bool) (u : Update) (p : Bool × Seen)
    → p.0 ≡ true
    → (route_new is_word u p).0 ≡ duplicate
unfolding route_new
hit_duplicate is_word u (true, seen) h = refl
hit_duplicate is_word u (false, seen) h = absurd (ground arith)

-- An update that has been taken is refused as a duplicate at each later delivery within five
-- minutes, whatever updates come between; a request with the right secret is then answered without
-- a handler.
pub redelivered :
    (is_word : ℕ → Bool) (secret : String) (u : Update) (k t now : ℕ) (seen : Seen)
    (later : List (ℕ × Option ℕ))
    → is_empty secret ≡ false
    → u.update_id ≡ some k
    → (dedup_hit t (some k) seen).0 ≡ false
    → All (IsEarly t) later
    → now ≤ t + dedup_ttl
    → (webhook is_word secret secret now (some u) (deliver later (dedup_hit t (some k) seen).1)).0
      ≡ duplicate
unfolding webhook
redelivered is_word secret u k t now seen later set same new early soon =
    let after = deliver later (dedup_hit t (some k) seen).1 in
    let held =
      deliver-remembers k t later (dedup_hit t (some k) seen).1 early
        (first_remembers t k seen new) in
    let hit : (dedup_hit now u.update_id after).0 ≡ true =
      subst (λ o. (dedup_hit now o after).0 ≡ true) (sym same)
        (known_hit now k t after soon held) in
    rw (set, (eq_iff secret secret).1 refl)
      (hit_duplicate is_word u (dedup_hit now u.update_id after) hit)
