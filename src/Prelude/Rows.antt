-- ===== src/Prelude/Rows.antt =====
-- Tables as lists of rows with a primary key: the first row with a key is the only one.
use text.Mathlib.TextEquality.{eq_iff}
use mathlib.Core.Path.{◌≡◌, refl, sym, ◌∙◌, ap, subst}
use mathlib.Core.Bool.{false}
use mathlib.Core.Option.{Option, none, some}
use mathlib.Core.Logic.{◌⊎◌, inl, inr}
use mathlib.Core.List.{List, [], ◌∷◌}
use native.Mathlib.Omega.{arith}
use Prim.Native.String.{String}
use ddochi_backend.Prelude.Tests.{if◌then◌else◌, Bool-cases, Option-cases}
use ddochi_backend.Prelude.Lists.{All}
use ddochi_backend.Prelude.Text.{str_eq}

abbrev pub map_row {ℓ} : {A : Type ℓ} → (A → A) → Option A → Option A
map_row f none = none
map_row f (some a) = some (f a)

module _ {ℓ} {A : Type ℓ} (key : A → String) where
  -- SELECT ... WHERE key = :1
  unfoldable pub find_row : String → List A → Option A
  find_row k [] = none
  find_row k (r ∷ rs) = if str_eq (key r) k then some r else find_row k rs

  -- UPDATE ... WHERE key = :1
  unfoldable pub update_row : String → (A → A) → List A → List A
  update_row k f [] = []
  update_row k f (r ∷ rs) = if str_eq (key r) k then f r ∷ rs else r ∷ update_row k f rs

  -- The update of a row is what the next read of its key finds.
  pub find_row-update_row :
      (k : String) (f : A → A) (rs : List A)
      → ((r : A) → key (f r) ≡ key r)
      → find_row k (update_row k f rs) ≡ map_row f (find_row k rs)
  unfolding find_row update_row
  find_row-update_row k f [] h = refl
  find_row-update_row k f (r ∷ rs) h = elim (Bool-cases (str_eq (key r) k)) [
    | inl e ↦ rw (e, h r, e)
    | inr e ↦ rw (e, e) (find_row-update_row k f rs h)
  ]

  -- The rows of other keys stay as they are.
  pub find_row-update_row_ne :
      (k j : String) (f : A → A) (rs : List A)
      → ((r : A) → key (f r) ≡ key r)
      → str_eq k j ≡ false
      → find_row j (update_row k f rs) ≡ find_row j rs
  unfolding find_row update_row
  find_row-update_row_ne k j f [] h n = refl
  find_row-update_row_ne k j f (r ∷ rs) h n = elim (Bool-cases (str_eq (key r) k)) [
    | inl e ↦
        let other : str_eq (key r) j ≡ false =
          ground (arith, eq_iff (key r) k, eq_iff (key r) j, eq_iff k j) in
        rw (e, h r, other)
    | inr e ↦ rw e (ground (arith, find_row-update_row_ne k j f rs h n))
  ]

  pub update_row-update_row :
      (k : String) (f g : A → A) (rs : List A)
      → ((r : A) → key (f r) ≡ key r)
      → update_row k g (update_row k f rs) ≡ update_row k (λ r. g (f r)) rs
  unfolding update_row
  update_row-update_row k f g [] h = refl
  update_row-update_row k f g (r ∷ rs) h = elim (Bool-cases (str_eq (key r) k)) [
    | inl e ↦ rw (e, h r, e)
    | inr e ↦ rw (e, e) (ap (λ t. r ∷ t) (update_row-update_row k f g rs h))
  ]

  -- What holds of all rows and of the new version of the updated row, holds after the update.
  pub All-update_row {κ} :
      (P : A → Type κ) (k : String) (f : A → A) (rs : List A)
      → All P rs
      → ((r : A) → find_row k rs ≡ some r → P (f r))
      → All P (update_row k f rs)
  unfolding find_row update_row
  All-update_row P k f [] h new = tt
  All-update_row P k f (r ∷ rs) (p, h) new = elim (Bool-cases (str_eq (key r) k)) [
    | inl e ↦ rw e (new r (rw e), h)
    | inr e ↦ rw e (p, All-update_row P k f rs h (λ d found. new d (rw e found)))
  ]

  pub All-find_row {κ} :
      (P : A → Type κ) (k : String) (rs : List A) {r : A} → All P rs → find_row k rs ≡ some r → P r
  unfolding find_row
  All-find_row P k [] h found = cc
  All-find_row P k (d ∷ rs) {r} (p, h) found = elim (Bool-cases (str_eq (key d) k)) [
    | inl e ↦ let same : d ≡ r = ground arith in subst P same p
    | inr e ↦ All-find_row P k rs h (rw e at found)
  ]

  -- A row that is found after an update is a row of before, or the new version of the updated one.
  pub find_row_of_update_row :
      (k i : String) (f : A → A) (rs : List A) {r : A}
      → ((r : A) → key (f r) ≡ key r)
      → find_row i (update_row k f rs) ≡ some r
      → ((str_eq k i ≡ false) × (find_row i rs ≡ some r))
        ⊎ ((r' : A) × (k ≡ i) × (find_row i rs ≡ some r') × (r ≡ f r'))
  find_row_of_update_row k i f rs {r} id found = elim (Bool-cases (str_eq k i)) [
    | inr miss ↦ inl (miss, sym (find_row-update_row_ne k i f rs id miss) ∙ found)
    | inl hit ↦
        let same : k ≡ i = (eq_iff k i).0 hit in
        let read : map_row f (find_row i rs) ≡ some r =
          sym (find_row-update_row i f rs id)
          ∙ subst (λ x. find_row i (update_row x f rs) ≡ some r) same found in
        elim (Option-cases (find_row i rs)) [
          | inl nothing ↦ absurd (ground arith)
          | inr (r', there) ↦ inr (r', same, there, ground arith)
        ]
  ]
