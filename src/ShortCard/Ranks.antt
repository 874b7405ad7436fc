-- ===== src/ShortCard/Ranks.antt =====
-- The caller's representative position is one of the caller's positions, and none is broader.
use mathlib.Core.Path.{subst}
use ddochi_backend.Prelude.{
  ℕ, ◌≤◌, ◌≡◌, ◌⊎◌, inl, inr, sym, some, List, [], ◌∷◌, arith, ltb, All, Bool-cases, ltb→lt,
}
use ddochi_backend.ShortCard.Tables.{Position}
use ddochi_backend.ShortCard.Tiers.{tier_rank, min_from, broadest}

-- `p in ps`
abbrev pub IsAmong : Position → List Position → Type 0
IsAmong p [] = ⊥
IsAmong p (q ∷ qs) = (p ≡ q) ⊎ IsAmong p qs

module _ (b : Position) where
  min_from-IsAmong :
      (best : Position) (ps : List Position) → min_from best ps ≡ b → IsAmong b (best ∷ ps)
  unfolding min_from
  min_from-IsAmong best [] h = inl (sym h)
  min_from-IsAmong best (p ∷ ps) h = elim (Bool-cases (ltb (tier_rank p) (tier_rank best))) [
    | inl lower ↦ inr (min_from-IsAmong p ps (rw lower at h))
    | inr other ↦ elim (min_from-IsAmong best ps (rw other at h)) [
      | inl e ↦ inl e
      | inr later ↦ inr (inr later)
    ]
  ]

All-le {ℓ} :
    {A : Type ℓ} (f : A → ℕ) (m n : ℕ) (xs : List A)
    → m ≤ n
    → All (λ x. n ≤ f x) xs
    → All (λ x. m ≤ f x) xs
All-le f m n [] h all_ = tt
All-le f m n (x ∷ xs) h (p, all_) = (omega arith, All-le f m n xs h all_)

-- The rank of `m` is the lowest among `best` and `ps`.
abbrev IsLowest : Position → List Position → Position → Type 0
IsLowest best ps m = (tier_rank m ≤ tier_rank best) × All (λ q. tier_rank m ≤ tier_rank q) ps

min_from-le : (best : Position) (ps : List Position) → IsLowest best ps (min_from best ps)
unfolding min_from
min_from-le best [] = (omega arith, tt)
min_from-le best (p ∷ ps) = elim (Bool-cases (ltb (tier_rank p) (tier_rank best))) [
  | inl lower ↦
      let (first, later) = min_from-le p ps in
      let e : min_from p ps ≡ min_from best (p ∷ ps) = rw lower in
      subst (IsLowest best (p ∷ ps)) e (omega (arith, ltb→lt _ _ lower), (first, later))
  | inr other ↦
      let (first, later) = min_from-le best ps in
      let e : min_from best ps ≡ min_from best (p ∷ ps) = rw other in
      subst (IsLowest best (p ∷ ps)) e (first, (ground (arith, first), later))
]

-- The position that a caller's rights go by is one of the caller's positions, and of the lowest
-- rank, that is of the broadest tier, among them.
pub broadest_minimal :
    (ps : List Position) (b : Position)
    → broadest ps ≡ some b
    → IsAmong b ps × All (λ q. tier_rank b ≤ tier_rank q) ps
unfolding broadest
broadest_minimal [] b h = cc
broadest_minimal (p ∷ ps) b h =
    let e : min_from p ps ≡ b = ground arith in
    let (first, later) = min_from-le p ps in
    (
      min_from-IsAmong b p ps e,
      subst (λ m. All (λ q. tier_rank m ≤ tier_rank q) (p ∷ ps)) e (first, later),
    )
