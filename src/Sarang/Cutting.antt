-- ===== src/Sarang/Cutting.antt =====
-- `_trunc` cuts a text to its bytes, and no more than that.
use Prim.Native.Char.{Char, code}
use Prim.Native.String
use text.Mathlib.TextLemmas.{nil-append, cons-append}
use ddochi_backend.Prelude.{
  ◌≡◌, refl, sym, ap, ◌∙◌, ℕ, ◌+◌, ◌-◌, ◌≤◌, ◌<◌, String, true, ◌⊎◌, inl, inr, Bool-cases, leb,
  leb→le, arith,
}
use ddochi_backend.Sarang.Labels.{utf8_size, byte_length, trunc_bytes}

-- The bytes of the first character
abbrev pub head_size : String → ℕ
head_size String.[] = 0
head_size (String.◌∷◌ c s) = utf8_size (code c)

-- The text begins with the cut, and the next character, if there is one, does not fit.
pub record IsCut (n : ℕ) (s cut : String) : Type 0 where
  pub rest : String
  pub whole : s ≡ String.◌++◌ cut rest
  pub fits : byte_length cut ≤ n
  pub full : (rest ≡ "") ⊎ (n < byte_length cut + head_size rest)

longer :
    (n : ℕ) (c : Char) (s cut : String)
    → leb (utf8_size (code c)) n ≡ true
    → IsCut (n - utf8_size (code c)) s cut
    → IsCut n (String.◌∷◌ c s) (String.◌∷◌ c cut)
unfolding byte_length
longer n c s cut fit less =
    let size = leb→le (utf8_size (code c)) n fit in
    record {
      rest = less.rest;
      whole = ap (λ t. String.◌∷◌ c t) less.whole ∙ sym (cons-append c cut less.rest);
      fits = omega (arith, size, less.fits);
      full = elim less.full [ inl e ↦ inl e | inr g ↦ inr (omega (arith, size, g)) ];
    }

-- A text that is cut to a number of bytes begins with the cut, which has at most that many bytes,
-- and the cut is the whole text or would be too long with the next character.
pub trunc_bytes-IsCut : (n : ℕ) (s : String) → IsCut n s (trunc_bytes n s)
unfolding trunc_bytes byte_length
trunc_bytes-IsCut n String.[] = record {
  rest = "";
  whole = sym (nil-append "");
  fits = omega arith;
  full = inl refl;
}
trunc_bytes-IsCut n (String.◌∷◌ c s) = elim (Bool-cases (leb (utf8_size (code c)) n)) [
  | inr e ↦ rw e (record {
    rest = String.◌∷◌ c s;
    whole = sym (nil-append (String.◌∷◌ c s));
    fits = omega arith;
    full = inr (ground arith);
  })
  | inl e ↦
      let less = trunc_bytes-IsCut (n - utf8_size (code c)) s in
      rw e (longer n c s (trunc_bytes (n - utf8_size (code c)) s) e less)
]
