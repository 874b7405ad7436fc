-- ===== src/Router/Reading.antt =====
-- The bot router reads what people and the main service write.
use Prim.Native.Char.{Char, code}
use Prim.Native.String
use text.Mathlib.TextLemmas.{nil-append, cons-append}
use mathlib.Core.Path.{subst}
use ddochi_backend.Prelude.{
  ◌≡◌, refl, sym, ap, ◌∙◌, ℕ, String, Bool, true, false, none, some, not, ◌&&◌, ◌==◌, arith,
}
use ddochi_backend.Prelude.Text.{is_empty, is_space, strip, lstrip, rstrip, string_length}
use ddochi_backend.Prelude.Case.{upper}
use ddochi_backend.Router.Words.{
  word_of, after_bot, is_hex, take_hex, after_prefix, after_letters, is_alnum, all_alnum,
}
use ddochi_backend.Pairing.Admin.{pair_command}
use ddochi_backend.Router.Commands.{
  code_after, pair_code_after, parse_pair_code, kind_of, tag_here, find_tag,
}

alnum_no_space : (c : ℕ) → is_alnum c ≡ true → is_space c ≡ false
unfolding is_space
alnum_no_space c h = ground arith

rstrip-alnum : (s : String) → all_alnum s ≡ true → rstrip s ≡ s
unfolding all_alnum rstrip
rstrip-alnum String.[] h = refl
rstrip-alnum (String.◌∷◌ c s) h =
    rw (rstrip-alnum s (ground arith), alnum_no_space (code c) (ground arith)) (ground arith)

lstrip-alnum : (s : String) → all_alnum s ≡ true → lstrip s ≡ s
unfolding all_alnum lstrip
lstrip-alnum String.[] h = refl
lstrip-alnum (String.◌∷◌ c s) h = rw (alnum_no_space (code c) (ground arith)) refl

-- What follows /pair in a command
after_pair : (bot k : String) → String
after_pair String.[] k = String.◌∷◌ " " k
after_pair (String.◌∷◌ c s) k = String.◌∷◌ "@" (String.◌++◌ (String.◌∷◌ c s) (String.◌∷◌ " " k))

with_command : String → String
with_command s =
    String.◌∷◌ "/" (String.◌∷◌ "p" (String.◌∷◌ "a" (String.◌∷◌ "i" (String.◌∷◌ "r" s))))

space_text : (k : String) → String.◌++◌ " " k ≡ String.◌∷◌ " " k
space_text k = rw (cons-append " " "" k, nil-append k) refl

plain_text : (k : String) → String.◌++◌ "/pair " k ≡ with_command (String.◌∷◌ " " k)
unfolding with_command
plain_text k =
    rw
      (
        cons-append "/" "pair " k,
        cons-append "p" "air " k,
        cons-append "a" "ir " k,
        cons-append "i" "r " k,
        cons-append "r" " " k,
        space_text k,
      )
      refl

bot_text : (t : String) → String.◌++◌ "/pair@" t ≡ with_command (String.◌∷◌ "@" t)
unfolding with_command
bot_text t =
    rw
      (
        cons-append "/" "pair@" t,
        cons-append "p" "air@" t,
        cons-append "a" "ir@" t,
        cons-append "i" "r@" t,
        cons-append "r" "@" t,
        cons-append "@" "" t,
        nil-append t,
      )
      refl

command_text : (bot k : String) → pair_command bot k ≡ with_command (after_pair bot k)
unfolding pair_command after_pair
command_text String.[] k = plain_text k
command_text (String.◌∷◌ c s) k =
    rw (space_text k) (bot_text (String.◌++◌ (String.◌∷◌ c s) (String.◌∷◌ " " k)))

-- White space at the end is all that `strip` would take from such texts, and there is none.
unfoldable EndsWell : String → Type 0
EndsWell s = (rstrip s ≡ s) × (is_empty s ≡ false)

cons-EndsWell : (c : Char) (s : String) → EndsWell s → EndsWell (String.◌∷◌ c s)
unfolding EndsWell rstrip
cons-EndsWell c s (e, some_) = (rw (e, some_) (ground arith), refl)

append-EndsWell : (a s : String) → EndsWell s → EndsWell (String.◌++◌ a s)
append-EndsWell String.[] s h = subst EndsWell (sym (nil-append s)) h
append-EndsWell (String.◌∷◌ c a) s h =
    subst EndsWell (sym (cons-append c a s))
      (cons-EndsWell c (String.◌++◌ a s) (append-EndsWell a s h))

after_pair-EndsWell :
    (bot k : String) → is_empty k ≡ false → all_alnum k ≡ true → EndsWell (after_pair bot k)
unfolding after_pair EndsWell
after_pair-EndsWell String.[] k some_ named = cons-EndsWell " " k (rstrip-alnum k named, some_)
after_pair-EndsWell (String.◌∷◌ c s) k some_ named = cons-EndsWell "@" _ (
    append-EndsWell (String.◌∷◌ c s) (String.◌∷◌ " " k)
      (cons-EndsWell " " k (rstrip-alnum k named, some_)))

strip-command : (s : String) → EndsWell s → strip (with_command s) ≡ with_command s
unfolding strip lstrip is_space with_command EndsWell
strip-command s h =
    (cons-EndsWell "/" _
      (cons-EndsWell "p" _ (cons-EndsWell "a" _ (cons-EndsWell "i" _ (cons-EndsWell "r" s h))))).0

-- No white space in the text
unfoldable pub no_space : String → Bool
unfolding is_space
no_space String.[] = true
no_space (String.◌∷◌ c s) = not (is_space (code c)) && no_space s

word_of-word :
    (b k : String)
    → no_space b ≡ true
    → word_of (String.◌++◌ b (String.◌∷◌ " " k)) ≡ (b, String.◌∷◌ " " k)
unfolding no_space word_of
word_of-word String.[] k h = rw (nil-append (String.◌∷◌ " " k)) refl
word_of-word (String.◌∷◌ c s) k h =
    let letter : is_space (code c) ≡ false = ground arith in
    rw (cons-append c s (String.◌∷◌ " " k), word_of-word s k (ground arith), letter) refl

after_bot-pair :
    (bot k : String) → no_space bot ≡ true → after_bot (after_pair bot k) ≡ some (String.◌∷◌ " " k)
unfolding after_bot after_pair is_space
after_bot-pair String.[] k h = refl
after_bot-pair (String.◌∷◌ c s) k h = rw (word_of-word (String.◌∷◌ c s) k h) refl

read_code :
    (k : String)
    → is_empty k ≡ false
    → all_alnum k ≡ true
    → code_after (some (String.◌∷◌ " " k)) ≡ some (upper k)
unfolding code_after is_space lstrip
read_code k some_ named = rw (lstrip-alnum k named, some_, named) refl

-- The command that the main service shows for a code, with the name of the bot if one is set, which
-- has no white space, is read by the bot router as that code in capitals; the code has one character
-- at least, all letters and digits of ASCII or the letters that match them.
pub parse_pair_code-command :
    (bot code_ : String)
    → no_space bot ≡ true
    → is_empty code_ ≡ false
    → all_alnum code_ ≡ true
    → parse_pair_code (pair_command bot code_) ≡ some (upper code_)
unfolding parse_pair_code pair_code_after after_letters with_command
parse_pair_code-command bot code_ one_word some_ named =
    rw
      (
        command_text bot code_,
        strip-command (after_pair bot code_) (after_pair-EndsWell bot code_ some_ named),
        after_bot-pair bot code_ one_word,
      )
      (read_code code_ some_ named)

-- No # in the text
unfoldable pub no_hash : String → Bool
no_hash String.[] = true
no_hash (String.◌∷◌ c s) = not (code c == b'#') && no_hash s

unfoldable pub all_hex : String → Bool
all_hex String.[] = true
all_hex (String.◌∷◌ c s) = is_hex (code c) && all_hex s

take_hex-append :
    (short rest : String)
    → all_hex short ≡ true
    → take_hex (string_length short) (String.◌++◌ short rest) ≡ some (short, rest)
unfolding take_hex string_length all_hex
take_hex-append String.[] rest h = rw (nil-append rest) refl
take_hex-append (String.◌∷◌ c s) rest h =
    let this : is_hex (code c) ≡ true = ground arith in
    rw (cons-append c s rest, take_hex-append s rest (ground arith), this) refl

tag_text : (t : String) → String.◌++◌ "#r_" t ≡ String.◌∷◌ "#" (String.◌∷◌ "r" (String.◌∷◌ "_" t))
tag_text t =
    rw (cons-append "#" "r_" t, cons-append "r" "_" t, cons-append "_" "" t, nil-append t) refl

find_tag-here :
    (c : Char) (s : String) (t : String × String)
    → tag_here (String.◌∷◌ c s) ≡ some t
    → find_tag (String.◌∷◌ c s) ≡ some t
unfolding find_tag
find_tag-here c s t h = rw (find_tag, h) refl

find_tag-later :
    (c : Char) (s : String)
    → tag_here (String.◌∷◌ c s) ≡ none
    → find_tag (String.◌∷◌ c s) ≡ find_tag s
unfolding find_tag
find_tag-later c s h = rw (find_tag, h) refl

no_tag_here : (c : Char) (s : String) → (code c == b'#') ≡ false → tag_here (String.◌∷◌ c s) ≡ none
unfolding tag_here after_prefix
no_tag_here c s h = let other : (b'#' == code c) ≡ false = ground arith in rw (tag_here, other) refl

here_tag :
    (short rest kind k : String)
    → take_hex 8 rest ≡ some (short, kind)
    → kind_of kind ≡ some k
    → tag_here (String.◌∷◌ "#" (String.◌∷◌ "r" (String.◌∷◌ "_" rest))) ≡ some (upper short, k)
unfolding tag_here after_prefix
here_tag short rest kind k taken named = rw (tag_here, taken, named) refl

tag_read :
    (short kind k : String)
    → all_hex short ≡ true
    → string_length short ≡ 8
    → kind_of kind ≡ some k
    → find_tag (String.◌++◌ "#r_" (String.◌++◌ short kind)) ≡ some (upper short, k)
tag_read short kind k digits eight named =
    let taken : take_hex 8 (String.◌++◌ short kind) ≡ some (short, kind) =
      subst (λ n. take_hex n (String.◌++◌ short kind) ≡ some (short, kind)) eight
        (take_hex-append short kind digits) in
    ap find_tag (tag_text (String.◌++◌ short kind))
    ∙ find_tag-here "#" _ (upper short, k)
        (here_tag short (String.◌++◌ short kind) kind k taken named)

-- The tag that ends the main service's question for a date is what the bot router finds in it: the
-- short code, in capitals, and the kind, where the text before it has no #.
pub find_tag-prompt :
    (before short kind k : String)
    → no_hash before ≡ true
    → all_hex short ≡ true
    → string_length short ≡ 8
    → kind_of kind ≡ some k
    → find_tag (String.◌++◌ before (String.◌++◌ "#r_" (String.◌++◌ short kind)))
      ≡ some (upper short, k)
unfolding no_hash
find_tag-prompt String.[] short kind k free digits eight named =
    ap find_tag (nil-append (String.◌++◌ "#r_" (String.◌++◌ short kind)))
    ∙ tag_read short kind k digits eight named
find_tag-prompt (String.◌∷◌ c s) short kind k free digits eight named =
    let tagged = String.◌++◌ "#r_" (String.◌++◌ short kind) in
    ap find_tag (cons-append c s tagged)
    ∙ find_tag-later c (String.◌++◌ s tagged) (no_tag_here c (String.◌++◌ s tagged) (ground arith))
    ∙ find_tag-prompt s short kind k (ground arith) digits eight named
