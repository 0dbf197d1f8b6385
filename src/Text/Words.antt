-- ===== src/Text/Words.antt =====
-- Searching, comparing, trimming and splitting: `str::{contains, find, strip_prefix, trim_start,
-- trim_end, trim, split_whitespace}` and `u8::is_ascii_whitespace`.
use Prim.Native.Char.{code}
use Prim.Native.String.{String}
use rust_adv_pop.Prelude.{
  ℕ, ◌≡◌, ◌↔◌, Bool, true, false, ◌&&◌, ◌||◌, Option, none, some, List, [], ◌∷◌, ◌++◌, arith, leb,
  ◌==◌, if◌then◌else◌,
}

abbrev pub Text : Type 0
Text = List ℕ

-- The code points of a literal.
abbrev pub codes : String → Text
codes String.[] = []
codes (String.◌∷◌ c s) = code c ∷ codes s

abbrev pub cr : ℕ
cr = 13

abbrev pub lf : ℕ
lf = 10

abbrev pub space : ℕ
space = 32

abbrev pub crlf : Text
crlf = cr ∷ lf ∷ []

-- The Unicode property White_Space, which `char::is_whitespace` tests.
unfoldable pub is_white : ℕ → Bool
is_white c =
    (leb 9 c && leb c 13)
    || c == 32
    || c == 0x85
    || c == 0xa0
    || c == 0x1680
    || (leb 0x2000 c && leb c 0x200a)
    || c == 0x2028
    || c == 0x2029
    || c == 0x202f
    || c == 0x205f
    || c == 0x3000

-- `u8::is_ascii_whitespace`: it leaves the vertical tab out.
unfoldable pub is_ascii_white : ℕ → Bool
is_ascii_white c = c == 9 || c == 10 || c == 12 || c == 13 || c == 32

unfoldable pub text_eq : Text → Text → Bool
text_eq [] [] = true
text_eq [] (d ∷ t) = false
text_eq (c ∷ s) [] = false
text_eq (c ∷ s) (d ∷ t) = c == d && text_eq s t

pub text_eq_iff : (s t : Text) → (text_eq s t ≡ true) ↔ (s ≡ t)
unfolding text_eq
text_eq_iff [] [] = ground arith
text_eq_iff [] (d ∷ t) = ground arith
text_eq_iff (c ∷ s) [] = ground arith
text_eq_iff (c ∷ s) (d ∷ t) = ground (arith, text_eq_iff s t)

unfoldable pub contains : ℕ → Text → Bool
contains c [] = false
contains c (x ∷ s) = x == c || contains c s

-- The parts before and behind the first `c`.
unfoldable pub cut_at : ℕ → Text → Option (Text × Text)
cut_at c [] = none
cut_at c (x ∷ s) =
    let later : Option (Text × Text) = elim (cut_at c s) [
      | none ↦ none
      | some (a, b) ↦ some (x ∷ a, b)
    ] in
    if x == c then some ([], s) else later

unfoldable pub strip_prefix : Text → Text → Option Text
strip_prefix [] s = some s
strip_prefix (p ∷ ps) [] = none
strip_prefix (p ∷ ps) (c ∷ s) = if p == c then strip_prefix ps s else none

unfoldable pub trim_start : Text → Text
trim_start [] = []
trim_start (c ∷ s) = if is_white c then trim_start s else c ∷ s

-- One more code point in front of a text whose end is trimmed.
abbrev pub hold : (ℕ → Bool) → ℕ → Text → Text
hold p c [] = if p c then [] else c ∷ []
hold p c (x ∷ r) = c ∷ x ∷ r

unfoldable pub trim_end_by : (ℕ → Bool) → Text → Text
trim_end_by p [] = []
trim_end_by p (c ∷ s) = hold p c (trim_end_by p s)

unfoldable pub trim : Text → Text
unfolding trim_start trim_end_by
trim s = trim_end_by is_white (trim_start s)

-- A word that is not empty, in front of the words behind it.
abbrev pub push_word : Text → List Text → List Text
push_word [] ws = ws
push_word (c ∷ w) ws = (c ∷ w) ∷ ws

unfoldable pub words_from : Text → Text → List Text
words_from w [] = push_word w []
words_from w (c ∷ s) =
    let ended = push_word w (words_from [] s) in
    let longer = words_from (w ++ c ∷ []) s in if is_white c then ended else longer

unfoldable pub split_whitespace : Text → List Text
unfolding words_from
split_whitespace s = words_from [] s
