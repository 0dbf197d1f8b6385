-- ===== src/Text/Solid.antt =====
-- Words without whitespace: how trimming and splitting treat texts that are made of them.
use rust_adv_pop.Prelude.{
  ℕ, ◌≡◌, ◌≢◌, refl, ◌∙◌, true, false, List, ap, inl, inr, Bool-cases, ◌==◌, ==_iff, [], ◌∷◌, ◌++◌,
  append-nil, append_assoc, arith, All, Lacks,
}
use rust_adv_pop.Text.Words.{
  Text, cr, lf, space, is_white, hold, trim_end_by, trim, push_word, words_from, split_whitespace,
}
use rust_adv_pop.Text.Lines.{strip_cr, lines_from, lines}
use rust_adv_pop.Text.Decimal.{IsDigit}

abbrev pub IsSolid : Text → Type 0
IsSolid = All (λ c. is_white c ≡ false)

pub digits-IsSolid : (s : Text) → All IsDigit s → IsSolid s
unfolding is_white
digits-IsSolid [] h = tt
digits-IsSolid (c ∷ s) h = (ground arith, digits-IsSolid s h.1)

solid-ne-lf : (c : ℕ) → is_white c ≡ false → c ≢ lf
unfolding is_white
solid-ne-lf c h = ground arith

solid-ne-cr : (c : ℕ) → is_white c ≡ false → c ≢ cr
unfolding is_white
solid-ne-cr c h = ground arith

pub solid-Lacks-lf : (s : Text) → IsSolid s → Lacks lf s
solid-Lacks-lf [] h = tt
solid-Lacks-lf (c ∷ s) h = (solid-ne-lf c h.0, solid-Lacks-lf s h.1)

pub solid-Lacks-cr : (s : Text) → IsSolid s → Lacks cr s
solid-Lacks-cr [] h = tt
solid-Lacks-cr (c ∷ s) h = (solid-ne-cr c h.0, solid-Lacks-cr s h.1)

append-ne-nil : (s t : Text) → t ≢ [] → s ++ t ≢ []
append-ne-nil [] t h = h
append-ne-nil (c ∷ s) t h = λ e. ground arith

hold-ne-nil : (c : ℕ) (s : Text) → s ≢ [] → hold is_white c s ≡ c ∷ s
hold-ne-nil c [] h = absurd (h refl)
hold-ne-nil c (d ∷ s) h = refl

hold-IsSolid : (c : ℕ) (s : Text) → is_white c ≡ false → hold is_white c s ≡ c ∷ s
hold-IsSolid c [] h = rw h
hold-IsSolid c (d ∷ s) h = refl

trim_end-IsSolid : (s : Text) → IsSolid s → trim_end_by is_white s ≡ s
unfolding trim_end_by
trim_end-IsSolid [] h = refl
trim_end-IsSolid (c ∷ s) h = rw (trim_end-IsSolid s h.1) (hold-IsSolid c s h.0)

trim_end-append : (s t : Text) → t ≢ [] → IsSolid t → trim_end_by is_white (s ++ t) ≡ s ++ t
unfolding trim_end_by
trim_end-append [] t full h = trim_end-IsSolid t h
trim_end-append (c ∷ s) t full h =
    rw (trim_end-append s t full h) (hold-ne-nil c (s ++ t) (append-ne-nil s t full))

-- A text that begins and ends in words is trimmed already.
pub trim-solid_ends :
    (a m b : Text) → a ≢ [] → IsSolid a → b ≢ [] → IsSolid b → trim (a ++ (m ++ b)) ≡ a ++ (m ++ b)
unfolding trim
trim-solid_ends [] m b full ha more hb = absurd (full refl)
trim-solid_ends (c ∷ a) m b full ha more hb =
    rw ha.0 (rw (← append_assoc a m b) (trim_end-append (c ∷ (a ++ m)) b more hb))

pub trim-IsSolid : (s : Text) → IsSolid s → trim s ≡ s
unfolding trim
trim-IsSolid [] h = refl
trim-IsSolid (c ∷ s) h = rw h.0 (trim_end-IsSolid (c ∷ s) h)

pub words_from-solid : (w v : Text) → IsSolid v → words_from w v ≡ push_word (w ++ v) []
unfolding words_from
words_from-solid w [] h = rw append-nil
words_from-solid w (c ∷ v) h = rw h.0 (words_from-solid (w ++ c ∷ []) v h.1 ∙ rw append_assoc)

pub words_from-append :
    (w v : Text) (c : ℕ) (rest : Text)
    → IsSolid v
    → is_white c ≡ true
    → words_from w (v ++ c ∷ rest) ≡ push_word (w ++ v) (words_from [] rest)
unfolding words_from
words_from-append w [] c rest h white = rw (white, append-nil)
words_from-append w (d ∷ v) c rest h white =
    rw h.0 (words_from-append (w ++ d ∷ []) v c rest h.1 white ∙ rw append_assoc)

push_word-full : (w : Text) (ws : List Text) → w ≢ [] → push_word w ws ≡ w ∷ ws
push_word-full [] ws h = absurd (h refl)
push_word-full (c ∷ w) ws h = refl

space-white : is_white space ≡ true
unfolding is_white
space-white = refl

pub split-solid : (v : Text) → v ≢ [] → IsSolid v → split_whitespace v ≡ v ∷ []
unfolding split_whitespace
split-solid v full h = words_from-solid [] v h ∙ push_word-full v [] full

-- The first word ends at the space behind it.
pub split-append :
    (v rest : Text)
    → v ≢ []
    → IsSolid v
    → split_whitespace (v ++ space ∷ rest) ≡ v ∷ split_whitespace rest
unfolding split_whitespace
split-append v rest full h =
    words_from-append [] v space rest h space-white ∙ push_word-full v (words_from [] rest) full

strip_cr-Lacks : (s : Text) → Lacks cr s → strip_cr s ≡ s
unfolding strip_cr
strip_cr-Lacks [] h = refl
strip_cr-Lacks (c ∷ []) h = ground arith
strip_cr-Lacks (c ∷ d ∷ s) h = rw (strip_cr-Lacks (d ∷ s) h.1)

lines_from-append :
    (w v rest : Text)
    → Lacks lf v
    → lines_from w (v ++ lf ∷ rest) ≡ strip_cr (w ++ v) ∷ lines_from [] rest
unfolding lines_from
lines_from-append w [] rest h = rw append-nil
lines_from-append w (c ∷ v) rest h = elim (Bool-cases (c == lf)) [
  | inl e ↦ absurd (h.0 ((==_iff c lf).0 e))
  | inr e ↦ rw e (lines_from-append (w ++ c ∷ []) v rest h.1 ∙ rw append_assoc)
]

-- The first line ends at the '\n' behind it.
pub lines-append :
    (v rest : Text) → Lacks cr v → Lacks lf v → lines (v ++ lf ∷ rest) ≡ v ∷ lines rest
unfolding lines
lines-append v rest no_cr no_lf =
    lines_from-append [] v rest no_lf ∙ ap (λ l. l ∷ lines_from [] rest) (strip_cr-Lacks v no_cr)
