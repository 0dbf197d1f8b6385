-- ===== src/Text/Lines.antt =====
-- Line endings: `str::lines`, and `trim_end_matches` at "\r\n" and at '\n'.
use rust_adv_pop.Prelude.{
  ℕ, ◌≡◌, refl, ◌&&◌, List, [], ◌∷◌, ◌++◌, arith, ◌==◌, if◌then◌else◌, Lacks,
}
use rust_adv_pop.Text.Words.{Text, cr, lf, crlf, hold, trim_end_by}

abbrev pub hold_crlf : ℕ → Text → Text
hold_crlf c [] = c ∷ []
hold_crlf c (d ∷ []) = if c == cr && d == lf then [] else c ∷ d ∷ []
hold_crlf c (d ∷ x ∷ r) = c ∷ d ∷ x ∷ r

-- `trim_end_matches("\r\n")`: every "\r\n" at the end goes.
unfoldable pub trim_end_crlf : Text → Text
trim_end_crlf [] = []
trim_end_crlf (c ∷ s) = hold_crlf c (trim_end_crlf s)

-- `trim_end_matches("\r\n").trim_end_matches('\n')`.
unfoldable pub chomp : Text → Text
unfolding trim_end_crlf trim_end_by
chomp s = trim_end_by (λ c. c == lf) (trim_end_crlf s)

-- A line that ended in '\n' loses one '\r' before it.
unfoldable pub strip_cr : Text → Text
strip_cr [] = []
strip_cr (c ∷ []) = if c == cr then [] else c ∷ []
strip_cr (c ∷ d ∷ s) = c ∷ strip_cr (d ∷ s)

abbrev pub last_line : Text → List Text
last_line [] = []
last_line (c ∷ w) = (c ∷ w) ∷ []

unfoldable pub lines_from : Text → Text → List Text
unfolding strip_cr
lines_from w [] = last_line w
lines_from w (c ∷ s) =
    let ended = strip_cr w ∷ lines_from [] s in
    let longer = lines_from (w ++ c ∷ []) s in if c == lf then ended else longer

unfoldable pub lines : Text → List Text
unfolding lines_from
lines s = lines_from [] s

hold_crlf-Lacks : (c : ℕ) (s : Text) → Lacks lf s → hold_crlf c s ≡ c ∷ s
hold_crlf-Lacks c [] h = refl
hold_crlf-Lacks c (d ∷ []) h = ground arith
hold_crlf-Lacks c (d ∷ x ∷ s) h = refl

hold-Lacks : (c : ℕ) (s : Text) → Lacks lf (c ∷ s) → hold (λ x. x == lf) c s ≡ c ∷ s
hold-Lacks c [] h = ground arith
hold-Lacks c (d ∷ s) h = refl

trim_end_crlf-Lacks : (s : Text) → Lacks lf s → trim_end_crlf s ≡ s
unfolding trim_end_crlf
trim_end_crlf-Lacks [] h = refl
trim_end_crlf-Lacks (c ∷ []) h = refl
trim_end_crlf-Lacks (c ∷ d ∷ s) h =
    rw (trim_end_crlf-Lacks (d ∷ s) h.1) (hold_crlf-Lacks c (d ∷ s) h.1)

trim_end_crlf-append : (s : Text) → Lacks lf s → trim_end_crlf (s ++ crlf) ≡ s
unfolding trim_end_crlf
trim_end_crlf-append [] h = refl
trim_end_crlf-append (c ∷ s) h = rw (trim_end_crlf-append s h.1) (hold_crlf-Lacks c s h.1)

trim_end_by-Lacks : (s : Text) → Lacks lf s → trim_end_by (λ c. c == lf) s ≡ s
unfolding trim_end_by
trim_end_by-Lacks [] h = refl
trim_end_by-Lacks (c ∷ s) h = rw (trim_end_by-Lacks s h.1) (hold-Lacks c s h)

-- A line without '\n' is what is left of it behind "\r\n".
pub chomp-append : (s : Text) → Lacks lf s → chomp (s ++ crlf) ≡ s
unfolding chomp
chomp-append s h = rw (trim_end_crlf-append s h) (trim_end_by-Lacks s h)

pub chomp-Lacks : (s : Text) → Lacks lf s → chomp s ≡ s
unfolding chomp
chomp-Lacks s h = rw (trim_end_crlf-Lacks s h) (trim_end_by-Lacks s h)
