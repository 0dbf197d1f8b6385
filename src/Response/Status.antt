-- ===== src/Response/Status.antt =====
-- The status lines that src/response.rs accepts.
use rust_adv_pop.Prelude.{
  ◌≡◌, true, inl, inr, some, [], ◌∷◌, ◌++◌, arith, drop, ap, Option-cases, Bool-cases,
}
use rust_adv_pop.Text.{Text, codes, strip_prefix, trim_start, chomp}
use rust_adv_pop.Error.{ok}
use rust_adv_pop.Response.{ends_word, has_status, parse_status_line}

strip_prefix-some : (p s r : Text) → strip_prefix p s ≡ some r → s ≡ p ++ r
unfolding strip_prefix
strip_prefix-some [] s r h = ground arith
strip_prefix-some (c ∷ p) [] r h = cc
strip_prefix-some (c ∷ p) (d ∷ s) r h = ground (arith, strip_prefix-some p s r)

has_status-StartsWith :
    (word line : Text)
    → has_status word line ≡ true
    → (rest : Text) × (line ≡ word ++ rest) × (ends_word rest ≡ true)
unfolding has_status
has_status-StartsWith word line h = elim (Option-cases (strip_prefix word line)) [
  | inl e ↦ absurd (ground arith)
  | inr (rest, e) ↦ (rest, strip_prefix-some word line rest e, rw (e, has_status) at h)
]

accepted_text :
    (line text rest : Text)
    → has_status (codes "+OK") (chomp line) ≡ true
    → chomp line ≡ codes "+OK" ++ rest
    → parse_status_line line ≡ ok text
    → text ≡ trim_start rest
unfolding parse_status_line
accepted_text line text rest accepted spelled h =
    ground (arith, ap (λ (l : Text). trim_start (drop 3 l)) spelled)

-- A line is accepted only if, without its line ending, it is "+OK" and then nothing or ASCII
-- whitespace; the text is what stands behind, its leading whitespace trimmed.
pub parse_status_line-ok :
    (line text : Text)
    → parse_status_line line ≡ ok text
    → (rest : Text) × (chomp line ≡ codes "+OK" ++ rest)
      × (ends_word rest ≡ true)
      × (text ≡ trim_start rest)
unfolding parse_status_line
parse_status_line-ok line text h = elim (Bool-cases (has_status (codes "+OK") (chomp line))) [
  | inl yes_ok ↦
      let (rest, spelled, ended) = has_status-StartsWith (codes "+OK") (chomp line) yes_ok in
      (rest, spelled, ended, accepted_text line text rest yes_ok spelled h)
  | inr not_ok ↦ absurd (ground arith)
]
