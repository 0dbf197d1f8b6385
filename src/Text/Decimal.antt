-- ===== src/Text/Decimal.antt =====
-- Decimal numbers: `Display` of an unsigned integer, and `str::parse` into one. Its error values are
-- not modelled, since every caller maps them away.
use rust_adv_pop.Prelude.{
  ℕ, zero, suc, ◌+◌, ◌-◌, ◌*◌, ◌/◌, ◌%◌, ◌^◌, ◌≤◌, ◌<◌, ◌≡◌, ◌≢◌, refl, ◌∙◌, inl, inr, ◌&&◌, Option,
  none, some, [], ◌∷◌, arith, ltb, leb, ◌==◌, if◌then◌else◌, Bool-cases, All,
}
use rust_adv_pop.Text.Words.{Text}

abbrev pub max_u32 : ℕ
max_u32 = 2 ^ 32 - 1

abbrev pub max_u64 : ℕ
max_u64 = 2 ^ 64 - 1

-- The digits of `n` in front of `out`; a number has fewer digits than `n + 1`.
unfoldable pub emit : ℕ → ℕ → Text → Text
emit zero n out = out
emit (suc fuel) n out =
    let more = emit fuel (n / 10) ((b'0' + n % 10) ∷ out) in
    if ltb n 10 then (b'0' + n) ∷ out else more

unfoldable pub decimal : ℕ → Text
unfolding emit
decimal n = emit (suc n) n []

abbrev pub IsDigit : ℕ → Type 0
IsDigit c = (b'0' ≤ c) × (c ≤ b'9')

-- `checked_mul(10)` and `checked_add(digit)` fail where the result passes the type's maximum.
unfoldable pub scan : ℕ → Text → ℕ → Option ℕ
scan max [] n = some n
scan max (c ∷ s) n =
    let m = n * 10 + (c - b'0') in
    if leb b'0' c && leb c b'9' && leb m max then scan max s m else none

abbrev pub after_sign : ℕ → Text → Option ℕ
after_sign max [] = none
after_sign max (c ∷ s) = scan max (c ∷ s) 0

-- One leading '+' is accepted.
unfoldable pub parse_uint : ℕ → Text → Option ℕ
unfolding scan
parse_uint max [] = none
parse_uint max (c ∷ s) = if c == b'+' then after_sign max s else scan max (c ∷ s) 0

-- Reading the last digit of `n` behind the digits before it gives `n`.
scan_last :
    (max n : ℕ) (out : Text) → n ≤ max → scan max ((b'0' + n % 10) ∷ out) (n / 10) ≡ scan max out n
unfolding scan
scan_last max n out fits = ground arith

scan_digit :
    (max n : ℕ) (out : Text) → n < 10 → n ≤ max → scan max ((b'0' + n) ∷ out) 0 ≡ scan max out n
unfolding scan
scan_digit max n out small fits = ground arith

scan-emit :
    (max fuel n : ℕ) (out : Text)
    → n < fuel
    → n ≤ max
    → scan max (emit fuel n out) 0 ≡ scan max out n
unfolding emit
scan-emit max zero n out short fits = absurd (omega arith)
scan-emit max (suc fuel) n out short fits = ground (
  arith,
  scan_digit max n out,
  scan_last max n out,
  scan-emit max fuel (n / 10) ((b'0' + n % 10) ∷ out),
)

-- What `emit` puts in front is digits, and at least one.
emit-digits : (fuel n : ℕ) (out : Text) → All IsDigit out → All IsDigit (emit fuel n out)
unfolding emit
emit-digits zero n out h = h
emit-digits (suc fuel) n out h = elim (Bool-cases (ltb n 10)) [
  | inl small ↦ rw small ((omega arith, ground arith), h)
  | inr large ↦
      rw large (emit-digits fuel (n / 10) ((b'0' + n % 10) ∷ out) ((omega arith, omega arith), h))
]

emit-ne-nil : (fuel n : ℕ) (out : Text) → out ≢ [] → emit fuel n out ≢ []
unfolding emit
emit-ne-nil zero n out h = h
emit-ne-nil (suc fuel) n out h = ground (arith, emit-ne-nil fuel (n / 10) ((b'0' + n % 10) ∷ out))

pub decimal-digits : (n : ℕ) → All IsDigit (decimal n)
unfolding decimal
decimal-digits n = emit-digits (suc n) n [] tt

pub decimal-ne-nil : (n : ℕ) → decimal n ≢ []
unfolding decimal
decimal-ne-nil n = ground (arith, emit-ne-nil n (n / 10) ((b'0' + n % 10) ∷ []))

-- A text of digits has no sign to skip.
parse_uint-scan : (max : ℕ) (s : Text) → s ≢ [] → All IsDigit s → parse_uint max s ≡ scan max s 0
unfolding parse_uint
parse_uint-scan max [] h digits = absurd (h refl)
parse_uint-scan max (c ∷ s) h digits = ground arith

-- A number that fits its type is read back from its print.
pub parse_uint-decimal : (max n : ℕ) → n ≤ max → parse_uint max (decimal n) ≡ some n
parse_uint-decimal max n fits =
    parse_uint-scan max (decimal n) (decimal-ne-nil n) (decimal-digits n)
    ∙ (unfold decimal scan in scan-emit max (suc n) n [] (omega arith) fits)
