-- ===== src/Exec/Keeps.antt =====
-- Invariants of actions, with a rule for each way to build one.
use rust_adv_pop.Prelude.{◌≡◌, refl, Bool, true, false, if◌then◌else◌}
use rust_adv_pop.Error.{Pop3Error, PopResult, ok, err}
use rust_adv_pop.Exec.{Exec, pure, fail, lift, continue, ◌>>=◌, mapped, with_error}

-- The action keeps `P` whether it returns or fails.
pub record Keeps {S A : Type 0} (P : S → Type 0) (m : Exec S A) : Type 0 where
  pub at : (s : S) → P s → P (m s).1

mapped-state :
    {S A : Type 0} (f : Pop3Error → Pop3Error) (r : PopResult A × S) → (mapped f r).1 ≡ r.1
mapped-state f (ok a, s) = refl
mapped-state f (err e, s) = refl

module _ {S A : Type 0} {P : S → Type 0} where
  pub Keeps-pure : (a : A) → Keeps P (pure a)
  Keeps-pure a = record { at = λ s h. h }

  pub Keeps-fail : (e : Pop3Error) → Keeps P (fail {A = A} e)
  Keeps-fail e = record { at = λ s h. h }

  pub Keeps-lift : (r : PopResult A) → Keeps P (lift r)
  Keeps-lift r = record { at = λ s h. h }

  pub Keeps-if : (b : Bool) (m n : Exec S A) → Keeps P m → Keeps P n → Keeps P (if b then m else n)
  Keeps-if true m n km kn = km
  Keeps-if false m n km kn = kn

  pub Keeps-with_error :
      (f : Pop3Error → Pop3Error) (m : Exec S A) → Keeps P m → Keeps P (with_error f m)
  Keeps-with_error f m km = record { at = λ s h. rw (mapped-state f (m s)) (km.at s h) }

module _ {S A B : Type 0} {P : S → Type 0} where
  Keeps-continue :
      (r : PopResult A × S) (f : A → Exec S B)
      → P r.1
      → ((a : A) → Keeps P (f a))
      → P (continue r f).1
  Keeps-continue (ok a, s) f h kf = (kf a).at s h
  Keeps-continue (err e, s) f h kf = h

  pub Keeps-bind :
      (m : Exec S A) (f : A → Exec S B) → Keeps P m → ((a : A) → Keeps P (f a)) → Keeps P (m >>= f)
  Keeps-bind m f km kf = record { at = λ s h. Keeps-continue (m s) f (km.at s h) kf }

module _ {S A B : Type 0} {P : S → Type 0} where
  -- What follows may use that the result was not an error.
  pub Keeps-bind-lift :
      (r : PopResult A) (f : A → Exec S B)
      → ((a : A) → r ≡ ok a → Keeps P (f a))
      → Keeps P (lift r >>= f)
  Keeps-bind-lift (ok a) f kf = kf a refl
  Keeps-bind-lift (err e) f kf = record { at = λ s h. h }

pub ruleset keeps_rules =
    (Keeps-pure, Keeps-fail, Keeps-lift, Keeps-if, Keeps-with_error, Keeps-bind)
