-- ===== src/Exec.antt =====
-- Methods that take `&mut self` and may fail: what was written before an error stays written, so the
-- state comes back beside the error too. `?` is the bind of this monad.
pub mod Keeps
pub mod Laws
use rust_adv_pop.Error.{Pop3Error, PopResult, Result, ok, err}

abbrev pub Exec : Type 0 → Type 0 → Type 0
Exec S A = S → PopResult A × S

module _ {S A : Type 0} where
  abbrev pub pure : A → Exec S A
  pure a s = (ok a, s)

  abbrev pub fail : Pop3Error → Exec S A
  fail e s = (err e, s)

  -- A pure result that `?` is put behind.
  abbrev pub lift : PopResult A → Exec S A
  lift r s = (r, s)

module _ {S A B : Type 0} where
  abbrev pub continue : PopResult A × S → (A → Exec S B) → PopResult B × S
  continue (ok a, s) f = f a s
  continue (err e, s) f = (err e, s)

  infixl 5 ◌>>=◌ ◌>>◌
  abbrev pub ◌>>=◌ : Exec S A → (A → Exec S B) → Exec S B
  ◌>>=◌ m f s = continue (m s) f

  abbrev pub ◌>>◌ : Exec S A → Exec S B → Exec S B
  m >> n = m >>= λ _. n

module _ {S A : Type 0} where
  abbrev pub mapped : (Pop3Error → Pop3Error) → PopResult A × S → PopResult A × S
  mapped f (ok a, s) = (ok a, s)
  mapped f (err e, s) = (err (f e), s)

  -- `map_err(f)`: the error is mapped, the state is not.
  abbrev pub with_error : (Pop3Error → Pop3Error) → Exec S A → Exec S A
  with_error f m s = mapped f (m s)
