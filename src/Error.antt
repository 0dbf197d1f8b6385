-- ===== src/Error.antt =====
-- src/error.rs: the error type, and results of fallible code.
use rust_adv_pop.Prelude.{ℕ, Bool, true, false, Option, none, some}
use rust_adv_pop.Text.{Text}

-- The kinds of `std::io::Error` that the crate makes itself, and those of the system.
pub data IoKind : Type 0 where
  broken_pipe invalid_data unsupported : IoKind
  system : ℕ → IoKind

pub record IoError : Type 0 where
  pub kind : IoKind
  pub message : Text

pub data Pop3Error : Type 0 where
  io : IoError → Pop3Error
  tls invalid_dns_name mailbox_in_use login_delay sys_temp sys_perm : Text → Pop3Error
  server_error auth_failed parse mime_parse : Text → Pop3Error
  not_authenticated invalid_input timeout connection_closed : Pop3Error

pub data Result {ℓ} (E : Type 0) (A : Type ℓ) : Type ℓ where
  ok : A → Result E A
  err : E → Result E A

abbrev pub PopResult {ℓ} : Type ℓ → Type ℓ
PopResult A = Result Pop3Error A

infixl 5 ◌>>=◌
abbrev pub ◌>>=◌ {ℓ κ} :
    {E : Type 0} {A : Type ℓ} {B : Type κ} → Result E A → (A → Result E B) → Result E B
ok a >>= f = f a
err e >>= f = err e

-- `Option::ok_or_else`, also behind `map_err(|_| e)`.
abbrev pub ok_or {ℓ} : {A : Type ℓ} → Pop3Error → Option A → PopResult A
ok_or e none = err e
ok_or e (some a) = ok a

abbrev pub map_err {ℓ} : {E F : Type 0} {A : Type ℓ} → (E → F) → Result E A → Result F A
map_err f (ok a) = ok a
map_err f (err e) = err (f e)

abbrev pub is_ok {ℓ} : {E : Type 0} {A : Type ℓ} → Result E A → Bool
is_ok (ok a) = true
is_ok (err e) = false
