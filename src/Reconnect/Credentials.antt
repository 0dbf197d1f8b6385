-- ===== src/Reconnect/Credentials.antt =====
-- `connect_and_auth` of src/reconnect.rs, over builders with and without credentials of their own.
use rust_adv_pop.Prelude.{◌≡◌, ◌≢◌, refl, ap, sym, ◌∙◌, All}
use rust_adv_pop.Text.{Text}
use rust_adv_pop.Error.{not_authenticated, Pop3Error, PopResult, ok, err, ◌>>=◌}
use rust_adv_pop.Types.{authenticated}
use rust_adv_pop.Exec.{Exec, continue}
use rust_adv_pop.Client
use rust_adv_pop.Client.{Pop3Client}
use rust_adv_pop.Client.Exchanges.{IsHexDigit}
use rust_adv_pop.Client.Call.States.{login-LogsIn, apop-LogsIn, login-refused}
use rust_adv_pop.Builder
use rust_adv_pop.Builder.{
  AuthMode, no_auth, login_auth, apop_auth, Pop3ClientBuilder, Network, authenticate_by, set_up,
  finished,
}
use rust_adv_pop.Reconnect.{logged_in, connect_and_auth}

abbrev returned : Pop3Client → PopResult Pop3Client
returned c = ok c

-- The client is authenticated, if there is one.
abbrev pub IsLoggedIn : PopResult Pop3Client → Type 0
IsLoggedIn r = (c : Pop3Client) → r ≡ ok c → c.state ≡ authenticated

ok-injective : {c d : Pop3Client} → returned c ≡ ok d → c ≡ d
ok-injective e = cc

pub logged_in-IsLoggedIn :
    (r : PopResult (Unit {0}) × Pop3Client)
    → (r.0 ≡ ok tt → r.1.state ≡ authenticated)
    → IsLoggedIn (logged_in r)
logged_in-IsLoggedIn (ok done, c) h d e =
    ap (λ (x : Pop3Client). x.state) (sym (ok-injective e)) ∙ h refl
logged_in-IsLoggedIn (err f, c) h d e = cc

bind-IsLoggedIn :
    (username password : Text) (r : PopResult Pop3Client)
    → IsLoggedIn (do c ← r; logged_in (Client.login username password c))
bind-IsLoggedIn username password (ok c) =
    logged_in-IsLoggedIn (Client.login username password c) (login-LogsIn username password c).0
bind-IsLoggedIn username password (err f) = λ d e. cc

-- A client that `connect_and_auth` returns is authenticated.
pub connect_and_auth-authenticated :
    (md5 : Text → Text) (b : Pop3ClientBuilder) (username password : Text) (network : Network)
    → (c : Pop3Client) → connect_and_auth md5 b username password network ≡ ok c
    → c.state ≡ authenticated
unfolding connect_and_auth
connect_and_auth-authenticated md5 b username password network c e =
    bind-IsLoggedIn username password (Builder.connect md5 b network).0 c e

authenticate_by-authenticated :
    (md5 : Text → Text) (hex : (s : Text) → All IsHexDigit (md5 s)) (a : AuthMode) (c : Pop3Client)
    → a ≢ no_auth
    → (authenticate_by md5 a c).0 ≡ ok tt
    → (authenticate_by md5 a c).1.state ≡ authenticated
unfolding authenticate_by
authenticate_by-authenticated md5 hex no_auth c h e = absurd (h refl)
authenticate_by-authenticated md5 hex (login_auth u p) c h e = (login-LogsIn u p c).0 e
authenticate_by-authenticated md5 hex (apop_auth u p) c h e = (apop-LogsIn md5 u p c hex).0 e

continue-authenticated :
    (r : PopResult (Unit {0}) × Pop3Client) (m : Exec Pop3Client (Unit {0}))
    → ((c : Pop3Client) → (m c).0 ≡ ok tt → (m c).1.state ≡ authenticated)
    → (continue r (λ _. m)).0 ≡ ok tt
    → (continue r (λ _. m)).1.state ≡ authenticated
continue-authenticated (ok done, c) m h e = h c e
continue-authenticated (err f, c) m h e = cc

finished-IsLoggedIn :
    (r : PopResult (Unit {0}) × Pop3Client)
    → (r.0 ≡ ok tt → r.1.state ≡ authenticated)
    → IsLoggedIn (finished r).0
finished-IsLoggedIn (ok done, c) h d e =
    ap (λ (x : Pop3Client). x.state) (sym (ok-injective e)) ∙ h refl
finished-IsLoggedIn (err f, c) h d e = cc

set_up_on-IsLoggedIn :
    (md5 : Text → Text) (hex : (s : Text) → All IsHexDigit (md5 s)) (b : Pop3ClientBuilder)
    → b.auth ≢ no_auth
    → (r : PopResult Pop3Client) → IsLoggedIn (Builder.set_up_on md5 b r).0
unfolding set_up
set_up_on-IsLoggedIn md5 hex b h (err f) = λ c e. cc
set_up_on-IsLoggedIn md5 hex b h (ok c) = finished-IsLoggedIn (set_up md5 b c) (
    continue-authenticated _ (authenticate_by md5 b.auth)
      (λ d. authenticate_by-authenticated md5 hex b.auth d h))

-- What is returned is an error.
abbrev pub IsFailure : PopResult Pop3Client → Type 0
IsFailure r = (e : Pop3Error) × (r ≡ err e)

login_again :
    (username password : Text) (r : PopResult Pop3Client)
    → IsLoggedIn r
    → IsFailure (do c ← r; logged_in (Client.login username password c))
login_again username password (err e) h = (e, refl)
login_again username password (ok c) h =
    (not_authenticated, ap logged_in (login-refused username password c (λ q. cc (h c refl))))

-- Behind a builder with credentials of its own, `connect_and_auth` logs in twice, and so it never
-- returns a client: it fails on every network, if the MD5 digest is printed in hexadecimal digits.
pub connect_and_auth-credentials :
    (md5 : Text → Text) (b : Pop3ClientBuilder) (username password : Text) (network : Network)
    → ((s : Text) → All IsHexDigit (md5 s))
    → b.auth ≢ no_auth
    → IsFailure (connect_and_auth md5 b username password network)
unfolding connect_and_auth Builder.connect
connect_and_auth-credentials md5 b username password network hex h =
    login_again username password _ (set_up_on-IsLoggedIn md5 hex b h _)
