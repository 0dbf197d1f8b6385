-- ===== src/Builder/Secrecy.antt =====
-- What a builder of src/builder.rs in the STARTTLS mode writes in plain text.
use rust_adv_pop.Prelude.{◌≡◌, refl, ap, sym, subst, ◌∙◌, ◌⊎◌, inl, List, [], ◌∷◌, All}
use rust_adv_pop.Text.{Text, codes, crlf}
use rust_adv_pop.Error.{PopResult, ok, err}
use rust_adv_pop.Exec.{Exec, continue, ◌>>◌}
use rust_adv_pop.Exec.Keeps.{Keeps, Keeps-bind, Keeps-lift, Keeps-pure}
use rust_adv_pop.Transport.{
  InnerStream, plain, rustls_tls, openssl_tls, mock, upgrading, Sent, Transport, upgrade_in_place,
}
use rust_adv_pop.Transport.Discipline.{send_command-Keeps, read_line-Keeps}
use rust_adv_pop.Transport.Upgrade.{upgrade_in_place-ok}
use rust_adv_pop.Transport.Kept.{upgrade-sent}
use rust_adv_pop.Client
use rust_adv_pop.Client.{
  Pop3Client, over, over_result, exchange, send_and_check, stls, login, set_state, set_pipelining,
}
use rust_adv_pop.Client.Exchanges.{
  Habit, IsHexDigit, still-Keeps, not_before_auth-still, not_encrypted-still, login-Keeps,
  apop-Keeps,
}
use rust_adv_pop.Client.Batch.Links.{OnLink, over-Keeps}
use rust_adv_pop.Client.Opening.{Opened, connect-Opened}
use rust_adv_pop.Builder
use rust_adv_pop.Builder.{
  TlsMode, start_tls, AuthMode, no_auth, login_auth, apop_auth, Pop3ClientBuilder, effective_port,
  Network, open_for, upgrade_for, authenticate_by, set_up, connect,
}
use rust_adv_pop.Builder.Discreet.{StlsOnly, Discreet, Discreet-discipline, Secured, Secured-habit}

-- A property of the client behind a success, and one behind a failure.
abbrev Post :
    {A : Type 0} → (Pop3Client → Type 0) → (Pop3Client → Type 0) → PopResult A × Pop3Client → Type 0
Post Q E (ok a, c) = Q c
Post Q E (err e, c) = E c

module _ (Q R E : Pop3Client → Type 0) where
  Post-bind :
      {A B : Type 0} (r : PopResult A × Pop3Client) (f : A → Exec Pop3Client B)
      → Post Q E r
      → ((a : A) (c : Pop3Client) → Q c → Post R E (f a c))
      → Post R E (continue r f)
  Post-bind (ok a, c) f h k = k a c h
  Post-bind (err e, c) f h k = h

-- What is kept holds behind a success and behind a failure.
Post-kept :
    {A : Type 0} (Q E : Pop3Client → Type 0) (r : PopResult A × Pop3Client)
    → Q r.1
    → ((c : Pop3Client) → Q c → E c)
    → Post Q E r
Post-kept Q E (ok a, c) h weaken = h
Post-kept Q E (err e, c) h weaken = weaken c h

Post-both :
    {A : Type 0} (Q E : Pop3Client → Type 0) (r : PopResult A × Pop3Client)
    → Post Q E r
    → ((c : Pop3Client) → Q c → E c)
    → E r.1
Post-both Q E (ok a, c) h weaken = weaken c h
Post-both Q E (err e, c) h weaken = h

abbrev D : Pop3Client → Type 0
D = OnLink Discreet

abbrev S : Pop3Client → Type 0
S = OnLink Secured

secured-discreet : (c : Pop3Client) → S c → D c
secured-discreet c h = h.before

upgrade-Post :
    (hostname : Text) (c : Pop3Client) (r : PopResult (Unit {0}) × Transport)
    → upgrade_in_place hostname c.transport ≡ r
    → D c
    → Post S D (over_result c r)
upgrade-Post hostname c (ok tt, u) e h =
    let up = upgrade_in_place-ok hostname c.transport u e in
    record { over_tls = up.now_tls; before = subst (All StlsOnly) (sym up.sent_eq) h }
upgrade-Post hostname c (err f, u) e h =
    subst (All StlsOnly)
      (sym (upgrade-sent hostname c.transport)
        ∙ ap (λ (r : PopResult (Unit {0}) × Transport). r.1.sent) e)
      h

send_stls : Keeps D (send_and_check (codes "STLS"))
unfolding send_and_check exchange
send_stls = over-Keeps (exchange (codes "STLS")) (
    Keeps-bind _ _ (send_command-Keeps Discreet-discipline (codes "STLS") (inl refl))
      (λ _. Keeps-bind _ _ (read_line-Keeps Discreet-discipline) (λ line. Keeps-lift _)))

-- Steps that keep the connection discreet, in front of what secures it.
first :
    {A : Type 0} (m : Exec Pop3Client A) (k : A → Exec Pop3Client (Unit {0})) (c : Pop3Client)
    → Keeps D m
    → D c
    → ((a : A) (c1 : Pop3Client) → D c1 → Post S D (k a c1))
    → Post S D (continue (m c) k)
first m k c kept h next =
    Post-bind D S D (m c) k (Post-kept D D (m c) (kept.at c h) (λ _ d. d)) next

stls-Post : (hostname : Text) (c : Pop3Client) → D c → Post S D (stls hostname c)
unfolding stls over
stls-Post hostname c h =
    first Client.not_before_auth _ c (still-Keeps Client.not_before_auth not_before_auth-still) h
      λ _ c1 h1.
        first Client.not_encrypted _ c1 (still-Keeps Client.not_encrypted not_encrypted-still) h1
          λ _ c2 h2.
            first (send_and_check (codes "STLS")) _ c2 send_stls h2
              λ _ c3 h3. upgrade-Post hostname c3 (upgrade_in_place hostname c3.transport) refl h3

pub authenticate-Keeps :
    (P : Transport → Type 0)
    → Habit (OnLink P)
    → (md5 : Text → Text) → ((s : Text) → All IsHexDigit (md5 s))
    → (auth : AuthMode) → Keeps (OnLink P) (authenticate_by md5 auth)
unfolding authenticate_by set_state set_pipelining
authenticate-Keeps P habit md5 hex no_auth = Keeps-pure tt
authenticate-Keeps P habit md5 hex (login_auth u p) =
    login-Keeps habit (λ s. record { at = λ c h. h }) (λ b. record { at = λ c h. h }) u p
authenticate-Keeps P habit md5 hex (apop_auth u p) =
    apop-Keeps habit (λ s. record { at = λ c h. h }) (λ b. record { at = λ c h. h }) md5 hex u p

start_tls-discreet :
    (md5 : Text → Text) (hostname : Text) (auth : AuthMode) (c : Pop3Client)
    → ((s : Text) → All IsHexDigit (md5 s))
    → D c
    → D ((upgrade_for start_tls hostname >> authenticate_by md5 auth) c).1
unfolding upgrade_for
start_tls-discreet md5 hostname auth c hex h =
    Post-both S D ((stls hostname >> authenticate_by md5 auth) c)
      (Post-bind S S D (stls hostname c) (λ _. authenticate_by md5 auth) (stls-Post hostname c h)
        (λ _ c1 h1.
          Post-kept S D (authenticate_by md5 auth c1)
            ((authenticate-Keeps Secured Secured-habit md5 hex auth).at c1 h1) secured-discreet))
      secured-discreet

pub finished-sent :
    (r : PopResult (Unit {0}) × Pop3Client) → (Builder.finished r).1 ≡ r.1.transport.sent
finished-sent (ok done, c) = refl
finished-sent (err e, c) = refl

set_up_on-Discreet :
    (md5 : Text → Text) (b : Pop3ClientBuilder) (r : PopResult Pop3Client)
    → ((s : Text) → All IsHexDigit (md5 s))
    → b.tls_mode ≡ start_tls
    → Opened Discreet r
    → All StlsOnly (Builder.set_up_on md5 b r).1
unfolding set_up
set_up_on-Discreet md5 b (err e) hex mode h = tt
set_up_on-Discreet md5 b (ok c) hex mode (fresh, h) =
    subst (All StlsOnly)
      (sym (
          ap
            (λ (m : TlsMode).
              ((upgrade_for m b.hostname >> authenticate_by md5 b.auth) c).1.transport.sent)
            mode)
        ∙ sym (finished-sent (set_up md5 b c)))
      (start_tls-discreet md5 b.hostname b.auth c hex h)

Discreet-start : (t : Transport) → t.stream ≡ plain → t.sent ≡ [] → Discreet t
Discreet-start t on empty = subst (All StlsOnly) (sym empty) tt

start_tls-StlsOnly :
    (md5 : Text → Text) (b : Pop3ClientBuilder) (network : Network)
    → ((s : Text) → All IsHexDigit (md5 s))
    → b.tls_mode ≡ start_tls
    → All StlsOnly (connect md5 b network).1
unfolding connect
start_tls-StlsOnly md5 b network hex mode = set_up_on-Discreet md5 b _ hex mode (
    subst
      (λ (m : TlsMode).
        Opened Discreet (open_for m b.hostname b.timeout (network b.hostname (effective_port b))))
      (sym mode)
      (unfold open_for in
        connect-Opened Discreet (read_line-Keeps Discreet-discipline) Discreet-start b.timeout
          (network b.hostname (effective_port b))))

-- In plain text there may be only the STLS command and its line ending.
abbrev pub StlsAlone : InnerStream → Text → Type 0
StlsAlone plain text = (text ≡ codes "STLS") ⊎ (text ≡ crlf)
StlsAlone rustls_tls text = Unit
StlsAlone openssl_tls text = Unit
StlsAlone mock text = Unit
StlsAlone upgrading text = Unit

alone_on :
    (s : InnerStream) (text : Text)
    → (s ≡ plain → (text ≡ codes "STLS") ⊎ (text ≡ crlf))
    → StlsAlone s text
alone_on plain text h = h refl
alone_on rustls_tls text h = tt
alone_on openssl_tls text h = tt
alone_on mock text h = tt
alone_on upgrading text h = tt

all_alone : (l : List Sent) → All StlsOnly l → All (λ s. StlsAlone s.channel s.text) l
all_alone [] h = tt
all_alone (s ∷ l) (h, rest) = (alone_on s.channel s.text h, all_alone l rest)

-- With STARTTLS, all that a builder's connection ever writes in plain text is the STLS command and
-- its line ending, and no credentials, whatever the server answers and wherever the set-up fails, if
-- the MD5 digest is printed in hexadecimal digits.
pub start_tls-StlsAlone :
    (md5 : Text → Text) (b : Pop3ClientBuilder) (network : Network)
    → ((s : Text) → All IsHexDigit (md5 s))
    → b.tls_mode ≡ start_tls
    → All (λ s. StlsAlone s.channel s.text) (connect md5 b network).1
start_tls-StlsAlone md5 b network hex mode =
    all_alone (connect md5 b network).1 (start_tls-StlsOnly md5 b network hex mode)
