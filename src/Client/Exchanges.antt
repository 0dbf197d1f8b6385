-- ===== src/Client/Exchanges.antt =====
-- Invariants of the logins and exchanges of src/client.rs.
pub mod Mailbox
use rust_adv_pop.Prelude.{
  ℕ, ◌≡◌, ◌≢◌, ◌≤◌, refl, sym, subst, ◌⊎◌, Bool, true, false, ◌||◌, Option, none, some, List, [],
  ◌∷◌, ◌++◌, arith, ◌==◌, if◌then◌else◌, Bool-cases, inl, inr, All, Lacks, All-append,
}
use rust_adv_pop.Text.{
  Text, codes, cr, lf, crlf, space, contains, decimal, decimal-digits, digits-IsSolid,
  solid-Lacks-cr, solid-Lacks-lf,
}
use rust_adv_pop.Error.{PopResult, Result, ok, err, invalid_input}
use rust_adv_pop.Types.{SessionState, connected, authenticated, disconnected}
use rust_adv_pop.Exec.{Exec, pure, lift, continue, ◌>>=◌, ◌>>◌, with_error}
use rust_adv_pop.Exec.Keeps.{
  Keeps, Keeps-pure, Keeps-lift, Keeps-bind, Keeps-if, Keeps-with_error, Keeps-bind-lift,
}
use rust_adv_pop.Transport.{Transport, write_all, flush, read_line, read_multiline}
use rust_adv_pop.Transport.Discipline.{
  Discipline, send_command-Keeps, read_line-Keeps, read_multiline-Keeps,
}
use rust_adv_pop.Client.{
  Pop3Client, over_result, over, exchange, send_and_check, require_auth, require_connected,
  check_no_crlf, validate_message_id, no_value, capa, or_default, default_list, probe, set_state,
  set_pipelining, promote, user_pass, login, apop_digest, apop, stls, stat, list, uidl, retr, dele,
  rset, noop, top, compute_apop_digest, timestamp_of, not_before_auth, not_encrypted,
}
use rust_adv_pop.Client.Batch.{retr_many_pipelined, dele_many_pipelined}

-- An action that leaves the client as it was keeps everything.
pub still-Keeps :
    {A : Type 0} {R : Pop3Client → Type 0} (m : Exec Pop3Client A)
    → ((c : Pop3Client) → (m c).1 ≡ c)
    → Keeps R m
still-Keeps {R = R} m still = record { at = λ c h. subst R (sym (still c)) h }

pub require_auth-still : (c : Pop3Client) → (require_auth c).1 ≡ c
unfolding require_auth
require_auth-still c = ground arith

pub require_connected-still : (c : Pop3Client) → (require_connected c).1 ≡ c
unfolding require_connected
require_connected-still c = ground arith

timestamp_of-still : (c : Pop3Client) → (timestamp_of c).1 ≡ c
unfolding timestamp_of
timestamp_of-still c = ground arith

pub not_before_auth-still : (c : Pop3Client) → (not_before_auth c).1 ≡ c
unfolding not_before_auth
not_before_auth-still c = ground arith

pub not_encrypted-still : (c : Pop3Client) → (not_encrypted c).1 ≡ c
unfolding not_encrypted
not_encrypted-still c = ground arith

contains-Lacks : (c : ℕ) (s : Text) → contains c s ≡ false → Lacks c s
unfolding contains
contains-Lacks c [] h = tt
contains-Lacks c (x ∷ s) h = (ground arith, contains-Lacks c s (ground arith))

check-Lacks : (s : Text) (u : Unit {0}) → check_no_crlf s ≡ ok u → Lacks cr s × Lacks lf s
unfolding check_no_crlf
check-Lacks s u h = (contains-Lacks cr s (ground arith), contains-Lacks lf s (ground arith))

pub decimal-Lacks : (n : ℕ) → Lacks cr (decimal n) × Lacks lf (decimal n)
decimal-Lacks n =
    let solid = digits-IsSolid (decimal n) (decimal-digits n) in
    (solid-Lacks-cr (decimal n) solid, solid-Lacks-lf (decimal n) solid)

-- The digits of `{:x}`.
abbrev pub IsHexDigit : ℕ → Type 0
IsHexDigit c = ((b'0' ≤ c) × (c ≤ b'9')) ⊎ ((b'a' ≤ c) × (c ≤ b'f'))

hex-Lacks : (s : Text) → All IsHexDigit s → Lacks cr s × Lacks lf s
hex-Lacks [] h = (tt, tt)
hex-Lacks (c ∷ s) (digit, rest) =
    let (no_cr, no_lf) = hex-Lacks s rest in ((ground arith, no_cr), (ground arith, no_lf))

-- What the exchanges of a client keep: a command that is one line, a multi-line body, and the
-- pipelined batches.
pub record Habit (R : Pop3Client → Type 0) : Type 0 where
  pub command : (cmd : Text) → Lacks cr cmd × Lacks lf cmd → Keeps R (send_and_check cmd)
  pub body : Keeps R (over read_multiline)
  pub retr_pipe : (ids : List ℕ) → Keeps R (retr_many_pipelined ids)
  pub dele_pipe : (ids : List ℕ) → Keeps R (dele_many_pipelined ids)

default_list-state : {A : Type 0} (r : PopResult (List A) × Pop3Client) → (default_list r).1 ≡ r.1
default_list-state (ok l, c) = refl
default_list-state (err e, c) = refl

or_default-Keeps :
    {A : Type 0} {R : Pop3Client → Type 0} (m : Exec Pop3Client (List A))
    → Keeps R m
    → Keeps R (or_default m)
or_default-Keeps {R = R} m k = record {
  at = λ c h. subst R (sym (default_list-state (m c))) (k.at c h);
}

module _ {R : Pop3Client → Type 0} (habit : Habit R) where
  pub capa-Keeps : Keeps R capa
  unfolding capa
  capa-Keeps =
      Keeps-bind _ _ (habit.command (codes "CAPA") (omega arith, omega arith))
        (λ _. Keeps-bind _ _ habit.body (λ body. Keeps-pure _))

  pub probe-Keeps : ((b : Bool) → Keeps R (set_pipelining b)) → Keeps R probe
  unfolding probe
  probe-Keeps marks = Keeps-bind _ _ (or_default-Keeps capa capa-Keeps) (λ caps. marks _)

  accepted-Keeps :
      (cmd : Text)
      → Lacks cr cmd × Lacks lf cmd
      → Keeps R (no_value (with_error promote (send_and_check cmd)))
  accepted-Keeps cmd clean =
      Keeps-bind _ _ (Keeps-with_error promote _ (habit.command cmd clean)) (λ _. Keeps-pure tt)

  -- The login writes its arguments only behind the check for line breaks.
  pub user_pass-Keeps : (username password : Text) → Keeps R (user_pass username password)
  unfolding user_pass
  user_pass-Keeps username password =
      Keeps-bind _ _ (still-Keeps require_connected require_connected-still) (λ _.
        Keeps-bind-lift (check_no_crlf username) _ (λ u clean_user.
          Keeps-bind-lift (check_no_crlf password) _ (λ w clean_pass.
            let (user_cr, user_lf) = check-Lacks username u clean_user in
            let (pass_cr, pass_lf) = check-Lacks password w clean_pass in
            Keeps-bind _ _
              (Keeps-with_error promote _ (
                habit.command (codes "USER " ++ username) (
                  All-append _ (codes "USER ") username (omega arith) user_cr,
                  All-append _ (codes "USER ") username (omega arith) user_lf,
                )))
              (λ _. accepted-Keeps (codes "PASS " ++ password) (
                All-append _ (codes "PASS ") password (omega arith) pass_cr,
                All-append _ (codes "PASS ") password (omega arith) pass_lf,
              )))))

  pub apop_digest-Keeps :
      (md5 : Text → Text)
      → ((s : Text) → All IsHexDigit (md5 s))
      → (username password : Text) → Keeps R (apop_digest md5 username password)
  unfolding apop_digest compute_apop_digest
  apop_digest-Keeps md5 hex username password =
      Keeps-bind _ _ (still-Keeps require_connected require_connected-still) (λ _.
        Keeps-bind-lift (check_no_crlf username) _ (λ u clean_user.
          Keeps-bind _ _ (Keeps-lift (check_no_crlf password)) (λ _.
            Keeps-bind _ _ (still-Keeps timestamp_of timestamp_of-still) (λ timestamp.
              let (user_cr, user_lf) = check-Lacks username u clean_user in
              let (hex_cr, hex_lf) = hex-Lacks _ (hex (timestamp ++ password)) in
              accepted-Keeps _ (
                All-append _ (codes "APOP ") _ (omega arith)
                    (All-append _ username _ user_cr (omega arith, hex_cr)),
                All-append _ (codes "APOP ") _ (omega arith)
                    (All-append _ username _ user_lf (omega arith, hex_lf)),
              )))))

  -- Behind an accepted login come the new state and the probe.
  pub login-Keeps :
      ((s : SessionState) → Keeps R (set_state s))
      → ((b : Bool) → Keeps R (set_pipelining b))
      → (username password : Text) → Keeps R (login username password)
  unfolding login
  login-Keeps states marks username password =
      Keeps-bind _ _ (user_pass-Keeps username password)
        (λ _. Keeps-bind _ _ (states authenticated) (λ _. probe-Keeps marks))

  pub apop-Keeps :
      ((s : SessionState) → Keeps R (set_state s))
      → ((b : Bool) → Keeps R (set_pipelining b))
      → (md5 : Text → Text) → ((s : Text) → All IsHexDigit (md5 s))
      → (username password : Text) → Keeps R (apop md5 username password)
  unfolding apop
  apop-Keeps states marks md5 hex username password =
      Keeps-bind _ _ (apop_digest-Keeps md5 hex username password)
        (λ _. Keeps-bind _ _ (states authenticated) (λ _. probe-Keeps marks))
