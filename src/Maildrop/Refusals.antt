-- ===== src/Maildrop/Refusals.antt =====
-- The single commands of src/client.rs on a message that a maildrop does not show.
use rust_adv_pop.Prelude.{ℕ, ◌≤◌, ◌≢◌, some, List, ◌∷◌, ◌++◌}
use rust_adv_pop.Error.{server_error, err}
use rust_adv_pop.Text.{Text, crlf}
use rust_adv_pop.Exec.{Exec, lift, ◌>>=◌, ◌>>◌}
use rust_adv_pop.Transport.{upgrading}
use rust_adv_pop.Client
use rust_adv_pop.Client.{Pop3Client, send_and_check, require_auth, validate_message_id}
use rust_adv_pop.Maildrop.{no_such, refusal, Turn, asks, says, spelled, Request, request}
use rust_adv_pop.Maildrop
use rust_adv_pop.Maildrop.Dialogue.{Session, Ready, Yields}
use rust_adv_pop.Maildrop.Steps.{id_then, refused_then}

module _ (s : Session) (live : s.stream ≢ upgrading) (rest : List Turn) (c : Pop3Client) (id : ℕ)
    (valid : 1 ≤ id) where
  refused :
      {A : Type 0} (cmd : Text) (f : Text → Exec Pop3Client A)
      → Ready s (asks (cmd ++ crlf) ∷ says refusal ∷ rest) c
      → Yields s
          (require_auth >> (lift (validate_message_id id) >> (send_and_check cmd >>= f)))
          c
          (err (server_error no_such))
          rest
  refused cmd f h = id_then s live rest id _ _ _ c valid (λ d. refused_then s live rest cmd f d) h

  abbrev pub Denied : Request → Type 0
  Denied q = Ready s (request q ∷ says refusal ∷ rest) c

  pub list-refused :
      Denied (Maildrop.list_one id)
      → Yields s (Client.list (some id)) c (err (server_error no_such)) rest
  unfolding Client.list spelled
  list-refused h = refused _ _ h

  pub uidl-refused :
      Denied (Maildrop.uidl_one id)
      → Yields s (Client.uidl (some id)) c (err (server_error no_such)) rest
  unfolding Client.uidl spelled
  uidl-refused h = refused _ _ h

  pub retr-refused :
      Denied (Maildrop.retr id) → Yields s (Client.retr id) c (err (server_error no_such)) rest
  unfolding Client.retr spelled
  retr-refused h = refused _ _ h

  pub top-refused :
      (n : ℕ)
      → Denied (Maildrop.top id n)
      → Yields s (Client.top id n) c (err (server_error no_such)) rest
  unfolding Client.top spelled
  top-refused n h = refused _ _ h

  pub dele-refused :
      Denied (Maildrop.dele id) → Yields s (Client.dele id) c (err (server_error no_such)) rest
  unfolding Client.dele spelled
  dele-refused h = refused _ _ h
