-- ===== src/Client/Batch/Serial.antt =====
-- The sequential batches of src/client.rs on a quiet connection, one exchange after the other.
use rust_adv_pop.Prelude.{
  ℕ, ◌≡◌, ◌≢◌, ◌≤◌, refl, ap, sym, ◌∙◌, List, [], ◌∷◌, ◌++◌, append_assoc, append-nil, arith,
}
use rust_adv_pop.Text.{Text, crlf}
use rust_adv_pop.Error.{PopResult, ok, err}
use rust_adv_pop.Types.{authenticated}
use rust_adv_pop.Response.{parse_status_line}
use rust_adv_pop.Exec.{Exec, pure, lift, continue, ◌>>=◌, ◌>>◌}
use rust_adv_pop.Exec.Keeps.{Keeps}
use rust_adv_pop.Exec.Laws.{continue-ext, continue_assoc}
use rust_adv_pop.Transport.{
  InnerStream, upgrading, Sent, Transport, send_command, read_line, read_multiline,
}
use rust_adv_pop.Transport.Quiet.{
  Quiet, with_sent, with_sent-Quiet, Frames, on_channel, send_command-sent,
}
use rust_adv_pop.Client.{
  Pop3Client, over, over_result, exchange, send_and_check, validate_message_id, retr, dele,
  message_of,
}
use rust_adv_pop.Client.Batch.{
  Outcomes, each, retr_command, dele_command, read_retr_response, read_dele_response,
}
use rust_adv_pop.Client.Batch.Length.{require_auth-ok, ValidIds}
use rust_adv_pop.Client.Batch.Drain.{drain, drain-Frames, singles}

-- A command and its response.
abbrev pub one : {A : Type 0} → (ℕ → Text) → Exec Transport A → ℕ → Exec Transport A
one command response id = send_command (command id) >> response

unfoldable pub serial :
    {A : Type 0} → (ℕ → Exec Transport A) → List ℕ → Transport → Outcomes A × Transport
serial op [] t = ([], t)
serial op (id ∷ rest) t =
    let (r, t') = op id t in let (rs, t'') = serial op rest t' in (r ∷ rs, t'')

-- Commands one at a time get the responses in the order in which they come.
pub serial-drain :
    {A : Type 0} (s : InnerStream) (command : ℕ → Text) (response : Exec Transport A)
    → s ≢ upgrading
    → Frames response
    → Keeps (Quiet s) response
    → (ids : List ℕ) (t : Transport) → Quiet s t
    → serial (one command response) ids t ≡ (
      (drain response ids t).0,
      with_sent (t.sent ++ singles s command ids) (drain response ids t).1,
    )
unfolding serial drain
serial-drain s command response live frames keeps [] t h =
    ap (λ (l : List Sent). ([], with_sent l t)) (sym (append-nil t.sent))
serial-drain s command response live frames keeps (id ∷ rest) t h =
    let l = t.sent ++ on_channel s (command id) ∷ on_channel s crlf ∷ [] in
    let got = response t in
    let u : Transport = with_sent l got.1 in
    ap
      (λ (r : PopResult _ × Transport). (
        r.0 ∷ (serial (one command response) rest r.1).0,
        (serial (one command response) rest r.1).1,
      ))
      (ap (λ (r : PopResult (Unit {0}) × Transport). continue r (λ _. response))
          (send_command-sent s (command id) t live h)
        ∙ frames.at t l)
    ∙ ap (λ (d : Outcomes _ × Transport). (got.0 ∷ d.0, d.1))
        (serial-drain s command response live frames keeps rest u
            (with_sent-Quiet s got.1 l (keeps.at t h))
          ∙ ap (λ (d : Outcomes _ × Transport). (d.0, with_sent (l ++ singles s command rest) d.1))
              (drain-Frames response frames rest got.1 l)
          ∙ ap
              (λ (m : List Sent).
                ((drain response rest got.1).0, with_sent m (drain response rest got.1).1))
              (append_assoc t.sent (on_channel s (command id) ∷ on_channel s crlf ∷ [])
                (singles s command rest)))

over_bind :
    {A B : Type 0} (c : Pop3Client) (r : PopResult A × Transport) (f : A → Exec Transport B)
    → over_result c (continue r f) ≡ continue (over_result c r) (λ a. over (f a))
unfolding over
over_bind c (ok a, t) f = refl
over_bind c (err e, t) f = refl

-- What follows a checked command, on the client and on its connection.
send_and_check_then :
    {A : Type 0} (cmd : Text) (tail : Exec Transport A) (tail' : Exec Pop3Client A) (c : Pop3Client)
    → ((d : Pop3Client) → tail' d ≡ over tail d)
    → (send_and_check cmd >> tail') c
      ≡ over (send_command cmd >> do line ← read_line; lift (parse_status_line line); tail) c
unfolding send_and_check over exchange
send_and_check_then cmd tail tail' c same =
    let reply : Exec Transport Text = (do line ← read_line; lift (parse_status_line line)) in
    let t = c.transport in
    continue-ext (over_result c (exchange cmd t)) (λ _. tail') (λ _. over tail) (λ _ d. same d)
    ∙ sym (over_bind c (exchange cmd t) (λ _. tail))
    ∙ ap (over_result c) (
        continue_assoc (send_command cmd t) (λ _. reply) (λ _. tail)
        ∙ continue-ext (send_command cmd t) _ _ (λ _ u.
          continue_assoc (read_line u) (λ line. lift (parse_status_line line)) (λ _. tail)))

validate_id-ok : (id : ℕ) → 1 ≤ id → validate_message_id id ≡ ok tt
unfolding validate_message_id
validate_id-ok id h = ground arith

-- A single command of an authenticated client is one exchange on its connection.
pub record IsExchange {A : Type 0} (op : ℕ → Exec Pop3Client A) (step : ℕ → Exec Transport A)
    : Type 0 where
  pub at : (id : ℕ) (c : Pop3Client) → c.state ≡ authenticated → 1 ≤ id → op id c ≡ over (step id) c

pub retr-IsExchange : IsExchange retr (one retr_command read_retr_response)
unfolding retr over send_and_check exchange read_retr_response
retr-IsExchange = record {
  at = λ id c auth valid. rw (require_auth-ok c auth) (
      rw (validate_id-ok id valid) (
        send_and_check_then (retr_command id) _ _ c
          (λ d. sym (over_bind d (read_multiline d.transport) (λ body. pure (message_of body))))));
}

pub dele-IsExchange : IsExchange dele (one dele_command read_dele_response)
unfolding dele over send_and_check exchange read_dele_response
dele-IsExchange = record {
  at = λ id c auth valid. rw (require_auth-ok c auth) (
      rw (validate_id-ok id valid)
        (send_and_check_then (dele_command id) (pure tt) (pure tt) c (λ d. refl)));
}

pub each-serial :
    {A : Type 0} (op : ℕ → Exec Pop3Client A) (step : ℕ → Exec Transport A)
    → IsExchange op step
    → (ids : List ℕ) (c : Pop3Client) → c.state ≡ authenticated
    → ValidIds ids
    → each op ids c
      ≡ ((serial step ids c.transport).0, record c { transport = (serial step ids c.transport).1 })
unfolding each serial over
each-serial op step ex [] c auth valid = refl
each-serial op step ex (id ∷ rest) c auth (first, more) =
    let c' : Pop3Client = record c { transport = (step id c.transport).1 } in
    ap (λ (r : PopResult _ × Pop3Client). (r.0 ∷ (each op rest r.1).0, (each op rest r.1).1))
      (ex.at id c auth first)
    ∙ ap (λ (r : Outcomes _ × Pop3Client). ((step id c.transport).0 ∷ r.0, r.1))
        (each-serial op step ex rest c' auth more)
