-- ===== src/Maildrop/Dialogue.antt =====
-- Steps of a client of src/client.rs in a conversation with a server.
use rust_adv_pop.Prelude.{◌≡◌, ◌≢◌, refl, ap, sym, subst, ◌∙◌, List, ◌∷◌, ◌++◌, All, Lacks}
use rust_adv_pop.Text.{Text, lf, crlf}
use rust_adv_pop.Error.{Pop3Error, PopResult, ok, err}
use rust_adv_pop.Types.{authenticated}
use rust_adv_pop.Response.{parse_status_line}
use rust_adv_pop.Exec.{Exec, lift, continue, ◌>>=◌}
use rust_adv_pop.Transport.{InnerStream, upgrading, Transport, read_multiline}
use rust_adv_pop.Transport.Multiline.{
  heard, still_buffered, line_outcome, body_outcomes, body_text, after, read_multiline-body,
}
use rust_adv_pop.Transport.Quiet.{Quiet}
use rust_adv_pop.Client.{Pop3Client, over, over_result, send_and_check, require_auth}
use rust_adv_pop.Client.Batch.Length.{require_auth-ok}
use rust_adv_pop.Client.Batch.Agreement.{wire}
use rust_adv_pop.Maildrop.Turns.{
  sent_behind, send-answered, heard_first, heard_split, two_sent, server_side-spoken,
  client_side-spoken,
}
use rust_adv_pop.Maildrop.{Turn, asks, says, client_side, server_side, spoken}

-- The stream of a conversation, and all the text that has been sent on it at its end.
pub record Session : Type 0 where
  pub stream : InnerStream
  pub total : Text

-- An authenticated client on a quiet connection on which these turns are to come.
pub record Ready (s : Session) (turns : List Turn) (c : Pop3Client) : Type 0 where
  pub auth : c.state ≡ authenticated
  pub quiet : Quiet s.stream c.transport
  pub script : heard c.transport.net.reads ≡ server_side turns
  pub said : wire c.transport.sent ++ client_side turns ≡ s.total

-- The action comes to `r`, and leaves the turns of `rest`.
pub record Yields {A : Type 0} (s : Session) (m : Exec Pop3Client A) (c : Pop3Client)
    (r : PopResult A) (rest : List Turn) : Type 0 where
  pub result : (m c).0 ≡ r
  pub ready : Ready s rest (m c).1

module _ {A B : Type 0} (s : Session) (f : A → Exec Pop3Client B) (r : PopResult B)
    (rest : List Turn) where
  continue-Yields :
      (x : PopResult A × Pop3Client) (a : A) (mid : List Turn)
      → x.0 ≡ ok a
      → Ready s mid x.1
      → ((d : Pop3Client) → Ready s mid d → Yields s (f a) d r rest)
      → ((continue x f).0 ≡ r) × Ready s rest (continue x f).1
  continue-Yields (ok b, d) a mid e h k =
      let same : a ≡ b = cc in
      let y = subst (λ (x : A). Yields s (f x) d r rest) same (k d h) in (y.result, y.ready)
  continue-Yields (err g, d) a mid e h k = cc

  pub Yields-bind :
      (m : Exec Pop3Client A) (c : Pop3Client) (a : A) (mid : List Turn)
      → Yields s m c (ok a) mid
      → ((d : Pop3Client) → Ready s mid d → Yields s (f a) d r rest)
      → Yields s (m >>= f) c r rest
  Yields-bind m c a mid y k =
      let (e, h) = continue-Yields (m c) a mid y.result y.ready k in
      record { result = e; ready = h }

module _ {A B : Type 0} (s : Session) (f : A → Exec Pop3Client B) (rest : List Turn) where
  continue-fails :
      (x : PopResult A × Pop3Client) (e : Pop3Error)
      → x.0 ≡ err e
      → Ready s rest x.1
      → ((continue x f).0 ≡ err e) × Ready s rest (continue x f).1
  continue-fails (ok b, d) e q h = cc
  continue-fails (err g, d) e q h = let same : g ≡ e = cc in (ap (λ (x : Pop3Error). err x) same, h)

  pub Yields-fail :
      (m : Exec Pop3Client A) (c : Pop3Client) (e : Pop3Error)
      → Yields s m c (err e) rest
      → Yields s (m >>= f) c (err e) rest
  Yields-fail m c e y =
      let (q, h) = continue-fails (m c) e y.result y.ready in record { result = q; ready = h }

pub Yields-pure :
    {A : Type 0} (s : Session) (r : PopResult A) (c : Pop3Client) (rest : List Turn)
    → Ready s rest c
    → Yields s (lift r) c r rest
Yields-pure s r c rest h = record { result = refl; ready = h }

Yields-run :
    {A : Type 0} (s : Session) (m : Exec Pop3Client A) (c d : Pop3Client) (r : PopResult A)
    (rest : List Turn)
    → m c ≡ (r, d)
    → Ready s rest d
    → Yields s m c r rest
Yields-run s m c d r rest e h = record {
  result = ap (λ (x : PopResult _ × Pop3Client). x.0) e;
  ready =
      subst (λ (x : Pop3Client). Ready s rest x)
        (sym (ap (λ (x : PopResult _ × Pop3Client). x.1) e)) h;
}

pub Yields-auth :
    (s : Session) (c : Pop3Client) (rest : List Turn)
    → Ready s rest c
    → Yields s require_auth c (ok tt) rest
Yields-auth s c rest h = Yields-run s require_auth c c (ok tt) rest (require_auth-ok c h.auth) h

module _ (s : Session) (live : s.stream ≢ upgrading) where
  -- A command whose answer is a line.
  pub send-Yields :
      (cmd line : Text) (r : PopResult Text) (rest : List Turn) (c : Pop3Client)
      → parse_status_line (line ++ crlf) ≡ r
      → Ready s (asks (cmd ++ crlf) ∷ says (line_outcome line) ∷ rest) c
      → Yields s (send_and_check cmd) c r rest
  unfolding server_side client_side
  send-Yields cmd line r rest c status h =
      let (e, (back, (whole, (first, last)))) =
        heard_first c.transport.net.reads (line_outcome line) (server_side rest) h.script in
      Yields-run s (send_and_check cmd) c (sent_behind s.stream cmd e.left back c) r rest
        (send-answered s.stream live cmd line e back c h.quiet whole first
          ∙ ap (λ (x : PopResult Text). (x, sent_behind s.stream cmd e.left back c)) status)
        (record {
          auth = h.auth;
          quiet = record {
            on = h.quiet.on;
            no_write_fault = h.quiet.no_write_fault;
            no_flush_fault = h.quiet.no_flush_fault;
          };
          script = last;
          said = two_sent s.stream cmd (client_side rest) c.transport.sent ∙ h.said;
        })

  -- A body behind the status line.
  pub body-Yields :
      (lines : List Text) (rest : List Turn) (c : Pop3Client)
      → All (Lacks lf) lines
      → Ready s (spoken (body_outcomes lines) ++ rest) c
      → Yields s (over read_multiline) c (ok (body_text lines)) rest
  unfolding over
  body-Yields lines rest c clean h =
      let t = c.transport in
      let (front, (back, (whole, (first, last)))) =
        heard_split t.net.reads (body_outcomes lines) (server_side rest)
          (h.script ∙ server_side-spoken (body_outcomes lines) rest) in
      let u : Transport = after (still_buffered t.buffered front) back t in
      Yields-run s (over read_multiline) c (record c { transport = u }) (ok (body_text lines)) rest
        (ap (over_result c) (
          read_multiline-body lines front back t (λ e. live (sym h.quiet.on ∙ e)) whole first
            clean))
        (record {
          auth = h.auth;
          quiet = record {
            on = h.quiet.on;
            no_write_fault = h.quiet.no_write_fault;
            no_flush_fault = h.quiet.no_flush_fault;
          };
          script = last;
          said =
              ap (λ (w : Text). wire t.sent ++ w)
                (sym (client_side-spoken (body_outcomes lines) rest))
              ∙ h.said;
        })
