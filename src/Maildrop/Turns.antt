-- ===== src/Maildrop/Turns.antt =====
-- The exchange of one command of src/client.rs on its connection, and the two sides of a conversation.
use rust_adv_pop.Prelude.{ℕ, append_assoc, ◌≡◌, ◌≢◌, refl, ap, sym, ◌∙◌, List, [], ◌∷◌, ◌++◌}
use rust_adv_pop.Text.{Text, crlf}
use rust_adv_pop.Error.{PopResult, ok}
use rust_adv_pop.Response.{parse_status_line}
use rust_adv_pop.Exec.{Exec, lift, continue, ◌>>=◌}
use rust_adv_pop.Transport.{
  InnerStream, upgrading, ReadEvent, ReadOutcome, Transport, Sent, read_from, read_line,
}
use rust_adv_pop.Transport.Multiline.{heard, line_outcome, after, read_from-line, on_stream-live}
use rust_adv_pop.Transport.Quiet.{Quiet, with_sent, with_sent-Quiet, on_channel, send_command-sent}
use rust_adv_pop.Client.{Pop3Client, over, over_result, exchange, send_and_check}
use rust_adv_pop.Client.Batch.Agreement.{wire, wire-append}
use rust_adv_pop.Maildrop.{Turn, client_side, server_side, spoken}

-- The client behind a command and the read of its answer.
abbrev pub sent_behind : InnerStream → Text → ℕ → List ReadEvent → Pop3Client → Pop3Client
sent_behind s cmd n rest c = record c {
  transport =
      after n rest
        (with_sent (c.transport.sent ++ on_channel s cmd ∷ on_channel s crlf ∷ []) c.transport);
}

-- A command whose answer is a line.
module _ (s : InnerStream) (live : s ≢ upgrading) where
  read_line-script :
      (line : Text) (e : ReadEvent) (rest : List ReadEvent) (t : Transport)
      → Quiet s t
      → t.net.reads ≡ e ∷ rest
      → e.outcome ≡ line_outcome line
      → read_line t ≡ (ok (line ++ crlf), after e.left rest t)
  unfolding read_line
  read_line-script line e rest t quiet script got =
      ap (λ (m : Exec Transport Text). m t)
        (on_stream-live t.stream (read_from t.net.reads) (λ e. live (sym quiet.on ∙ e)))
      ∙ ap (λ (events : List ReadEvent). read_from events t) script
      ∙ read_from-line line e rest t got

  pub send-answered :
      (cmd line : Text) (e : ReadEvent) (rest : List ReadEvent) (c : Pop3Client)
      → Quiet s c.transport
      → c.transport.net.reads ≡ e ∷ rest
      → e.outcome ≡ line_outcome line
      → send_and_check cmd c ≡ (parse_status_line (line ++ crlf), sent_behind s cmd e.left rest c)
  unfolding send_and_check over exchange
  send-answered cmd line e rest c quiet script got =
      let t = c.transport in
      let l = t.sent ++ on_channel s cmd ∷ on_channel s crlf ∷ [] in
      let reply : Exec Transport Text = (do got ← read_line; lift (parse_status_line got)) in
      ap (over_result c) (
        ap (λ (x : PopResult (Unit {0}) × Transport). continue x (λ _. reply))
          (send_command-sent s cmd t live quiet)
        ∙ ap (λ (x : PopResult Text × Transport). continue x (λ got. lift (parse_status_line got)))
            (read_line-script line e rest (with_sent l t) (with_sent-Quiet s t l quiet) script got))

pub heard_first :
    (events : List ReadEvent) (o : ReadOutcome) (b : List ReadOutcome)
    → heard events ≡ o ∷ b
    → (e : ReadEvent) × ((back : List ReadEvent) × ((events ≡ e ∷ back)
          × ((e.outcome ≡ o) × (heard back ≡ b))))
heard_first [] o b h = cc
heard_first (e ∷ back) o b h = (e, (back, (refl, (cc, cc))))

-- Behind reads of which the first come to the outcomes of `a`.
pub heard_split :
    (events : List ReadEvent) (a b : List ReadOutcome)
    → heard events ≡ a ++ b
    → (front : List ReadEvent) × ((back : List ReadEvent) × ((events ≡ front ++ back)
          × ((heard front ≡ a) × (heard back ≡ b))))
heard_split events [] b h = ([], (events, (refl, (refl, h))))
heard_split [] (o ∷ a) b h = cc
heard_split (e ∷ events) (o ∷ a) b h =
    let (front, (back, (whole, (first, last)))) = heard_split events a b cc in
    let same : e.outcome ≡ o = cc in
    (
      e ∷ front,
      (
        back,
        (ap (λ l. e ∷ l) whole, (ap (λ x. x ∷ heard front) same ∙ ap (λ l. o ∷ l) first, last)),
      ),
    )

pub server_side-spoken :
    (a : List ReadOutcome) (rest : List Turn)
    → server_side (spoken a ++ rest) ≡ a ++ server_side rest
unfolding server_side
server_side-spoken [] rest = refl
server_side-spoken (o ∷ a) rest = ap (λ l. o ∷ l) (server_side-spoken a rest)

pub client_side-spoken :
    (a : List ReadOutcome) (rest : List Turn) → client_side (spoken a ++ rest) ≡ client_side rest
unfolding client_side
client_side-spoken [] rest = refl
client_side-spoken (o ∷ a) rest = client_side-spoken a rest

pub two_sent :
    (s : InnerStream) (cmd w : Text) (l : List Sent)
    → wire (l ++ on_channel s cmd ∷ on_channel s crlf ∷ []) ++ w ≡ wire l ++ ((cmd ++ crlf) ++ w)
two_sent s cmd w l =
    ap (λ (x : Text). x ++ w) (wire-append l (on_channel s cmd ∷ on_channel s crlf ∷ []))
    ∙ append_assoc (wire l) (cmd ++ crlf) w
