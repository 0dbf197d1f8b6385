-- ===== src/Maildrop/Holds.antt =====
-- What an action of a client of src/client.rs does in a conversation, told from its connection.
use rust_adv_pop.Prelude.{◌≡◌, refl, ap, sym, ◌∙◌, List, [], ◌∷◌, ◌++◌, append-nil}
use rust_adv_pop.Text.{Text}
use rust_adv_pop.Types.{authenticated}
use rust_adv_pop.Transport.{InnerStream, ReadOutcome}
use rust_adv_pop.Transport.Multiline.{heard}
use rust_adv_pop.Transport.Quiet.{Quiet}
use rust_adv_pop.Client.{Pop3Client}
use rust_adv_pop.Client.Batch.Agreement.{wire}
use rust_adv_pop.Maildrop.{Turn, asks, says, client_side, server_side, spoken}
use rust_adv_pop.Maildrop.Dialogue.{Session, Ready}

-- An authenticated client on a quiet connection whose reads come to the server's side of the turns,
-- and then to the outcomes of `rest`, with any bytes in the buffer behind each read.
pub record Facing (s : InnerStream) (turns : List Turn) (rest : List ReadOutcome) (c : Pop3Client)
    : Type 0 where
  pub auth : c.state ≡ authenticated
  pub quiet : Quiet s c.transport
  pub script : heard c.transport.net.reads ≡ server_side turns ++ rest

-- A run from the client `c` that comes to `r`: it has sent the client's side of the turns, byte for
-- byte, and left the outcomes of `rest`.
pub record Holds {R : Type 0} (turns : List Turn) (rest : List ReadOutcome) (c : Pop3Client) (r : R)
    (x : R × Pop3Client) : Type 0 where
  pub result : x.0 ≡ r
  pub bytes : wire x.1.transport.sent ≡ wire c.transport.sent ++ client_side turns
  pub to_come : heard x.1.transport.net.reads ≡ rest

server_side-append :
    (turns : List Turn) (rest : List ReadOutcome)
    → server_side (turns ++ spoken rest) ≡ server_side turns ++ rest
unfolding server_side
server_side-append [] [] = refl
server_side-append [] (o ∷ rest) = ap (λ l. o ∷ l) (server_side-append [] rest)
server_side-append (asks text ∷ turns) rest = server_side-append turns rest
server_side-append (says o ∷ turns) rest = ap (λ l. o ∷ l) (server_side-append turns rest)

client_side-append :
    (turns : List Turn) (rest : List ReadOutcome)
    → client_side (turns ++ spoken rest) ≡ client_side turns
unfolding client_side
client_side-append [] [] = refl
client_side-append [] (o ∷ rest) = client_side-append [] rest
client_side-append (asks text ∷ turns) rest =
    ap (λ (w : Text). text ++ w) (client_side-append turns rest)
client_side-append (says o ∷ turns) rest = client_side-append turns rest

-- The conversation of a client that is about to take these turns.
abbrev pub before : InnerStream → List Turn → Pop3Client → Session
before s turns c = record { stream = s; total = wire c.transport.sent ++ client_side turns }

module _ (s : InnerStream) (turns : List Turn) (rest : List ReadOutcome) (c : Pop3Client) where
  pub Facing-Ready : Facing s turns rest c → Ready (before s turns c) (turns ++ spoken rest) c
  Facing-Ready h = record {
    auth = h.auth;
    quiet = h.quiet;
    script = h.script ∙ sym (server_side-append turns rest);
    said = ap (λ (w : Text). wire c.transport.sent ++ w) (client_side-append turns rest);
  }

  pub Ready-Holds :
      {R : Type 0} (r : R) (x : R × Pop3Client)
      → x.0 ≡ r
      → Ready (before s turns c) (spoken rest) x.1
      → Holds turns rest c r x
  unfolding server_side client_side
  Ready-Holds r x e h = record {
    result = e;
    bytes =
        sym (append-nil (wire x.1.transport.sent))
        ∙ ap (λ (w : Text). wire x.1.transport.sent ++ w) (sym (client_side-append [] rest))
        ∙ h.said;
    to_come = h.script ∙ server_side-append [] rest;
  }
