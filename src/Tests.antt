-- ===== src/Tests.antt =====
-- Concrete servers, connections and clients: the data of the tests and the examples.
pub mod Parsing
pub mod Connections
pub mod Sessions
pub mod Recovery
pub mod Accounts
pub mod Batches
pub mod Agreements
pub mod Dialogues
pub mod Checkouts
pub mod Progress
pub mod Programs
use Prim.Native.String.{String}
use rust_adv_pop.Prelude.{
  ℕ, ◌≤◌, ◌≡◌, refl, Bool, true, false, none, List, [], ◌∷◌, ◌++◌, ◌⊎◌, inl, inr, All, arith,
}
use rust_adv_pop.Text.{Text, codes, crlf}
use rust_adv_pop.Types.{SessionState, connected, authenticated}
use rust_adv_pop.Transport.{
  InnerStream, plain, ReadEvent, ReadOutcome, received, Handshake, rustls, secured, Net, Transport,
  Dial,
}
use rust_adv_pop.Error.{PopResult, Result, ok, err, is_ok}
use rust_adv_pop.Client.{Pop3Client}
use rust_adv_pop.Client.Exchanges.{IsHexDigit}
use rust_adv_pop.Builder.{Network}

-- A line that the server sends, with no byte behind it in the buffer.
abbrev pub said : String → ReadEvent
said line = record { outcome = received (codes line ++ crlf); left = 0 }

-- The lines of a server whose certificate is accepted, on a network without faults.
abbrev pub server : List ReadEvent → Net
server script = record {
  reads = script;
  writes = [];
  flushes = [];
  handshake = λ hostname. rustls secured;
}

abbrev pub link : InnerStream → List ReadEvent → Transport
link stream script = record {
  stream = stream;
  timeout = 30;
  encrypted = false;
  is_closed = false;
  buffered = 0;
  net = server script;
  sent = [];
}

abbrev pub client_on : SessionState → List ReadEvent → Pop3Client
client_on s script = record {
  transport = link plain script;
  greeting = codes "ready <1.2@host>";
  state = s;
  is_pipelining = false;
}

-- A digest of hexadecimal digits in place of MD5.
abbrev pub digest : Text → Text
digest s = codes "0a1b"

pub digest-hex : (s : Text) → All IsHexDigit (digest s)
digest-hex s = (
  inl (omega arith, omega arith),
  (
    inr (omega arith, omega arith),
    (inl (omega arith, omega arith), (inr (omega arith, omega arith), tt)),
  ),
)

abbrev pub reached : List ReadEvent → Network
reached script hostname port = record { refused = none; accepted = server script }

abbrev pub client_or : Pop3Client → PopResult Pop3Client → Pop3Client
client_or d (ok c) = c
client_or d (err e) = d

pub client_of :
    (d : Pop3Client) (r : PopResult Pop3Client) → is_ok r ≡ true → r ≡ ok (client_or d r)
client_of d (ok c) h = refl
client_of d (err e) h = cc
