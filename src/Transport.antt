-- ===== src/Transport.antt =====
-- src/transport.rs: the connection of one client, over what its peer and the system do. Tokio, the
-- TLS library and the server are not in the repository: each answer of theirs is an event of a list,
-- in the order in which the client asks.
pub mod Multiline
pub mod Discipline
pub mod Upgrade
pub mod Opening
pub mod Quiet
pub mod Kept
pub mod Closed
use rust_adv_pop.Prelude.{
  ℕ, Bool, true, false, Option, none, some, List, [], ◌∷◌, ◌++◌, ltb, if◌then◌else◌,
}
use rust_adv_pop.Text.{Text, codes, lf, crlf, text_eq, strip_prefix, chomp, decimal}
use rust_adv_pop.Error.{
  IoKind, broken_pipe, invalid_data, unsupported, IoError, Pop3Error, io, tls, invalid_dns_name,
  connection_closed, Result, PopResult, ok, err,
}
use rust_adv_pop.Exec.{Exec, pure, fail, continue, ◌>>=◌, ◌>>◌}

-- The stream below the buffers. `upgrading` is the placeholder that never does I/O.
pub data InnerStream : Type 0 where
  plain rustls_tls openssl_tls mock upgrading : InnerStream

-- What one `reader.read_line` under the timeout comes to. A text is a line with its ending, or what
-- is left before the end of the stream, and it is empty there.
pub data ReadOutcome : Type 0 where
  received : Text → ReadOutcome
  elapsed : ReadOutcome
  failed : IoError → ReadOutcome

-- `left` counts the bytes that stay in the read buffer.
pub record ReadEvent : Type 0 where
  pub outcome : ReadOutcome
  pub left : ℕ

-- What rustls says of a host name.
pub data RustlsHandshake : Type 0 where
  secured : RustlsHandshake
  bad_name bad_root rejected : Text → RustlsHandshake

-- What openssl says of a host name, before it is given the TCP stream and behind that.
pub data OpensslHandshake : Type 0 where
  negotiated : OpensslHandshake
  not_configured not_connected : Text → OpensslHandshake

-- A build has one of the two TLS libraries.
pub data Handshake : Type 0 where
  rustls : RustlsHandshake → Handshake
  openssl : OpensslHandshake → Handshake

-- The answers to come. Where a list of faults ends, calls succeed; where the reads end, the peer has
-- closed the connection.
pub record Net : Type 0 where
  pub reads : List ReadEvent
  pub writes : List (Option IoError)
  pub flushes : List (Option IoError)
  pub handshake : Text → Handshake

-- A text that was handed to the writer, and the stream below it.
pub record Sent : Type 0 where
  pub channel : InnerStream
  pub text : Text

pub record Transport : Type 0 where
  pub stream : InnerStream
  pub timeout : ℕ
  pub encrypted : Bool
  pub is_closed : Bool
  pub buffered : ℕ
  pub net : Net
  pub sent : List Sent

-- One attempt to connect: the outcome of TCP, and the connection if there is one.
pub record Dial : Type 0 where
  pub refused : Option IoError
  pub accepted : Net

-- The default of 30 seconds.
abbrev pub default_timeout : ℕ
default_timeout = 30

abbrev fresh : InnerStream → Bool → ℕ → Net → Transport
fresh stream encrypted duration net = record {
  stream = stream;
  timeout = duration;
  encrypted = encrypted;
  is_closed = false;
  buffered = 0;
  net = net;
  sent = [];
}

dialled : Option IoError → Transport → PopResult Transport
dialled none t = ok t
dialled (some e) t = err (io e)

unfoldable pub connect_plain : ℕ → Dial → PopResult Transport
unfolding dialled
connect_plain duration d = dialled d.refused (fresh plain false duration d.accepted)

-- TCP is refused, or the handshake behind it fails.
rejected_behind : Option IoError → Text → PopResult Transport
rejected_behind none e = err (tls e)
rejected_behind (some f) e = err (io f)

-- The host name and the trust store are checked before TCP, the server behind it.
unfoldable pub connect_rustls : RustlsHandshake → ℕ → Dial → PopResult Transport
unfolding dialled rejected_behind
connect_rustls (bad_name e) duration d = err (invalid_dns_name e)
connect_rustls (bad_root e) duration d = err (tls e)
connect_rustls (rejected e) duration d = rejected_behind d.refused e
connect_rustls secured duration d = dialled d.refused (fresh rustls_tls true duration d.accepted)

-- The connector is configured for the host name before TCP.
unfoldable pub connect_openssl : OpensslHandshake → ℕ → Dial → PopResult Transport
unfolding dialled rejected_behind
connect_openssl (not_configured e) duration d = err (tls e)
connect_openssl (not_connected e) duration d = rejected_behind d.refused e
connect_openssl negotiated duration d =
    dialled d.refused (fresh openssl_tls true duration d.accepted)

connect_secured : Handshake → ℕ → Dial → PopResult Transport
unfolding connect_rustls connect_openssl
connect_secured (rustls o) duration d = connect_rustls o duration d
connect_secured (openssl o) duration d = connect_openssl o duration d

unfoldable pub connect_tls : Text → ℕ → Dial → PopResult Transport
unfolding connect_secured
connect_tls hostname duration d = connect_secured (d.accepted.handshake hostname) duration d

-- The build without a TLS library.
unfoldable pub connect_tls_stub : Text → ℕ → Dial → PopResult Transport
connect_tls_stub hostname duration d = err (
    io (record {
      kind = unsupported;
      message = codes "TLS not available — enable the `rustls-tls` or `openssl-tls` feature";
    }))

unfoldable pub is_encrypted : Transport → Bool
is_encrypted t = t.encrypted

unfoldable pub is_closed : Transport → Bool
is_closed t = t.is_closed

unfoldable pub set_closed : Transport → Transport
set_closed t = record t { is_closed = true }

unfoldable pub upgrading_error : IoError
upgrading_error = record { kind = broken_pipe; message = codes "stream is upgrading to TLS" }

-- `poll_read`, `poll_write`, `poll_flush` and `poll_shutdown` of the placeholder fail.
unfoldable pub on_stream : {A : Type 0} → InnerStream → Exec Transport A → Exec Transport A
on_stream upgrading m = fail (io upgrading_error)
on_stream plain m = m
on_stream rustls_tls m = m
on_stream openssl_tls m = m
on_stream mock m = m

-- The next answer of a list of faults, and the list behind it.
fault : List (Option IoError) → PopResult (Unit {0})
fault [] = ok tt
fault (none ∷ rest) = ok tt
fault (some e ∷ rest) = err (io e)

behind : List (Option IoError) → List (Option IoError)
behind [] = []
behind (f ∷ rest) = rest

-- `writer.write_all`: the text goes into the buffer of the writer.
unfoldable pub write_all : Text → Exec Transport (Unit {0})
unfolding fault behind
write_all text t = (
  fault t.net.writes,
  record t {
    net = record t.net { writes = behind t.net.writes };
    sent = t.sent ++ record { channel = t.stream; text = text } ∷ [];
  },
)

unfoldable pub flush : Exec Transport (Unit {0})
unfolding fault behind on_stream
flush t =
    on_stream t.stream
      (λ u.
        (fault u.net.flushes, record u { net = record u.net { flushes = behind u.net.flushes } }))
      t

unfoldable pub send_command : Text → Exec Transport (Unit {0})
unfolding write_all flush
send_command cmd = do write_all cmd; write_all crlf; flush

-- `n == 0` is the end of the stream.
receive : ReadOutcome → Exec Transport Text
receive (received []) t = (err connection_closed, record t { is_closed = true })
receive (received (c ∷ line)) t = (ok (c ∷ line), t)
receive elapsed t = (err Pop3Error.timeout, t)
receive (failed e) t = (err (io e), t)

unfoldable pub read_from : List ReadEvent → Exec Transport Text
unfolding receive
read_from [] t = receive (received []) (record t { buffered = 0 })
read_from (e ∷ rest) t =
    receive e.outcome (record t { buffered = e.left; net = record t.net { reads = rest } })

unfoldable pub read_line : Exec Transport Text
unfolding on_stream read_from
read_line t = on_stream t.stream (read_from t.net.reads) t

-- The terminator, after the line ending is off.
unfoldable pub is_end : Text → Bool
is_end line = text_eq (chomp line) (b'.' ∷ [])

-- A leading ".." loses a dot.
unfoldable pub unstuff : Text → Text
unstuff line = elim (strip_prefix (b'.' ∷ b'.' ∷ []) line) [ none ↦ line | some rest ↦ b'.' ∷ rest ]

unfoldable pub push_line : Text → Text → Text
unfolding unstuff
push_line body line = body ++ (unstuff (chomp line) ++ lf ∷ [])

-- The loop of `read_multiline`, by recursion on the reads to come.
unfoldable pub multiline_from : List ReadEvent → Text → Exec Transport Text
unfolding read_from push_line
multiline_from [] body t = read_from [] t
multiline_from (e ∷ rest) body t =
    continue (read_from (e ∷ rest) t)
      λ line. if is_end line then pure body else multiline_from rest (push_line body line)

unfoldable pub read_multiline : Exec Transport Text
unfolding on_stream multiline_from
read_multiline t = on_stream t.stream (multiline_from t.net.reads []) t

already_encrypted : Text
already_encrypted = codes "connection is already encrypted"

unfoldable pub handshake_rustls : RustlsHandshake → PopResult InnerStream
handshake_rustls (bad_name e) = err (invalid_dns_name e)
handshake_rustls (bad_root e) = err (tls e)
handshake_rustls (rejected e) = err (tls e)
handshake_rustls secured = ok rustls_tls

unfoldable pub handshake_openssl : OpensslHandshake → PopResult InnerStream
handshake_openssl (not_configured e) = err (tls e)
handshake_openssl (not_connected e) = err (tls e)
handshake_openssl negotiated = ok openssl_tls

tls_handshake : Handshake → PopResult InnerStream
unfolding handshake_rustls handshake_openssl
tls_handshake (rustls o) = handshake_rustls o
tls_handshake (openssl o) = handshake_openssl o

after_handshake : PopResult InnerStream → Exec Transport (Unit {0})
after_handshake (err e) t = (err e, t)
after_handshake (ok inner) t = (ok tt, record t { stream = inner; encrypted = true; buffered = 0 })

-- The halves have been replaced by the placeholder; the old stream must be plain TCP.
pub handshake_over : InnerStream → Text → Exec Transport (Unit {0})
unfolding after_handshake tls_handshake
handshake_over plain hostname t = after_handshake (tls_handshake (t.net.handshake hostname)) t
handshake_over old hostname t =
    (err (tls (codes "upgrade_in_place requires a plain TCP connection")), t)

unfoldable pub upgrade_in_place : Text → Exec Transport (Unit {0})
unfolding handshake_over already_encrypted
upgrade_in_place hostname t =
    if ltb 0 t.buffered
    then (
      err (
          io (record {
            kind = invalid_data;
            message =
                codes "unexpected "
                ++ (decimal t.buffered ++ codes " bytes in buffer before TLS upgrade");
          })),
      t,
    )
    else if t.encrypted
    then (err (tls already_encrypted), t)
    else handshake_over t.stream hostname (record t { stream = upgrading; buffered = 0 })
