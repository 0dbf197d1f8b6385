-- ===== src/Lib.antt =====
-- rust-adv-pop3, an asynchronous POP3 client in Rust, as functions and theorems about them.
--
-- The crate has one component on top of the other. `Transport` owns a connection: it writes commands,
-- reads lines and multi-line bodies, and upgrades plain TCP to TLS. The functions of response.rs parse
-- what comes back. `Pop3Client` holds a transport and the session state, and has one method for each
-- POP3 command, two batches that may be pipelined, and the incremental sync over UIDL.
-- `Pop3ClientBuilder` opens a client and logs it in. `ReconnectingClient` runs the client's methods and
-- opens a new client where the connection is lost. `Pop3Pool` keeps a pool of one connection for each
-- account.
--
-- Files, with the sources from the root of the repository:
-- - Types.antt, Error.antt: src/types.rs and src/error.rs.
-- - Text.antt and below: the functions of Rust's `str` that the crate calls. A text is the list of its
--   code points.
-- - Response.antt: src/response.rs. Status, Codes and Entries below it are about status lines, response
--   codes and entries; Wire.antt says independently what a server sends.
-- - Exec.antt: methods that take `&mut self` and may fail, as functions from a state to a result and a
--   state; `?` is its bind. Exec/Keeps.antt has the rules for invariants.
-- - Transport.antt: src/transport.rs. Tokio, the TLS library and the server are outside the repository.
--   What they answer is a list of events (a line, a timeout or an error for each read, a fault or none
--   for each write and flush) and a function for the handshake, whose answers are those of rustls or of
--   openssl, as the build has it; theorems quantify over them. `sent` logs each text that is handed to
--   the writer, with the stream below it.
-- - Client.antt: src/client.rs. Client/Batch.antt has `retr_many` and `dele_many`, which
--   Client/Batch/Agreement.antt compares with and without pipelining, and Client/Batch/Ahead.antt counts
--   against the answers, Client/Sync.antt the sync,
--   Client/Mime.antt the MIME methods, Client/Call.antt sessions of public calls. A method keeps its
--   name; its guards, exchange and probe are helpers where `login` and `apop` share them.
-- - Maildrop.antt: a specification, the TRANSACTION state of a server of RFC 1939 and its conversation
--   with a client, the commands as the RFC spells them and the lines of the answers in turn.
--   Maildrop/Holds.antt says what a run of the client does in a conversation, Maildrop/Refines.antt has
--   the session of single commands as calls of src/client.rs.
-- - Builder.antt: src/builder.rs. Its setters are named with_port, with_tls and so on.
-- - Reconnect.antt and Reconnect/Commands.antt: src/reconnect.rs. Each method is `retried`, or
--   `retried_when` for the batches, of the client's method. Every attempt to connect has its own network.
-- - Pool.antt: src/pool.rs, its registry and its connection manager.
-- - Examples.antt: the programs of examples/, from the attempt to connect to the last line printed.
-- - Suite.antt and below: the unit tests of the sources as programs on the model, under their names. A
--   mock is the script that the test builds, by lines; a test that passes has played its whole script.
-- - Tests.antt and below: concrete servers and clients on which the theorems are applied.
--
-- Numbers are natural numbers; the parsers check the ranges of u32 and u64 where the source parses into
-- those types. The loop of `read_multiline` recurses on the reads to come, behind which the stream has
-- ended; `chunks` has the length of its list as fuel, since each chunk has an element. Nothing else
-- needs fuel.
--
-- Parameters: the MD5 digest, of which theorems that need it assume hexadecimal digits; the MIME parser;
-- the retry loop of backon, whose laws are `RetryLaw` of Reconnect/Retry.antt and `EagerLaw` of
-- Reconnect/Progress.antt, with the loop `plain_retry` as an instance; and the checkout of a bb8 pool.
--
-- Not modelled: the waiting times between retries; the lock of the pool, under which each operation of
-- the registry is one step, and the inside of bb8; the re-exports of lib.rs; examples/mime.rs, which
-- prints what the MIME parser finds; the integration tests, which call the crate; the unit tests of
-- Debug, Display and hashing, which are derived code, of the MIME parser, and of MD5.
pub mod Prelude
pub mod Text
pub mod Error
pub mod Types
pub mod Wire
pub mod Response
pub mod Exec
pub mod Transport
pub mod Client
pub mod Builder
pub mod Reconnect
pub mod Pool
pub mod Maildrop
pub mod Examples
pub mod Suite
pub mod Tests
