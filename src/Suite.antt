-- ===== src/Suite.antt =====
-- The unit tests of the sources as programs on the model. A mock of tokio_test is the script that the
-- test builds: what is to be written and what is read, line by line.
pub mod Statuses
pub mod Responses
pub mod Transports
pub mod Guards
pub mod Commands
pub mod Flows
pub mod Logins
pub mod Apop
pub mod Batches
pub mod Builders
pub mod Reconnects
pub mod Accounts
pub mod Sync
use Prim.Native.String.{String}
use rust_adv_pop.Prelude.{
  ℕ, zero, suc, ◌+◌, Bool, true, false, ◌&&◌, ◌||◌, Option, none, some, List, [], ◌∷◌, ◌++◌, length,
  if◌then◌else◌,
}
use rust_adv_pop.Text.{Text, codes, crlf, text_eq, strip_prefix}
use rust_adv_pop.Error.{
  Pop3Error, mailbox_in_use, login_delay, sys_temp, sys_perm, server_error, auth_failed, parse,
  not_authenticated, invalid_input, connection_closed, PopResult, Result, ok, err,
}
use rust_adv_pop.Types.{connected, authenticated}
use rust_adv_pop.Exec.{Exec}
use rust_adv_pop.Transport.{
  mock, received, ReadEvent, rustls, secured, Net, Sent, Transport, default_timeout,
}
use rust_adv_pop.Client.{Pop3Client}

-- `Builder::write` of one line, and `Builder::read` of some; their line endings are added.
pub data MockStep : Type 0 where
  write : String → MockStep
  read : List String → MockStep

abbrev line_of : String → Text
line_of s = codes s ++ crlf

abbrev pending : List String → ℕ
pending [] = 0
pending (s ∷ rest) = length (line_of s) + pending rest

-- What one read brings, by lines: the lines behind the first stay in the buffer.
abbrev chunk : List String → List ReadEvent
chunk [] = []
chunk (s ∷ rest) = record { outcome = received (line_of s); left = pending rest } ∷ chunk rest

abbrev pub incoming : List MockStep → List ReadEvent
incoming [] = []
incoming (write s ∷ rest) = incoming rest
incoming (read lines ∷ rest) = chunk lines ++ incoming rest

abbrev outgoing : List MockStep → Text
outgoing [] = []
outgoing (write s ∷ rest) = line_of s ++ outgoing rest
outgoing (read lines ∷ rest) = outgoing rest

-- `Transport::mock`.
abbrev pub mock_transport : List MockStep → Transport
mock_transport script = record {
  stream = mock;
  timeout = default_timeout;
  encrypted = false;
  is_closed = false;
  buffered = 0;
  net = record {
    reads = incoming script;
    writes = [];
    flushes = [];
    handshake = λ hostname. rustls secured;
  };
  sent = [];
}

abbrev pub build_test_client : List MockStep → Pop3Client
build_test_client script = record {
  transport = mock_transport script;
  greeting = [];
  state = connected;
  is_pipelining = false;
}

abbrev pub build_authenticated_test_client : List MockStep → Pop3Client
build_authenticated_test_client script = record {
  transport = mock_transport script;
  greeting = [];
  state = authenticated;
  is_pipelining = false;
}

abbrev pub build_authenticated_test_client_with_pipelining : List MockStep → Pop3Client
build_authenticated_test_client_with_pipelining script = record {
  transport = mock_transport script;
  greeting = [];
  state = authenticated;
  is_pipelining = true;
}

abbrev pub build_test_client_with_greeting : String → List MockStep → Pop3Client
build_test_client_with_greeting greeting script = record {
  transport = mock_transport script;
  greeting = codes greeting;
  state = connected;
  is_pipelining = false;
}

-- A test runs on the state of its object; `none` is a panic.
abbrev pub Test : Type 0 → Type 0 → Type 0
Test S A = S → Option (A × S)

module _ {S A B : Type 0} where
  abbrev behind : Option (A × S) → (A → Test S B) → Option (B × S)
  behind none f = none
  behind (some (a, s)) f = f a s

  infixl 5 ◌>>=◌ ◌>>◌
  abbrev pub ◌>>=◌ : Test S A → (A → Test S B) → Test S B
  ◌>>=◌ m f s = behind (m s) f

  abbrev pub ◌>>◌ : Test S A → Test S B → Test S B
  m >> n = m >>= λ _. n

module _ {S A : Type 0} where
  abbrev unwrapped : PopResult A × S → Option (A × S)
  unwrapped (ok a, s) = some (a, s)
  unwrapped (err e, s) = none

  -- `m.await.unwrap()`.
  abbrev pub unwrap : Exec S A → Test S A
  unwrap m s = unwrapped (m s)

  -- `m.await` with its error.
  abbrev pub result_of : Exec S A → Test S (PopResult A)
  result_of m s = some (m s)

module _ {S : Type 0} where
  abbrev pub assert : Bool → Test S (Unit {0})
  assert true s = some (tt, s)
  assert false s = none

  -- An assertion on the object.
  abbrev pub assert_that : (S → Bool) → Test S (Unit {0})
  assert_that p s = assert (p s) s

abbrev wire : List Sent → Text
wire [] = []
wire (s ∷ rest) = s.text ++ wire rest

abbrev used_up : List ReadEvent → Bool
used_up [] = true
used_up (e ∷ rest) = false

-- The mock wants all of its script played. What was written is compared as a whole, without its place
-- among the reads.
abbrev pub played : List MockStep → Transport → Bool
played script t = text_eq (wire t.sent) (outgoing script) && used_up t.net.reads

abbrev finished : {S : Type 0} → (S → Bool) → Option (Unit {0} × S) → Bool
finished p none = false
finished p (some (done, s)) = p s

abbrev pub runs : (List MockStep → Pop3Client) → List MockStep → Test Pop3Client (Unit {0}) → Bool
runs build script test = finished (λ c. played script c.transport) (test (build script))

abbrev pub runs_transport : List MockStep → Test Transport (Unit {0}) → Bool
runs_transport script test = finished (played script) (test (mock_transport script))

-- A test of pure functions has no object.
abbrev pub passes : Test (Unit {0}) (Unit {0}) → Bool
passes test = finished (λ s. true) (test tt)

abbrev pub all_pass : List Bool → Bool
all_pass [] = true
all_pass (b ∷ rest) = b && all_pass rest

-- What the assertions say.
module _ {A : Type 0} where
  abbrev pub is_err : PopResult A → Bool
  is_err (ok a) = false
  is_err (err e) = true

  abbrev pub holds_ok : (A → Bool) → PopResult A → Bool
  holds_ok p (ok a) = p a
  holds_ok p (err e) = false

  abbrev pub fails : (Pop3Error → Bool) → PopResult A → Bool
  fails p (ok a) = false
  fails p (err e) = p e

  abbrev pub at : ℕ → (A → Bool) → List A → Bool
  at n p [] = false
  at zero p (a ∷ rest) = p a
  at (suc n) p (a ∷ rest) = at n p rest

  abbrev pub all_of : (A → Bool) → List A → Bool
  all_of p [] = true
  all_of p (a ∷ rest) = p a && all_of p rest

  abbrev pub any_of : (A → Bool) → List A → Bool
  any_of p [] = false
  any_of p (a ∷ rest) = p a || any_of p rest

  abbrev pub is_empty : List A → Bool
  is_empty [] = true
  is_empty (a ∷ rest) = false

abbrev pub is_none : Option Text → Bool
is_none none = true
is_none (some s) = false

abbrev pub is_text : Text → Option Text → Bool
is_text s none = false
is_text s (some t) = text_eq t s

-- The digest of the test vector of RFC 1939, in place of MD5.
abbrev pub vector : Text → Text
vector s = codes "c4c9334bac560ecc979e58001b3e22fb"

abbrev starts : Option Text → Bool
starts none = false
starts (some rest) = true

-- `str::contains` of a text.
abbrev pub has_text : Text → Text → Bool
has_text part [] = starts (strip_prefix part [])
has_text part (c ∷ s) = starts (strip_prefix part (c ∷ s)) || has_text part s

abbrev pub is_server_error : (Text → Bool) → Pop3Error → Bool
is_server_error p (server_error msg) = p msg
is_server_error p e = false

abbrev pub is_auth_failed : (Text → Bool) → Pop3Error → Bool
is_auth_failed p (auth_failed msg) = p msg
is_auth_failed p e = false

abbrev pub is_mailbox_in_use : (Text → Bool) → Pop3Error → Bool
is_mailbox_in_use p (mailbox_in_use msg) = p msg
is_mailbox_in_use p e = false

abbrev pub is_login_delay : (Text → Bool) → Pop3Error → Bool
is_login_delay p (login_delay msg) = p msg
is_login_delay p e = false

abbrev pub is_sys_temp : (Text → Bool) → Pop3Error → Bool
is_sys_temp p (sys_temp msg) = p msg
is_sys_temp p e = false

abbrev pub is_sys_perm : (Text → Bool) → Pop3Error → Bool
is_sys_perm p (sys_perm msg) = p msg
is_sys_perm p e = false

abbrev pub is_parse : (Text → Bool) → Pop3Error → Bool
is_parse p (parse msg) = p msg
is_parse p e = false

abbrev pub is_not_authenticated : Pop3Error → Bool
is_not_authenticated not_authenticated = true
is_not_authenticated e = false

abbrev pub is_invalid_input : Pop3Error → Bool
is_invalid_input invalid_input = true
is_invalid_input e = false

abbrev pub is_connection_closed : Pop3Error → Bool
is_connection_closed connection_closed = true
is_connection_closed e = false
