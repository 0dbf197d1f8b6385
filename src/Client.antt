-- ===== src/Client.antt =====
-- src/client.rs: `Pop3Client`, its constructors and its single commands. Batches are in
-- Client/Batch.antt, incremental sync in Client/Sync.antt, MIME in Client/Mime.antt.
pub mod Batch
pub mod Sync
pub mod Mime
pub mod Call
pub mod Exchanges
pub mod Opening
use rust_adv_pop.Prelude.{
  ℕ, Bool, true, false, ◌||◌, Option, none, some, List, [], ◌∷◌, ◌++◌, ◌==◌, if◌then◌else◌,
}
use rust_adv_pop.Text.{Text, codes, cr, lf, space, contains, cut_at, text_eq, decimal}
use rust_adv_pop.Error.{
  Pop3Error, server_error, auth_failed, not_authenticated, invalid_input, Result, PopResult, ok,
  err,
}
use rust_adv_pop.Types.{
  SessionState, connected, authenticated, disconnected, Stat, ListEntry, UidlEntry, Message,
  Capability,
}
use rust_adv_pop.Response.{
  parse_status_line, parse_stat, parse_list_multi, parse_list_single, parse_uidl_multi,
  parse_uidl_single, parse_capa,
}
use rust_adv_pop.Exec.{Exec, pure, fail, lift, continue, ◌>>=◌, ◌>>◌, with_error}
use rust_adv_pop.Transport as Connection
use rust_adv_pop.Transport.{
  Transport, Dial, connect_plain, default_timeout, send_command, read_line, read_multiline,
  upgrade_in_place, set_closed,
}

pub record Pop3Client : Type 0 where
  pub transport : Transport
  pub greeting : Text
  pub state : SessionState
  pub is_pipelining : Bool

-- An action of the transport, as one of the client.
unfoldable pub greeting : Pop3Client → Text
greeting c = c.greeting

unfoldable pub state : Pop3Client → SessionState
state c = c.state

unfoldable pub is_encrypted : Pop3Client → Bool
is_encrypted c = Connection.is_encrypted c.transport

unfoldable pub is_closed : Pop3Client → Bool
is_closed c = Connection.is_closed c.transport

unfoldable pub supports_pipelining : Pop3Client → Bool
supports_pipelining c = c.is_pipelining

abbrev pub over_result :
    {A : Type 0} → Pop3Client → PopResult A × Transport → PopResult A × Pop3Client
over_result c (r, t) = (r, record c { transport = t })

unfoldable pub over : {A : Type 0} → Exec Transport A → Exec Pop3Client A
over m c = over_result c (m c.transport)

unfoldable pub check_no_crlf : Text → PopResult (Unit {0})
check_no_crlf s = if contains cr s || contains lf s then err invalid_input else ok tt

unfoldable pub validate_message_id : ℕ → PopResult (Unit {0})
validate_message_id id = if id == 0 then err invalid_input else ok tt

-- From the first '<' to the first '>' behind it, both included.
unfoldable pub extract_apop_timestamp : Text → Option Text
extract_apop_timestamp greeting = elim (cut_at b'<' greeting) [
  | none ↦ none
  | some (before, rest) ↦ elim (cut_at b'>' rest) [
    | none ↦ none
    | some (inner, after) ↦ some (b'<' ∷ (inner ++ b'>' ∷ []))
  ]
]

-- `md5` is the digest of the md5 crate in lower hexadecimal digits.
unfoldable pub compute_apop_digest : (Text → Text) → Text → Text → Text
compute_apop_digest md5 timestamp password = md5 (timestamp ++ password)

abbrev new_client : Transport → Text → Pop3Client
new_client t greeting = record {
  transport = t;
  greeting = greeting;
  state = connected;
  is_pipelining = false;
}

abbrev greeted : PopResult Text × Transport → PopResult Pop3Client
greeted (ok greeting, t) = ok (new_client t greeting)
greeted (err e, t) = err e

-- The greeting is read and parsed before there is a client.
greet : Transport → PopResult Pop3Client
greet t = greeted ((do line ← read_line; lift (parse_status_line line)) t)

abbrev greet_on : PopResult Transport → PopResult Pop3Client
greet_on (ok t) = greet t
greet_on (err e) = err e

unfoldable pub connect : ℕ → Dial → PopResult Pop3Client
unfolding greet
connect duration d = greet_on (connect_plain duration d)

unfoldable pub connect_default : Dial → PopResult Pop3Client
unfolding connect
connect_default d = connect default_timeout d

unfoldable pub connect_tls : Text → ℕ → Dial → PopResult Pop3Client
unfolding greet
connect_tls hostname duration d = greet_on (Connection.connect_tls hostname duration d)

unfoldable pub connect_tls_default : Text → Dial → PopResult Pop3Client
unfolding connect_tls
connect_tls_default hostname d = connect_tls hostname default_timeout d

abbrev pub is_authenticated : SessionState → Bool
is_authenticated authenticated = true
is_authenticated connected = false
is_authenticated disconnected = false

abbrev pub is_connected : SessionState → Bool
is_connected connected = true
is_connected authenticated = false
is_connected disconnected = false

unfoldable pub require_auth : Exec Pop3Client (Unit {0})
require_auth c = if is_authenticated c.state then (ok tt, c) else (err not_authenticated, c)

unfoldable pub require_connected : Exec Pop3Client (Unit {0})
require_connected c = if is_connected c.state then (ok tt, c) else (err not_authenticated, c)

unfoldable pub exchange : Text → Exec Transport Text
exchange cmd = do send_command cmd; line ← read_line; lift (parse_status_line line)

unfoldable pub send_and_check : Text → Exec Pop3Client Text
unfolding exchange over
send_and_check cmd = over (exchange cmd)

abbrev pub no_value : {S A : Type 0} → Exec S A → Exec S (Unit {0})
no_value m = do m; pure tt

unfoldable pub capa : Exec Pop3Client (List Capability)
capa = do send_and_check (codes "CAPA"); body ← over read_multiline; pure (parse_capa body)

-- `unwrap_or_default`.
abbrev pub default_list :
    {A : Type 0} → PopResult (List A) × Pop3Client → PopResult (List A) × Pop3Client
default_list (ok l, c) = (ok l, c)
default_list (err e, c) = (ok [], c)

abbrev pub or_default : {A : Type 0} → Exec Pop3Client (List A) → Exec Pop3Client (List A)
or_default m c = default_list (m c)

unfoldable pub advertises_pipelining : List Capability → Bool
advertises_pipelining [] = false
advertises_pipelining (c ∷ rest) = text_eq c.name (codes "PIPELINING") || advertises_pipelining rest

-- A rejection during authentication is an `AuthFailed`.
unfoldable pub promote : Pop3Error → Pop3Error
promote (server_error message) = auth_failed message
promote e = e

unfoldable pub set_state : SessionState → Exec Pop3Client (Unit {0})
set_state s c = (ok tt, record c { state = s })

unfoldable pub set_pipelining : Bool → Exec Pop3Client (Unit {0})
set_pipelining b c = (ok tt, record c { is_pipelining = b })

-- The probe for PIPELINING behind a login.
unfoldable pub probe : Exec Pop3Client (Unit {0})
unfolding set_pipelining
probe = do caps ← or_default capa; set_pipelining (advertises_pipelining caps)

-- The guards of `login`, and the exchange of USER and PASS.
unfoldable pub user_pass : Text → Text → Exec Pop3Client (Unit {0})
user_pass username password = do
  require_connected
  lift (check_no_crlf username)
  lift (check_no_crlf password)
  with_error promote (send_and_check (codes "USER " ++ username))
  no_value (with_error promote (send_and_check (codes "PASS " ++ password)))

unfoldable pub login : Text → Text → Exec Pop3Client (Unit {0})
login username password = do user_pass username password; set_state authenticated; probe

no_apop : Pop3Error
no_apop = server_error (codes "server does not support APOP (no timestamp in greeting)")

unfoldable pub timestamp_of : Exec Pop3Client Text
unfolding no_apop
timestamp_of c = elim (extract_apop_timestamp c.greeting) [
  | none ↦ (err no_apop, c)
  | some s ↦ (ok s, c)
]

-- The guards of `apop`, and its exchange.
unfoldable pub apop_digest : (Text → Text) → Text → Text → Exec Pop3Client (Unit {0})
apop_digest md5 username password = do
  require_connected
  lift (check_no_crlf username)
  lift (check_no_crlf password)
  timestamp ← timestamp_of
  no_value (
      with_error promote (
        send_and_check
          (codes "APOP " ++ (username ++ space ∷ compute_apop_digest md5 timestamp password))))

unfoldable pub apop : (Text → Text) → Text → Text → Exec Pop3Client (Unit {0})
apop md5 username password = do apop_digest md5 username password; set_state authenticated; probe

unfoldable pub not_before_auth : Exec Pop3Client (Unit {0})
not_before_auth c =
    if is_authenticated c.state
    then (err (server_error (codes "STLS not allowed after authentication (RFC 2595)")), c)
    else (ok tt, c)

unfoldable pub not_encrypted : Exec Pop3Client (Unit {0})
not_encrypted c =
    if c.transport.encrypted
    then (err (server_error (codes "connection is already encrypted")), c)
    else (ok tt, c)

unfoldable pub stls : Text → Exec Pop3Client (Unit {0})
unfolding not_before_auth not_encrypted
stls hostname = do
  not_before_auth
  not_encrypted
  send_and_check (codes "STLS")
  over (upgrade_in_place hostname)

unfoldable pub stat : Exec Pop3Client Stat
stat = do require_auth; text ← send_and_check (codes "STAT"); lift (parse_stat text)

unfoldable pub list : Option ℕ → Exec Pop3Client (List ListEntry)
list (some id) = do
  require_auth
  lift (validate_message_id id)
  text ← send_and_check (codes "LIST " ++ decimal id)
  entry ← lift (parse_list_single text)
  pure (entry ∷ [])
list none = do
  require_auth
  send_and_check (codes "LIST")
  body ← over read_multiline
  lift (parse_list_multi body)

unfoldable pub uidl : Option ℕ → Exec Pop3Client (List UidlEntry)
uidl (some id) = do
  require_auth
  lift (validate_message_id id)
  text ← send_and_check (codes "UIDL " ++ decimal id)
  entry ← lift (parse_uidl_single text)
  pure (entry ∷ [])
uidl none = do
  require_auth
  send_and_check (codes "UIDL")
  body ← over read_multiline
  lift (parse_uidl_multi body)

abbrev pub message_of : Text → Message
message_of body = record { body = body }

unfoldable pub retr : ℕ → Exec Pop3Client Message
retr id = do
  require_auth
  lift (validate_message_id id)
  send_and_check (codes "RETR " ++ decimal id)
  body ← over read_multiline
  pure (message_of body)

unfoldable pub dele : ℕ → Exec Pop3Client (Unit {0})
dele id = do
  require_auth
  lift (validate_message_id id)
  no_value (send_and_check (codes "DELE " ++ decimal id))

unfoldable pub rset : Exec Pop3Client (Unit {0})
rset = do require_auth; no_value (send_and_check (codes "RSET"))

unfoldable pub noop : Exec Pop3Client (Unit {0})
noop = do require_auth; no_value (send_and_check (codes "NOOP"))

unfoldable pub top : ℕ → ℕ → Exec Pop3Client Message
top id line_count = do
  require_auth
  lift (validate_message_id id)
  send_and_check (codes "TOP " ++ (decimal id ++ space ∷ decimal line_count))
  body ← over read_multiline
  pure (message_of body)

mark_closed : Exec Transport (Unit {0})
mark_closed t = (ok tt, set_closed t)

-- `quit` consumes the client: the state behind it is dropped.
unfoldable pub quit : Exec Pop3Client (Unit {0})
unfolding mark_closed
quit = do
  over (send_command (codes "QUIT"))
  line ← over read_line
  lift (parse_status_line line)
  over mark_closed
