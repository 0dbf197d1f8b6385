-- ===== src/Client/Batch.antt =====
-- `retr_many` and `dele_many` of src/client.rs: one command at a time, or pipelined in windows.
pub mod Windows
pub mod Length
pub mod Drain
pub mod Serial
pub mod Ahead
pub mod Agreement
pub mod Links
use rust_adv_pop.Prelude.{
  ℕ, zero, suc, ◌-◌, ◌≡◌, refl, Bool, true, false, List, [], ◌∷◌, ◌++◌, if◌then◌else◌, length, take,
  drop, replicate,
}
use rust_adv_pop.Text.{Text, codes, crlf, decimal}
use rust_adv_pop.Error.{
  Pop3Error, io, tls, invalid_dns_name, mailbox_in_use, timeout, connection_closed, Result,
  PopResult, ok, err,
}
use rust_adv_pop.Types.{Message}
use rust_adv_pop.Response.{parse_status_line}
use rust_adv_pop.Exec.{Exec, pure, lift, continue, ◌>>=◌, ◌>>◌}
use rust_adv_pop.Transport.{Transport, write_all, flush, read_line, read_multiline}
use rust_adv_pop.Client.{
  Pop3Client, over, validate_message_id, require_auth, message_of, retr, dele,
}

abbrev pub pipeline_window : ℕ
pipeline_window = 4

-- `slice::chunks`. There are no more chunks than elements.
unfoldable pub chunks_within {ℓ} : {A : Type ℓ} → ℕ → ℕ → List A → List (List A)
chunks_within zero n xs = []
chunks_within (suc fuel) n [] = []
chunks_within (suc fuel) n (x ∷ xs) = take n (x ∷ xs) ∷ chunks_within fuel n (drop n (x ∷ xs))

unfoldable pub chunks {ℓ} : {A : Type ℓ} → ℕ → List A → List (List A)
unfolding chunks_within
chunks n xs = chunks_within (length xs) n xs

-- Errors behind which the connection may be dead.
unfoldable pub is_io_level : Pop3Error → Bool
is_io_level (io e) = true
is_io_level timeout = true
is_io_level connection_closed = true
is_io_level e = false

abbrev pub Outcomes : Type 0 → Type 0
Outcomes A = List (PopResult A)

-- A loop that may return early with its results.
pub data Flow (A : Type 0) : Type 0 where
  going stopped : Outcomes A → Flow A

abbrev pub outcomes : {A : Type 0} → Flow A → Outcomes A
outcomes (going rs) = rs
outcomes (stopped rs) = rs

-- Every result that is missing is the error.
unfoldable pub fill : {A : Type 0} → ℕ → Pop3Error → Outcomes A → Outcomes A
fill total e results = results ++ replicate (total - length results) (err e)

-- The commands of a window, with one flush behind them.
unfoldable pub write_commands : (ℕ → Text) → List ℕ → Exec Transport (Unit {0})
write_commands command [] = flush
write_commands command (id ∷ rest) = do write_all (command id ++ crlf); write_commands command rest

-- One response of the receive phase: an error of the connection ends the batch, an error of the
-- server is the result of its command.
unfoldable pub record_response : {A : Type 0} → ℕ → PopResult A → Outcomes A → Flow A
unfolding is_io_level fill
record_response total (ok a) results = going (results ++ ok a ∷ [])
record_response total (err e) results =
    if is_io_level e
    then stopped (fill total connection_closed results)
    else going (results ++ err e ∷ [])

module _ {A : Type 0} (command : ℕ → Text) (response : Exec Transport A) (total : ℕ) where
  -- One response for each command of the window.
  unfoldable pub receive_all : List ℕ → Flow A → Transport → Flow A × Transport
  unfolding record_response
  receive_all [] flow t = (flow, t)
  receive_all (id ∷ rest) (stopped results) t = (stopped results, t)
  receive_all (id ∷ rest) (going results) t =
      let (r, t') = response t in receive_all rest (record_response total r results) t'

  after_send : List ℕ → Outcomes A → PopResult (Unit {0}) × Transport → Flow A × Transport
  unfolding receive_all fill
  after_send ids results (ok done, t) = receive_all ids (going results) t
  after_send ids results (err e, t) = (stopped (fill total e results), t)

  unfoldable pub run_window : List ℕ → Flow A → Transport → Flow A × Transport
  unfolding after_send write_commands
  run_window ids (stopped results) t = (stopped results, t)
  run_window ids (going results) t = after_send ids results (write_commands command ids t)

  unfoldable pub run_windows : List (List ℕ) → Flow A → Transport → Flow A × Transport
  unfolding run_window
  run_windows [] flow t = (flow, t)
  run_windows (ids ∷ rest) flow t =
      let (flow', t') = run_window ids flow t in run_windows rest flow' t'

abbrev pub pipelined_result :
    {A : Type 0} → Pop3Client → Flow A × Transport → PopResult (Outcomes A) × Pop3Client
pipelined_result c (flow, t) = (ok (outcomes flow), record c { transport = t })

unfoldable pub pipelined :
    {A : Type 0} → (ℕ → Text) → Exec Transport A → List ℕ → Exec Pop3Client (Outcomes A)
unfolding run_windows chunks
pipelined command response ids c =
    pipelined_result c (
      run_windows command response (length ids) (chunks pipeline_window ids) (going []) c.transport)

abbrev pub retr_command : ℕ → Text
retr_command id = codes "RETR " ++ decimal id

abbrev pub dele_command : ℕ → Text
dele_command id = codes "DELE " ++ decimal id

unfoldable pub read_retr_response : Exec Transport Message
read_retr_response = do
  line ← read_line
  lift (parse_status_line line)
  body ← read_multiline
  pure (message_of body)

unfoldable pub read_dele_response : Exec Transport (Unit {0})
read_dele_response = do line ← read_line; lift (parse_status_line line); pure tt

unfoldable pub retr_many_pipelined : List ℕ → Exec Pop3Client (Outcomes Message)
unfolding pipelined read_retr_response
retr_many_pipelined = pipelined retr_command read_retr_response

unfoldable pub dele_many_pipelined : List ℕ → Exec Pop3Client (Outcomes (Unit {0}))
unfolding pipelined read_dele_response
dele_many_pipelined = pipelined dele_command read_dele_response

-- The sequential loop: an error is the result of its command, and the loop goes on.
unfoldable pub each :
    {A : Type 0} → (ℕ → Exec Pop3Client A) → List ℕ → Pop3Client → Outcomes A × Pop3Client
each op [] c = ([], c)
each op (id ∷ rest) c = let (r, c') = op id c in let (rs, c'') = each op rest c' in (r ∷ rs, c'')

abbrev pub sequential_result :
    {A : Type 0} → Outcomes A × Pop3Client → PopResult (Outcomes A) × Pop3Client
sequential_result (rs, c) = (ok rs, c)

unfoldable pub sequential :
    {A : Type 0} → (ℕ → Exec Pop3Client A) → List ℕ → Exec Pop3Client (Outcomes A)
unfolding each
sequential op ids c = sequential_result (each op ids c)

unfoldable pub validate_all : List ℕ → PopResult (Unit {0})
validate_all [] = ok tt
validate_all (id ∷ rest) = elim (validate_message_id id) [
  | ok u ↦ validate_all rest
  | err e ↦ err e
]

-- Both batches: the guards, the empty batch, and the choice by the server's capability.
abbrev pub run_batch :
    {A : Type 0}
    → Exec Pop3Client (Outcomes A)
    → Exec Pop3Client (Outcomes A)
    → List ℕ
    → Exec Pop3Client (Outcomes A)
run_batch slow fast [] c = (ok [], c)
run_batch slow fast (id ∷ rest) c = if c.is_pipelining then fast c else slow c

unfoldable pub retr_many : List ℕ → Exec Pop3Client (Outcomes Message)
retr_many ids = do
  require_auth
  lift (validate_all ids)
  run_batch (sequential retr ids) (retr_many_pipelined ids) ids

unfoldable pub dele_many : List ℕ → Exec Pop3Client (Outcomes (Unit {0}))
dele_many ids = do
  require_auth
  lift (validate_all ids)
  run_batch (sequential dele ids) (dele_many_pipelined ids) ids
