-- ===== src/Client/Batch/Ahead.antt =====
-- How far a pipelined batch of src/client.rs runs ahead of the answers of the server.
use rust_adv_pop.Prelude.{
  ℕ, zero, suc, ◌+◌, ◌-◌, ◌≤◌, ◌≡◌, refl, ap, ◌∙◌, Bool-cases, inl, inr, List, [], ◌∷◌, ◌++◌,
  length, length-append, length-take, drop, replicate, All, arith, if◌then◌else◌,
}
use rust_adv_pop.Text.{Text, crlf}
use rust_adv_pop.Error.{Pop3Error, connection_closed, PopResult, ok, err}
use rust_adv_pop.Exec.{Exec, continue}
use rust_adv_pop.Transport.{InnerStream, Sent, Transport, on_stream, write_all, flush}
use rust_adv_pop.Transport.Quiet.{Frames}
use rust_adv_pop.Client.{Pop3Client}
use rust_adv_pop.Client.Batch.{
  Outcomes, Flow, going, stopped, outcomes, chunks, chunks_within, pipeline_window, is_io_level,
  fill, write_commands, record_response, receive_all, after_send, run_window, run_windows,
  pipelined, retr_command, dele_command, read_retr_response, read_dele_response,
  retr_many_pipelined, dele_many_pipelined,
}
use rust_adv_pop.Client.Batch.Agreement.{retr_response-Frames, dele_response-Frames}

-- The commands that the server has answered: all but those whose result is an error of the
-- connection.
unfoldable pub answered : {A : Type 0} → Outcomes A → ℕ
answered [] = 0
answered (ok a ∷ rs) = suc (answered rs)
answered (err e ∷ rs) = let n = answered rs in if is_io_level e then n else suc n

abbrev pub answered_in : {A : Type 0} → PopResult (Outcomes A) → ℕ
answered_in (ok rs) = answered rs
answered_in (err e) = 0

-- A run has handed no more than so many texts to the writer beyond one for each answer.
abbrev pub IsAhead : {A : Type 0} → ℕ → Pop3Client → PopResult (Outcomes A) × Pop3Client → Type 0
IsAhead n c r = length r.1.transport.sent ≤ length c.transport.sent + (answered_in r.0 + n)

answered-append : {A : Type 0} (k l : Outcomes A) → answered (k ++ l) ≡ answered k + answered l
unfolding answered
answered-append [] l = omega arith
answered-append (ok a ∷ k) l = omega (arith, answered-append k l)
answered-append (err e ∷ k) l = elim (Bool-cases (is_io_level e)) [
  | inl dead ↦ rw dead (answered-append k l)
  | inr alive ↦ rw alive (omega (arith, answered-append k l))
]

answered-fill :
    {A : Type 0} (total : ℕ) (e : Pop3Error) (rs : Outcomes A)
    → answered rs ≤ answered (fill total e rs)
unfolding fill
answered-fill {A} total e rs =
    let more : Outcomes A = replicate (total - length rs) (err e) in
    omega (arith, answered-append rs more)

flush-length :
    (s : InnerStream) (m : Exec Transport (Unit {0})) (t : Transport)
    → length (m t).1.sent ≡ length t.sent
    → length (on_stream s m t).1.sent ≡ length t.sent
unfolding on_stream
flush-length InnerStream.upgrading m t h = refl
flush-length InnerStream.plain m t h = h
flush-length InnerStream.rustls_tls m t h = h
flush-length InnerStream.openssl_tls m t h = h
flush-length InnerStream.mock m t h = h

flush-sent : (t : Transport) → length (flush t).1.sent ≡ length t.sent
unfolding flush
flush-sent t = flush-length t.stream _ t refl

-- What stands behind a write, whether it has failed or not, adds no more than `n` texts.
write_then :
    (r : PopResult (Unit {0}) × Transport) (k : Exec Transport (Unit {0})) (n : ℕ)
    → length (k r.1).1.sent ≤ length r.1.sent + n
    → length (continue r (λ _. k)).1.sent ≤ length r.1.sent + n
write_then (ok u, t) k n h = h
write_then (err e, t) k n h = omega arith

write_commands-length :
    (command : ℕ → Text) (ids : List ℕ) (t : Transport)
    → length (write_commands command ids t).1.sent ≤ length t.sent + length ids
unfolding write_commands write_all
write_commands-length command [] t = omega (arith, flush-sent t)
write_commands-length command (id ∷ rest) t =
    let r = write_all (command id ++ crlf) t in
    omega (
      arith,
      write_then r (write_commands command rest) (length rest)
          (write_commands-length command rest r.1),
      length-append t.sent (record { channel = t.stream; text = command id ++ crlf } ∷ []),
    )

response-sent :
    {A : Type 0} (response : Exec Transport A) (t : Transport)
    → Frames response
    → (response t).1.sent ≡ t.sent
response-sent response t h = ap (λ (r : PopResult _ × Transport). r.1.sent) (h.at t t.sent)

-- With `n` commands that are not answered yet, and behind an early return at most four.
abbrev Trails : {A : Type 0} → ℕ → ℕ → Flow A → Transport → Type 0
Trails base n (going rs) t = length t.sent ≤ base + (answered rs + n)
Trails base n (stopped rs) t = length t.sent ≤ base + (answered rs + 4)

module _ {A : Type 0} (command : ℕ → Text) (response : Exec Transport A) (total base : ℕ)
    (frames : Frames response) where
  record_response-Trails :
      (r : PopResult A) (rs : Outcomes A) (t : Transport) (n : ℕ)
      → suc n ≤ 4
      → length t.sent ≤ base + (answered rs + suc n)
      → Trails base n (record_response total r rs) t
  unfolding record_response answered
  record_response-Trails (ok a) rs t n small h = omega (arith, answered-append rs (ok a ∷ []))
  record_response-Trails (err e) rs t n small h = elim (Bool-cases (is_io_level e)) [
    | inl dead ↦ rw dead (omega (arith, answered-fill total connection_closed rs))
    | inr alive ↦ rw alive (
        let more : answered (rs ++ err e ∷ []) ≡ answered rs + 1 =
          answered-append rs (err e ∷ []) ∙ (rw alive refl) in
        omega arith)
  ]

  receive_all-Trails :
      (ids : List ℕ) (flow : Flow A) (t : Transport)
      → length ids ≤ 4
      → Trails base (length ids) flow t
      → let r = receive_all command response total ids flow t in Trails base 0 r.0 r.1
  unfolding receive_all
  receive_all-Trails [] (going rs) t small h = h
  receive_all-Trails [] (stopped rs) t small h = h
  receive_all-Trails (id ∷ rest) (stopped rs) t small h = h
  receive_all-Trails (id ∷ rest) (going rs) t small h =
      let (r, t') = response t in
      receive_all-Trails rest (record_response total r rs) t' (omega arith) (
        record_response-Trails r rs t' (length rest) small
          (omega (arith, ap (λ (l : List Sent). length l) (response-sent response t frames))))

  receive_from :
      (ids : List ℕ) (rs : Outcomes A) (r : PopResult (Unit {0}) × Transport)
      → length ids ≤ 4
      → length r.1.sent ≤ base + (answered rs + length ids)
      → let x = after_send command response total ids rs r in Trails base 0 x.0 x.1
  unfolding after_send
  receive_from ids rs (ok done, t) small h = receive_all-Trails ids (going rs) t small h
  receive_from ids rs (err e, t) small h = omega (arith, answered-fill total e rs)

  run_window-Trails :
      (ids : List ℕ) (flow : Flow A) (t : Transport)
      → length ids ≤ 4
      → Trails base 0 flow t
      → let r = run_window command response total ids flow t in Trails base 0 r.0 r.1
  unfolding run_window
  run_window-Trails ids (stopped rs) t small h = h
  run_window-Trails ids (going rs) t small h =
      receive_from ids rs (write_commands command ids t) small
        (omega (arith, write_commands-length command ids t))

  run_windows-Trails :
      (windows : List (List ℕ)) (flow : Flow A) (t : Transport)
      → All (λ w. length w ≤ 4) windows
      → Trails base 0 flow t
      → let r = run_windows command response total windows flow t in Trails base 0 r.0 r.1
  unfolding run_windows
  run_windows-Trails [] flow t small h = h
  run_windows-Trails (ids ∷ rest) flow t (first, small) h =
      let (flow', t') = run_window command response total ids flow t in
      run_windows-Trails rest flow' t' small (run_window-Trails ids flow t first h)

chunks_within-le : (fuel n : ℕ) (xs : List ℕ) → All (λ w. length w ≤ n) (chunks_within fuel n xs)
unfolding chunks_within
chunks_within-le zero n xs = tt
chunks_within-le (suc fuel) n [] = tt
chunks_within-le (suc fuel) n (x ∷ xs) =
    (omega (arith, length-take n (x ∷ xs)), chunks_within-le fuel n (drop n (x ∷ xs)))

Trails-outcomes :
    {A : Type 0} (base : ℕ) (flow : Flow A) (t : Transport)
    → Trails base 0 flow t
    → length t.sent ≤ base + (answered (outcomes flow) + 4)
Trails-outcomes base (going rs) t h = omega arith
Trails-outcomes base (stopped rs) t h = h

pipelined-IsAhead :
    {A : Type 0} (command : ℕ → Text) (response : Exec Transport A)
    → Frames response
    → (ids : List ℕ) (c : Pop3Client) → IsAhead 4 c (pipelined command response ids c)
unfolding pipelined chunks answered
pipelined-IsAhead command response frames ids c =
    let windows = chunks pipeline_window ids in
    let r = run_windows command response (length ids) windows (going []) c.transport in
    Trails-outcomes (length c.transport.sent) r.0 r.1 (
      run_windows-Trails command response (length ids) (length c.transport.sent) frames windows
        (going []) c.transport (chunks_within-le (length ids) pipeline_window ids) (omega arith))

-- Whatever the server and the network do, a pipelined batch of RETR or of DELE hands to the writer at
-- most four commands more than the server has answered, an answer being a result that is no error of
-- the connection.
pub batches-IsAhead :
    (ids : List ℕ) (c : Pop3Client)
    → IsAhead 4 c (retr_many_pipelined ids c) × IsAhead 4 c (dele_many_pipelined ids c)
unfolding retr_many_pipelined dele_many_pipelined
batches-IsAhead ids c = (
  pipelined-IsAhead retr_command read_retr_response retr_response-Frames ids c,
  pipelined-IsAhead dele_command read_dele_response dele_response-Frames ids c,
)
