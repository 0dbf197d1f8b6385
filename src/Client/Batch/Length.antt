-- ===== src/Client/Batch/Length.antt =====
-- The number of results of a batch of src/client.rs.
use rust_adv_pop.Prelude.{
  ℕ, suc, ◌+◌, ◌-◌, ◌≤◌, ◌<◌, ◌≡◌, refl, ap, subst, List, [], ◌∷◌, arith, Bool-cases, inl, inr,
  length, replicate, length-append, length-replicate, All,
}
use rust_adv_pop.Text.{Text}
use rust_adv_pop.Error.{Pop3Error, connection_closed, PopResult, ok, err}
use rust_adv_pop.Types.{authenticated}
use rust_adv_pop.Exec.{Exec}
use rust_adv_pop.Transport.{Transport}
use rust_adv_pop.Client.{Pop3Client, require_auth, validate_message_id, retr, dele}
use rust_adv_pop.Client.Batch.{
  pipeline_window, chunks, is_io_level, Outcomes, Flow, going, stopped, outcomes, fill,
  record_response, receive_all, after_send, run_window, run_windows, write_commands, pipelined,
  retr_many_pipelined, dele_many_pipelined, retr_command, dele_command, read_retr_response,
  read_dele_response, each, sequential, validate_all, run_batch, retr_many, dele_many,
}
use rust_adv_pop.Client.Batch.Windows.{flatten, flatten-chunks}

-- The results so far, or all of them where the loop has returned.
abbrev Counts : {A : Type 0} → ℕ → ℕ → Flow A → Type 0
Counts total n (going rs) = length rs ≡ n
Counts total n (stopped rs) = length rs ≡ total

length-fill :
    {A : Type 0} (total : ℕ) (e : Pop3Error) (rs : Outcomes A)
    → length rs ≤ total
    → length (fill total e rs) ≡ total
unfolding fill
length-fill {A} total e rs h = omega (
  arith,
  length-append rs (replicate (total - length rs) (err e)),
  length-replicate {A = PopResult A} (total - length rs) (err e),
)

record_response-Counts :
    {A : Type 0} (total n : ℕ) (r : PopResult A) (rs : Outcomes A)
    → length rs ≡ n
    → n < total
    → Counts total (suc n) (record_response total r rs)
unfolding record_response
record_response-Counts total n (ok a) rs h room = omega (arith, length-append rs (ok a ∷ []))
record_response-Counts total n (err e) rs h room = elim (Bool-cases (is_io_level e)) [
  | inl dead ↦ rw dead (length-fill total connection_closed rs (omega arith))
  | inr alive ↦ rw alive (omega (arith, length-append rs (err e ∷ [])))
]

module _ {A : Type 0} (command : ℕ → Text) (response : Exec Transport A) (total : ℕ) where
  receive_all-Counts :
      (ids : List ℕ) (flow : Flow A) (t : Transport) (n : ℕ)
      → Counts total n flow
      → n + length ids ≤ total
      → Counts total (n + length ids) (receive_all command response total ids flow t).0
  unfolding receive_all
  receive_all-Counts [] (going rs) t n h room = omega arith
  receive_all-Counts [] (stopped rs) t n h room = h
  receive_all-Counts (id ∷ rest) (stopped rs) t n h room = h
  receive_all-Counts (id ∷ rest) (going rs) t n h room =
      let (r, t') = response t in
      subst
        (λ (k : ℕ).
          Counts total k
            (receive_all command response total rest (record_response total r rs) t').0)
        (omega arith)
        (receive_all-Counts rest (record_response total r rs) t' (suc n)
          (record_response-Counts total n r rs h (omega arith)) (omega arith))

  after_send-Counts :
      (ids : List ℕ) (rs : Outcomes A) (r : PopResult (Unit {0}) × Transport) (n : ℕ)
      → length rs ≡ n
      → n + length ids ≤ total
      → Counts total (n + length ids) (after_send command response total ids rs r).0
  unfolding after_send
  after_send-Counts ids rs (ok done, t) n h room = receive_all-Counts ids (going rs) t n h room
  after_send-Counts ids rs (err e, t) n h room = length-fill total e rs (omega arith)

  run_window-Counts :
      (ids : List ℕ) (flow : Flow A) (t : Transport) (n : ℕ)
      → Counts total n flow
      → n + length ids ≤ total
      → Counts total (n + length ids) (run_window command response total ids flow t).0
  unfolding run_window
  run_window-Counts ids (going rs) t n h room =
      after_send-Counts ids rs (write_commands command ids t) n h room
  run_window-Counts ids (stopped rs) t n h room = h

  run_windows-Counts :
      (windows : List (List ℕ)) (flow : Flow A) (t : Transport) (n : ℕ)
      → Counts total n flow
      → n + length (flatten windows) ≤ total
      → Counts total
          (n + length (flatten windows))
          (run_windows command response total windows flow t).0
  unfolding run_windows
  run_windows-Counts [] (going rs) t n h room = omega arith
  run_windows-Counts [] (stopped rs) t n h room = h
  run_windows-Counts (ids ∷ rest) flow t n h room =
      let (flow', t') = run_window command response total ids flow t in
      subst (λ (k : ℕ). Counts total k (run_windows command response total rest flow' t').0)
        (omega (arith, length-append ids (flatten rest)))
        (run_windows-Counts rest flow' t' (n + length ids)
          (run_window-Counts ids flow t n h (omega (arith, length-append ids (flatten rest))))
          (omega (arith, length-append ids (flatten rest))))

Counts-all :
    {A : Type 0} (total : ℕ) (flow : Flow A)
    → Counts total total flow
    → length (outcomes flow) ≡ total
Counts-all total (going rs) h = h
Counts-all total (stopped rs) h = h

-- An outcome of a batch: results, one for each id.
abbrev pub OnePerId : {A : Type 0} → List ℕ → PopResult (Outcomes A) → Type 0
OnePerId ids r = (rs : _) × (r ≡ ok rs) × (length rs ≡ length ids)

pipelined-OnePerId :
    {A : Type 0} (command : ℕ → Text) (response : Exec Transport A) (ids : List ℕ) (c : Pop3Client)
    → OnePerId ids (pipelined command response ids c).0
unfolding pipelined
pipelined-OnePerId command response ids c =
    let flow =
      (run_windows command response (length ids) (chunks pipeline_window ids) (going [])
        c.transport).0 in
    let whole = flatten-chunks ids in
    (
      outcomes flow,
      refl,
      Counts-all (length ids) flow (
          subst (λ (k : ℕ). Counts (length ids) k flow) (omega (arith, ap length whole))
            (run_windows-Counts command response (length ids) (chunks pipeline_window ids)
              (going []) c.transport 0 refl (omega (arith, ap length whole)))),
    )

length-each :
    {A : Type 0} (op : ℕ → Exec Pop3Client A) (ids : List ℕ) (c : Pop3Client)
    → length (each op ids c).0 ≡ length ids
unfolding each
length-each op [] c = refl
length-each op (id ∷ rest) c = ap suc (length-each op rest (op id c).1)

sequential-OnePerId :
    {A : Type 0} (op : ℕ → Exec Pop3Client A) (ids : List ℕ) (c : Pop3Client)
    → OnePerId ids (sequential op ids c).0
unfolding sequential
sequential-OnePerId op ids c = ((each op ids c).0, refl, length-each op ids c)

run_batch-OnePerId :
    {A : Type 0} (slow fast : Exec Pop3Client (Outcomes A)) (ids : List ℕ) (c : Pop3Client)
    → OnePerId ids (slow c).0
    → OnePerId ids (fast c).0
    → OnePerId ids (run_batch slow fast ids c).0
run_batch-OnePerId slow fast [] c hs hf = ([], refl, refl)
run_batch-OnePerId slow fast (id ∷ rest) c hs hf = elim (Bool-cases c.is_pipelining) [
  | inl e ↦ simp e hf
  | inr e ↦ simp e hs
]

abbrev pub ValidIds : List ℕ → Type 0
ValidIds = All (λ id. 1 ≤ id)

pub validate_all-ok : (ids : List ℕ) → ValidIds ids → validate_all ids ≡ ok tt
unfolding validate_all validate_message_id
validate_all-ok [] h = refl
validate_all-ok (id ∷ rest) h = ground (arith, validate_all-ok rest)

pub require_auth-ok : (c : Pop3Client) → c.state ≡ authenticated → require_auth c ≡ (ok tt, c)
unfolding require_auth
require_auth-ok c e = simp e

-- On an authenticated client and for ids from 1 on, a batch of RETR and a batch of DELE return one
-- result for each id, pipelined or not, whatever the server and the network do.
pub batches-OnePerId :
    (ids : List ℕ) (c : Pop3Client)
    → c.state ≡ authenticated
    → ValidIds ids
    → OnePerId ids (retr_many ids c).0 × OnePerId ids (dele_many ids c).0
unfolding retr_many dele_many retr_many_pipelined dele_many_pipelined
batches-OnePerId ids c auth valid = rw (require_auth-ok c auth) (
    rw (validate_all-ok ids valid) (
      run_batch-OnePerId _ _ ids c (sequential-OnePerId retr ids c)
          (pipelined-OnePerId retr_command read_retr_response ids c),
      run_batch-OnePerId _ _ ids c (sequential-OnePerId dele ids c)
          (pipelined-OnePerId dele_command read_dele_response ids c),
    ))
