-- ===== src/Client/Batch/Agreement.antt =====
-- Both ways to run a batch of src/client.rs, one command at a time and pipelined, side by side.
use rust_adv_pop.Prelude.{
  ℕ, ◌≡◌, ◌≢◌, refl, ap, sym, subst, ◌∙◌, List, [], ◌∷◌, ◌++◌, append_assoc, All, true, false, Bool,
}
use rust_adv_pop.Text.{Text, crlf}
use rust_adv_pop.Error.{PopResult, ok}
use rust_adv_pop.Types.{authenticated, Message}
use rust_adv_pop.Exec.{Exec, lift, ◌>>◌}
use rust_adv_pop.Exec.Keeps.{Keeps}
use rust_adv_pop.Transport.{InnerStream, upgrading, Sent, Transport}
use rust_adv_pop.Transport.Quiet.{
  Quiet, Quiet-discipline, with_sent, Frames, Frames-bind, Frames-lift, Frames-pure,
  read_line-Frames, read_multiline-Frames,
}
use rust_adv_pop.Client.{Pop3Client, require_auth, retr, dele}
use rust_adv_pop.Client.Batch.{
  Outcomes, chunks, pipeline_window, pipelined, pipelined_result, sequential, sequential_result,
  validate_all, run_batch, retr_command, dele_command, read_retr_response, read_dele_response,
  retr_many, dele_many, retr_many_pipelined, dele_many_pipelined,
}
use rust_adv_pop.Client.Batch.Windows.{flatten-chunks}
use rust_adv_pop.Client.Batch.Length.{require_auth-ok, validate_all-ok, ValidIds}
use rust_adv_pop.Client.Batch.Links.{Speaks, retr_response-Keeps, dele_response-Keeps}
use rust_adv_pop.Client.Batch.Drain.{drain, IsSettled, batched, singles, run_windows-drain}
use rust_adv_pop.Client.Batch.Serial.{
  one, serial-drain, IsExchange, each-serial, retr-IsExchange, dele-IsExchange,
}

-- The texts that were sent, in one.
abbrev pub wire : List Sent → Text
wire [] = []
wire (x ∷ l) = x.text ++ wire l

-- The client with the mark for PIPELINING set or not.
abbrev pub marked : Bool → Pop3Client → Pop3Client
marked b c = record c { is_pipelining = b }

-- Two runs have the same results, leave the same connection and have sent the same bytes.
pub record Agree {A : Type 0} (slow fast : PopResult A × Pop3Client) : Type 0 where
  pub same_result : fast.0 ≡ slow.0
  pub same_link : with_sent [] fast.1.transport ≡ with_sent [] slow.1.transport
  pub same_bytes : wire fast.1.transport.sent ≡ wire slow.1.transport.sent

pub wire-append : (k l : List Sent) → wire (k ++ l) ≡ wire k ++ wire l
wire-append [] l = refl
wire-append (x ∷ k) l =
    ap (λ w. x.text ++ w) (wire-append k l) ∙ sym (append_assoc x.text (wire k) (wire l))

wire-batched :
    (s : InnerStream) (command : ℕ → Text) (ids : List ℕ)
    → wire (batched s command ids) ≡ wire (singles s command ids)
wire-batched s command [] = refl
wire-batched s command (id ∷ rest) =
    append_assoc (command id) crlf (wire (batched s command rest))
    ∙ ap (λ w. command id ++ (crlf ++ w)) (wire-batched s command rest)

wire_same :
    (s : InnerStream) (command : ℕ → Text) (ids : List ℕ) (l : List Sent)
    → wire (l ++ batched s command ids) ≡ wire (l ++ singles s command ids)
wire_same s command ids l =
    wire-append l (batched s command ids)
    ∙ ap (λ w. wire l ++ w) (wire-batched s command ids)
    ∙ sym (wire-append l (singles s command ids))

module _ {A : Type 0} (s : InnerStream) (live : s ≢ upgrading) (command : ℕ → Text)
    (response : Exec Transport A) (frames : Frames response)
    (keeps : Keeps (Quiet s) response) where
  -- The client behind a batch, with the texts that it has sent.
  abbrev behind_batch :
      List ℕ → (List ℕ → List Sent) → Pop3Client → PopResult (Outcomes A) × Pop3Client
  behind_batch ids texts c =
      let d = drain response ids c.transport in
      (ok d.0, record c { transport = with_sent (c.transport.sent ++ texts ids) d.1 })

  sequential-drain :
      (op : ℕ → Exec Pop3Client A)
      → IsExchange op (one command response)
      → (ids : List ℕ) (c : Pop3Client) → c.state ≡ authenticated
      → ValidIds ids
      → Quiet s c.transport
      → sequential op ids c ≡ behind_batch ids (singles s command) c
  unfolding sequential
  sequential-drain op ex ids c auth valid quiet =
      ap sequential_result (each-serial op (one command response) ex ids c auth valid)
      ∙ ap (λ (d : Outcomes A × Transport). (ok d.0, record c { transport = d.1 }))
          (serial-drain s command response live frames keeps ids c.transport quiet)

  pipelined-drain :
      (ids : List ℕ) (c : Pop3Client)
      → Quiet s c.transport
      → All IsSettled (drain response ids c.transport).0
      → pipelined command response ids c ≡ behind_batch ids (batched s command) c
  unfolding pipelined
  pipelined-drain ids c quiet settled =
      let whole = flatten-chunks ids in
      ap (pipelined_result c) (
        run_windows-drain s live command response frames keeps _ (chunks pipeline_window ids) []
          c.transport quiet
          (subst (λ (l : List ℕ). All IsSettled (drain response l c.transport).0) (sym whole)
            settled))
      ∙ ap (λ (l : List ℕ). behind_batch l (batched s command) c) whole

  batches-Agree :
      (op : ℕ → Exec Pop3Client A)
      → IsExchange op (one command response)
      → (ids : List ℕ) (c : Pop3Client) → c.state ≡ authenticated
      → ValidIds ids
      → Quiet s c.transport
      → (rs : Outcomes A) → (sequential op ids (marked false c)).0 ≡ ok rs
      → All IsSettled rs
      → Agree (sequential op ids (marked false c)) (pipelined command response ids (marked true c))
  batches-Agree op ex ids c auth valid quiet rs e settled =
      let slow = sequential-drain op ex ids (marked false c) auth valid quiet in
      let results = drain response ids c.transport in
      let same : rs ≡ results.0 = cc in
      let fast = pipelined-drain ids (marked true c) quiet (subst (All IsSettled) same settled) in
      subst
        (λ (r : PopResult (Outcomes A) × Pop3Client).
          Agree r (pipelined command response ids (marked true c)))
        (sym slow)
        (subst
          (λ (r : PopResult (Outcomes A) × Pop3Client).
            Agree (behind_batch ids (singles s command) (marked false c)) r)
          (sym fast)
          (record {
            same_result = refl;
            same_link = refl;
            same_bytes = wire_same s command ids c.transport.sent;
          }))

pub retr_response-Frames : Frames read_retr_response
unfolding read_retr_response
retr_response-Frames = Frames-bind _ _ read_line-Frames (λ line.
    Frames-bind _ _ (Frames-lift _)
      (λ _. Frames-bind _ _ read_multiline-Frames (λ body. Frames-pure _)))

pub dele_response-Frames : Frames read_dele_response
unfolding read_dele_response
dele_response-Frames =
    Frames-bind _ _ read_line-Frames (λ line. Frames-bind _ _ (Frames-lift _) (λ _. Frames-pure _))

anything : Speaks (λ text. Unit {0})
anything = record { line = λ body no_cr no_lf. tt; whole_line = λ body no_cr no_lf. tt }

module _ {A : Type 0} (ids : List ℕ) (c : Pop3Client) (auth : c.state ≡ authenticated)
    (valid : ValidIds ids) where
  abbrev pub guarded : Exec Pop3Client (Outcomes A) → Exec Pop3Client (Outcomes A)
  guarded m = do require_auth; lift (validate_all ids); m

  pub guards_pass :
      (m : Exec Pop3Client (Outcomes A)) (b : Bool) → guarded m (marked b c) ≡ m (marked b c)
  guards_pass m b = rw (require_auth-ok (marked b c) auth) (rw (validate_all-ok ids valid))

  -- Behind the guards each mark chooses its way, unless there are no ids.
  guarded-Agree :
      (slow fast : Exec Pop3Client (Outcomes A)) (rs : Outcomes A)
      → ((slow (marked false c)).0 ≡ ok rs → Agree (slow (marked false c)) (fast (marked true c)))
      → (guarded (run_batch slow fast ids) (marked false c)).0 ≡ ok rs
      → Agree
          (guarded (run_batch slow fast ids) (marked false c))
          (guarded (run_batch slow fast ids) (marked true c))
  guarded-Agree slow fast rs agree e =
      rw (guards_pass (run_batch slow fast ids) false, guards_pass (run_batch slow fast ids) true)
        (chosen ids (
          ap (λ (r : PopResult (Outcomes A) × Pop3Client). r.0)
            (sym (guards_pass (run_batch slow fast ids) false))
          ∙ e))
    where
      chosen :
          (l : List ℕ)
          → (run_batch slow fast l (marked false c)).0 ≡ ok rs
          → Agree (run_batch slow fast l (marked false c)) (run_batch slow fast l (marked true c))
      chosen [] q = record { same_result = refl; same_link = refl; same_bytes = refl }
      chosen (id ∷ rest) q = agree q

module _ (s : InnerStream) (ids : List ℕ) (c : Pop3Client) where
  -- On an authenticated client, for ids from 1 on and a connection on which no write and no flush
  -- fails, a pipelined batch of RETR agrees with a batch of one command at a time: the same results,
  -- the same connection and the same bytes sent, if the latter has no error of the connection among its
  -- results.
  pub retr_many-Agree :
      (rs : Outcomes Message)
      → s ≢ upgrading
      → c.state ≡ authenticated
      → ValidIds ids
      → Quiet s c.transport
      → (retr_many ids (marked false c)).0 ≡ ok rs
      → All IsSettled rs
      → Agree (retr_many ids (marked false c)) (retr_many ids (marked true c))
  unfolding retr_many retr_many_pipelined
  retr_many-Agree rs live auth valid quiet e settled =
      guarded-Agree ids c auth valid (sequential retr ids)
        (pipelined retr_command read_retr_response ids) rs
        (λ q.
          batches-Agree s live retr_command read_retr_response retr_response-Frames
            (retr_response-Keeps (Quiet-discipline s) anything) retr retr-IsExchange ids c auth
            valid quiet rs q settled)
        e

  -- On an authenticated client, for ids from 1 on and a connection on which no write and no flush
  -- fails, a pipelined batch of DELE agrees with a batch of one command at a time: the same results,
  -- the same connection and the same bytes sent, if the latter has no error of the connection among its
  -- results.
  pub dele_many-Agree :
      (rs : Outcomes (Unit {0}))
      → s ≢ upgrading
      → c.state ≡ authenticated
      → ValidIds ids
      → Quiet s c.transport
      → (dele_many ids (marked false c)).0 ≡ ok rs
      → All IsSettled rs
      → Agree (dele_many ids (marked false c)) (dele_many ids (marked true c))
  unfolding dele_many dele_many_pipelined
  dele_many-Agree rs live auth valid quiet e settled =
      guarded-Agree ids c auth valid (sequential dele ids)
        (pipelined dele_command read_dele_response ids) rs
        (λ q.
          batches-Agree s live dele_command read_dele_response dele_response-Frames
            (dele_response-Keeps (Quiet-discipline s) anything) dele dele-IsExchange ids c auth
            valid quiet rs q settled)
        e
