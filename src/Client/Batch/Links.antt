-- ===== src/Client/Batch/Links.antt =====
-- Invariants of the connection under the exchanges of src/client.rs, pipelined ones included.
use rust_adv_pop.Prelude.{ℕ, List, [], ◌∷◌, ◌++◌, arith, Lacks}
use rust_adv_pop.Text.{Text, codes, cr, lf, crlf}
use rust_adv_pop.Error.{PopResult, ok, err}
use rust_adv_pop.Exec.{Exec}
use rust_adv_pop.Exec.Keeps.{Keeps, Keeps-pure, Keeps-lift, Keeps-bind}
use rust_adv_pop.Transport.{Transport, write_all, read_multiline}
use rust_adv_pop.Transport.Discipline.{
  Discipline, send_command-Keeps, read_line-Keeps, read_multiline-Keeps,
}
use rust_adv_pop.Client.{Pop3Client, over, exchange, send_and_check}
use rust_adv_pop.Client.Batch.{
  Outcomes, Flow, going, stopped, record_response, write_commands, receive_all, after_send,
  run_window, run_windows, pipelined, retr_command, dele_command, read_retr_response,
  read_dele_response, retr_many_pipelined, dele_many_pipelined, chunks, pipeline_window,
}
use rust_adv_pop.Client.Exchanges.{Habit}
use rust_adv_pop.Client.Exchanges.Mailbox.{keyword-Lacks}

-- A property of the connection, as one of the client.
abbrev pub OnLink : (Transport → Type 0) → Pop3Client → Type 0
OnLink P c = P c.transport

pub over-Keeps :
    {A : Type 0} {P : Transport → Type 0} (m : Exec Transport A)
    → Keeps P m
    → Keeps (OnLink P) (over m)
unfolding over
over-Keeps m k = record { at = λ c h. k.at c.transport h }

-- A property of texts that every line has, with its ending or without.
pub record Speaks (Q : Text → Type 0) : Type 0 where
  pub line : (body : Text) → Lacks cr body → Lacks lf body → Q body
  pub whole_line : (body : Text) → Lacks cr body → Lacks lf body → Q (body ++ crlf)

module _ {P : Transport → Type 0} {Q : Text → Type 0} (d : Discipline P Q) (speaks : Speaks Q) where
  write_commands-Keeps :
      (command : ℕ → Text)
      → ((id : ℕ) → Lacks cr (command id) × Lacks lf (command id))
      → (ids : List ℕ) → Keeps P (write_commands command ids)
  unfolding write_commands
  write_commands-Keeps command clean [] = d.flushed
  write_commands-Keeps command clean (id ∷ rest) =
      let (no_cr, no_lf) = clean id in
      Keeps-bind (write_all (command id ++ crlf)) _
        (d.write _ (speaks.whole_line (command id) no_cr no_lf))
        (λ _. write_commands-Keeps command clean rest)

  pub retr_response-Keeps : Keeps P read_retr_response
  unfolding read_retr_response
  retr_response-Keeps = Keeps-bind _ _ (read_line-Keeps d) (λ line.
      Keeps-bind _ _ (Keeps-lift _)
        (λ _. Keeps-bind _ _ (read_multiline-Keeps d) (λ body. Keeps-pure _)))

  pub dele_response-Keeps : Keeps P read_dele_response
  unfolding read_dele_response
  dele_response-Keeps =
      Keeps-bind _ _ (read_line-Keeps d) (λ line. Keeps-bind _ _ (Keeps-lift _) (λ _. Keeps-pure _))

  module _ {A : Type 0} (command : ℕ → Text) (response : Exec Transport A) (total : ℕ)
      (clean : (id : ℕ) → Lacks cr (command id) × Lacks lf (command id))
      (reads : Keeps P response) where
    receive_all-at :
        (ids : List ℕ) (flow : Flow A) (t : Transport)
        → P t
        → P (receive_all command response total ids flow t).1
    unfolding receive_all
    receive_all-at [] flow t h = h
    receive_all-at (id ∷ rest) (stopped rs) t h = h
    receive_all-at (id ∷ rest) (going rs) t h =
        let (r, t') = response t in
        receive_all-at rest (record_response total r rs) t' (reads.at t h)

    after_send-at :
        (ids : List ℕ) (rs : Outcomes A) (r : PopResult (Unit {0}) × Transport)
        → P r.1
        → P (after_send command response total ids rs r).1
    unfolding after_send
    after_send-at ids rs (ok done, t) h = receive_all-at ids (going rs) t h
    after_send-at ids rs (err e, t) h = h

    run_window-at :
        (ids : List ℕ) (flow : Flow A) (t : Transport)
        → P t
        → P (run_window command response total ids flow t).1
    unfolding run_window
    run_window-at ids (stopped rs) t h = h
    run_window-at ids (going rs) t h =
        after_send-at ids rs (write_commands command ids t)
          ((write_commands-Keeps command clean ids).at t h)

    run_windows-at :
        (windows : List (List ℕ)) (flow : Flow A) (t : Transport)
        → P t
        → P (run_windows command response total windows flow t).1
    unfolding run_windows
    run_windows-at [] flow t h = h
    run_windows-at (ids ∷ rest) flow t h =
        let (flow', t') = run_window command response total ids flow t in
        run_windows-at rest flow' t' (run_window-at ids flow t h)

  pipelined-Keeps :
      {A : Type 0} (command : ℕ → Text) (response : Exec Transport A)
      → ((id : ℕ) → Lacks cr (command id) × Lacks lf (command id))
      → Keeps P response
      → (ids : List ℕ) → Keeps (OnLink P) (pipelined command response ids)
  unfolding pipelined
  pipelined-Keeps command response clean reads ids = record {
    at = λ c h.
        run_windows-at command response _ clean reads (chunks pipeline_window ids) (going [])
          c.transport h;
  }

  link_command : (cmd : Text) → Lacks cr cmd × Lacks lf cmd → Keeps (OnLink P) (send_and_check cmd)
  unfolding send_and_check exchange
  link_command cmd (no_cr, no_lf) = over-Keeps (exchange cmd) (
      Keeps-bind _ _ (send_command-Keeps d cmd (speaks.line cmd no_cr no_lf))
        (λ _. Keeps-bind _ _ (read_line-Keeps d) (λ line. Keeps-lift _)))

  retr_pipe-Keeps : (ids : List ℕ) → Keeps (OnLink P) (retr_many_pipelined ids)
  unfolding retr_many_pipelined
  retr_pipe-Keeps =
      pipelined-Keeps retr_command read_retr_response
        (λ id. keyword-Lacks (codes "RETR ") id (omega arith, omega arith)) retr_response-Keeps

  dele_pipe-Keeps : (ids : List ℕ) → Keeps (OnLink P) (dele_many_pipelined ids)
  unfolding dele_many_pipelined
  dele_pipe-Keeps =
      pipelined-Keeps dele_command read_dele_response
        (λ id. keyword-Lacks (codes "DELE ") id (omega arith, omega arith)) dele_response-Keeps

  pub link_habit : Habit (OnLink P)
  link_habit = record {
    command = link_command;
    body = over-Keeps read_multiline (read_multiline-Keeps d);
    retr_pipe = retr_pipe-Keeps;
    dele_pipe = dele_pipe-Keeps;
  }
