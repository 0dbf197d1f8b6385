-- ===== src/Pool/Late.antt =====
-- A connection of src/pool.rs on which a read has timed out, at the next checkout.
use rust_adv_pop.Prelude.{ℕ, ◌≡◌, ◌≢◌, refl, ap, sym, ◌∙◌, false, List, [], ◌∷◌, ◌++◌, Lacks}
use rust_adv_pop.Text.{Text, codes, lf, crlf}
use rust_adv_pop.Error.{timeout, PopResult, ok, err}
use rust_adv_pop.Response.{parse_status_line}
use rust_adv_pop.Response.Codes.{ok_line}
use rust_adv_pop.Exec.{Exec, pure, lift, continue, ◌>>=◌}
use rust_adv_pop.Transport.{
  InnerStream, upgrading, ReadEvent, elapsed, Transport, read_from, read_line,
}
use rust_adv_pop.Transport.Multiline.{after, on_stream-live}
use rust_adv_pop.Transport.Quiet.{Quiet, with_sent, with_sent-Quiet, on_channel, send_command-sent}
use rust_adv_pop.Client
use rust_adv_pop.Client.{Pop3Client, over, over_result, exchange, send_and_check, require_auth}
use rust_adv_pop.Client.Batch.Length.{require_auth-ok}
use rust_adv_pop.Maildrop.{ok_reply}
use rust_adv_pop.Maildrop.Turns.{sent_behind, send-answered}
use rust_adv_pop.Types.{authenticated}
use rust_adv_pop.Pool.{has_broken, is_valid}

-- No line within the timeout.
abbrev pub late : ReadEvent
late = record { outcome = elapsed; left = 0 }

-- A success line, with so many bytes in the buffer behind it.
abbrev pub accepted : Text → ℕ → ReadEvent
accepted text n = record { outcome = ok_reply text; left = n }

-- An authenticated client on a quiet connection with these reads to come.
pub record Waiting (s : InnerStream) (reads : List ReadEvent) (c : Pop3Client) : Type 0 where
  pub auth : c.state ≡ authenticated
  pub quiet : Quiet s c.transport
  pub script : c.transport.net.reads ≡ reads

module _ (s : InnerStream) (live : s ≢ upgrading) where
  read_line-late :
      (rest : List ReadEvent) (t : Transport)
      → Quiet s t
      → t.net.reads ≡ late ∷ rest
      → read_line t ≡ (err timeout, after 0 rest t)
  unfolding read_line read_from
  read_line-late rest t quiet script =
      ap (λ (m : Exec Transport Text). m t)
        (on_stream-live t.stream (read_from t.net.reads) (λ e. live (sym quiet.on ∙ e)))
      ∙ ap (λ (events : List ReadEvent). read_from events t) script

  send-late :
      (cmd : Text) (rest : List ReadEvent) (c : Pop3Client)
      → Waiting s (late ∷ rest) c
      → send_and_check cmd c ≡ (err timeout, sent_behind s cmd 0 rest c)
  unfolding send_and_check over exchange
  send-late cmd rest c h =
      let t = c.transport in
      let l = t.sent ++ on_channel s cmd ∷ on_channel s crlf ∷ [] in
      let reply : Exec Transport Text = (do got ← read_line; lift (parse_status_line got)) in
      ap (over_result c) (
        ap (λ (x : PopResult (Unit {0}) × Transport). continue x (λ _. reply))
          (send_command-sent s cmd t live h.quiet)
        ∙ ap (λ (x : PopResult Text × Transport). continue x (λ got. lift (parse_status_line got)))
            (read_line-late rest (with_sent l t) (with_sent-Quiet s t l h.quiet) h.script))

  stat-late :
      (rest : List ReadEvent) (c : Pop3Client)
      → Waiting s (late ∷ rest) c
      → Client.stat c ≡ (err timeout, sent_behind s (codes "STAT") 0 rest c)
  unfolding Client.stat
  stat-late rest c h = rw (require_auth-ok c h.auth) (rw (send-late (codes "STAT") rest c h))

  noop-answered :
      (text : Text) (n : ℕ) (rest : List ReadEvent) (c : Pop3Client)
      → Lacks lf text
      → Waiting s (accepted text n ∷ rest) c
      → is_valid c ≡ (ok tt, sent_behind s (codes "NOOP") n rest c)
  unfolding is_valid Client.noop
  noop-answered text n rest c clean h = rw (require_auth-ok c h.auth) (
      ap (λ (r : PopResult Text × Pop3Client). continue r (λ _. pure tt))
        (send-answered s live (codes "NOOP") (codes "+OK " ++ text) (accepted text n) rest c h.quiet
            h.script refl
          ∙ ap (λ (r : PopResult Text). (r, sent_behind s (codes "NOOP") n rest c))
              (ok_line text clean)))

  -- On an authenticated client on an open connection on which no write and no flush fails, where the
  -- server is late and then accepts a STAT, with any bytes left in the buffer behind its answer: STAT
  -- fails with Timeout, the pool does not find the connection broken, and its test at the next checkout
  -- takes that answer for its own and succeeds, with every answer behind it, that to its own NOOP
  -- included, still to be read.
  pub late_answer_unnoticed :
      (text : Text) (n : ℕ) (rest : List ReadEvent) (c : Pop3Client)
      → Lacks lf text
      → Waiting s (late ∷ accepted text n ∷ rest) c
      → c.transport.is_closed ≡ false
      → ((Client.stat c).0 ≡ err timeout)
        × (has_broken (Client.stat c).1 ≡ false)
        × ((is_valid (Client.stat c).1).0 ≡ ok tt)
        × ((is_valid (Client.stat c).1).1.transport.net.reads ≡ rest)
  unfolding has_broken
  late_answer_unnoticed text n rest c clean h open_link =
      let behind = accepted text n ∷ rest in
      let d = sent_behind s (codes "STAT") 0 behind c in
      let e = stat-late behind c h in
      let y = noop-answered text n rest d clean (record {
        auth = h.auth;
        quiet = record {
          on = h.quiet.on;
          no_write_fault = h.quiet.no_write_fault;
          no_flush_fault = h.quiet.no_flush_fault;
        };
        script = refl;
      }) in
      rw e (rw y (refl, open_link, refl, refl))
