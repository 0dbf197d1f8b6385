-- ===== src/Maildrop/Batch.antt =====
-- The batches of src/client.rs against the answers of a maildrop.
use rust_adv_pop.Prelude.{
  ℕ, ◌≤◌, ◌≡◌, ◌≢◌, refl, ap, sym, subst, ◌∙◌, Bool, true, false, Option, none, some, List, [], ◌∷◌,
  ◌++◌, append_assoc, map, All,
}
use rust_adv_pop.Error.{server_error, PopResult, ok, err}
use rust_adv_pop.Types.{Message}
use rust_adv_pop.Exec.{Exec}
use rust_adv_pop.Transport.{InnerStream, upgrading, ReadOutcome, Transport}
use rust_adv_pop.Transport.Multiline.{body_text, heard}
use rust_adv_pop.Client
use rust_adv_pop.Client.{Pop3Client, message_of}
use rust_adv_pop.Client.Batch.{
  Outcomes, each, sequential, run_batch, is_io_level, retr_many, retr_many_pipelined,
}
use rust_adv_pop.Client.Batch.Length.{ValidIds}
use rust_adv_pop.Client.Batch.Drain.{IsSettled}
use rust_adv_pop.Client.Batch.Agreement.{marked, guards_pass, retr_many-Agree}
use rust_adv_pop.Maildrop.{
  Letter, Maildrop, find, contents, no_such, multi_reply, Request, retr, reply, reply_letter, Fits,
  leave, talk, exchange_of, Turn, request, spoken,
}
use rust_adv_pop.Maildrop.Dialogue.{Session, Ready, Yields}
use rust_adv_pop.Maildrop.Contents.{EntryFits, contents-EntryFits, find-EntryFits}
use rust_adv_pop.Maildrop.Holds.{Facing, Holds, before, Facing-Ready, Ready-Holds}
use rust_adv_pop.Maildrop.Replies
use rust_adv_pop.Maildrop.Refusals

-- What a RETR of a letter that is shown, or is not, comes to.
abbrev letter_result : Option Letter → PopResult Message
letter_result none = err (server_error no_such)
letter_result (some l) = ok (message_of (body_text l.content))

unfoldable pub retrieved : Maildrop → ℕ → PopResult Message
retrieved m id = letter_result (find id (contents m))

-- A RETR for each id.
abbrev pub retr_requests : List ℕ → List Request
retr_requests ids = map (λ id. retr id) ids

module _ (s : Session) (live : s.stream ≢ upgrading) (m : Maildrop) (fits : Fits m) where
  letter-answered :
      (id : ℕ) (rest : List Turn) (c : Pop3Client) (o : Option Letter)
      → 1 ≤ id
      → ((l : Letter) → o ≡ some l → EntryFits (id, l))
      → Ready s
          (request (retr id) ∷ (spoken (reply_letter (λ l. multi_reply l.content) o) ++ rest))
          c
      → Yields s (Client.retr id) c (letter_result o) rest
  letter-answered id rest c none valid found h = Refusals.retr-refused s live rest c id valid h
  letter-answered id rest c (some l) valid found h =
      Replies.retr-Yields s live rest c id l.content valid (found l refl).letter_fits.lines_clean h

  retr-answered :
      (id : ℕ) (rest : List Turn) (c : Pop3Client)
      → 1 ≤ id
      → Ready s (exchange_of (retr id) m ++ rest) c
      → Yields s (Client.retr id) c (retrieved m id) rest
  unfolding retrieved reply
  retr-answered id rest c valid h =
      letter-answered id rest c (find id (contents m)) valid
        (λ l e. find-EntryFits id l (contents m) (contents-EntryFits m fits) e) h

  each-retrieved :
      (ids : List ℕ) (rest : List Turn) (c : Pop3Client)
      → ValidIds ids
      → Ready s (talk (retr_requests ids) m ++ rest) c
      → ((each Client.retr ids c).0 ≡ map (retrieved m) ids)
        × Ready s rest (each Client.retr ids c).1
  unfolding each talk leave
  each-retrieved [] rest c valid h = (refl, h)
  each-retrieved (id ∷ ids) rest c (first, valid) h =
      let later = talk (retr_requests ids) m in
      let y =
        retr-answered id (later ++ rest) c first (
          subst (λ turns. Ready s turns c) (append_assoc (exchange_of (retr id) m) later rest) h) in
      let (e, k) = each-retrieved ids rest (Client.retr id c).1 valid y.ready in
      (
        ap (λ r. r ∷ (each Client.retr ids (Client.retr id c).1).0) y.result
            ∙ ap (λ rs. retrieved m id ∷ rs) e,
        k,
      )

  letter-IsSettled : (o : Option Letter) → IsSettled (letter_result o)
  unfolding is_io_level
  letter-IsSettled none = refl
  letter-IsSettled (some l) = tt

  retrieved-IsSettled : (ids : List ℕ) → All IsSettled (map (retrieved m) ids)
  unfolding retrieved
  retrieved-IsSettled [] = tt
  retrieved-IsSettled (id ∷ ids) =
      (letter-IsSettled (find id (contents m)), retrieved-IsSettled ids)

  run_sequential :
      (ids : List ℕ) (rest : List Turn) (c : Pop3Client)
      → ValidIds ids
      → Ready s (talk (retr_requests ids) m ++ rest) c
      → (fast : Exec Pop3Client (Outcomes Message))
      → Yields s
          (run_batch (sequential Client.retr ids) fast ids)
          (marked false c)
          (ok (map (retrieved m) ids))
          rest
  unfolding sequential talk
  run_sequential ids rest c valid h fast =
      by_ids ids valid (record { auth = h.auth; quiet = h.quiet; script = h.script; said = h.said })
    where
      by_ids :
          (l : List ℕ)
          → ValidIds l
          → Ready s (talk (retr_requests l) m ++ rest) (marked false c)
          → Yields s
              (run_batch (sequential Client.retr l) fast l)
              (marked false c)
              (ok (map (retrieved m) l))
              rest
      by_ids [] v k = record { result = refl; ready = k }
      by_ids (id ∷ l) v k =
          let (e, r) = each-retrieved (id ∷ l) rest (marked false c) v k in
          record { result = ap (λ rs. ok rs) e; ready = r }

  one_by_one :
      (ids : List ℕ) (rest : List Turn) (c : Pop3Client)
      → ValidIds ids
      → Ready s (talk (retr_requests ids) m ++ rest) c
      → Yields s (retr_many ids) (marked false c) (ok (map (retrieved m) ids)) rest
  unfolding retr_many
  one_by_one ids rest c valid h =
      let batch = run_batch (sequential Client.retr ids) (retr_many_pipelined ids) ids in
      let passed = guards_pass ids c h.auth valid batch false in
      let y = run_sequential ids rest c valid h (retr_many_pipelined ids) in
      record {
        result = ap (λ (r : PopResult (Outcomes Message) × Pop3Client). r.0) passed ∙ y.result;
        ready =
            subst (λ (r : PopResult (Outcomes Message) × Pop3Client). Ready s rest r.1) (sym passed)
              y.ready;
      }

module _ (s : InnerStream) (m : Maildrop) (ids : List ℕ) (rest : List ReadOutcome)
    (c : Pop3Client) where
  abbrev batch_turns : List Turn
  batch_turns = talk (retr_requests ids) m

  held :
      s ≢ upgrading
      → Fits m
      → ValidIds ids
      → Facing s batch_turns rest c
      → Holds batch_turns rest c (ok (map (retrieved m) ids)) (retr_many ids (marked false c))
  held live fits valid h =
      let y =
        one_by_one (before s batch_turns c) live m fits ids (spoken rest) c valid
          (Facing-Ready s batch_turns rest c h) in
      Ready-Holds s batch_turns rest c _ (retr_many ids (marked false c)) y.result y.ready

  -- With pipelining or without, an authenticated client on a live connection on which no write and no
  -- flush fails, and whose reads come to what a maildrop that fits the client answers to a RETR for
  -- each id, with any bytes left in the buffer behind each read, sends exactly these commands, as RFC
  -- 1939 spells them, gets from retr_many for each id from 1 on the letter of that number where it is
  -- shown, and the server's refusal where it is not, and leaves the reads behind them.
  pub retr_many-retrieved :
      (pipelining : Bool)
      → s ≢ upgrading
      → Fits m
      → ValidIds ids
      → Facing s batch_turns rest c
      → Holds batch_turns rest c (ok (map (retrieved m) ids)) (retr_many ids (marked pipelining c))
  retr_many-retrieved false live fits valid h = held live fits valid h
  retr_many-retrieved true live fits valid h =
      let slow = held live fits valid h in
      let agree =
        retr_many-Agree s ids c (map (retrieved m) ids) live h.auth valid h.quiet slow.result
          (retrieved-IsSettled (before s batch_turns c) live m fits ids) in
      record {
        result = agree.same_result ∙ slow.result;
        bytes = agree.same_bytes ∙ slow.bytes;
        to_come = ap (λ (t : Transport). heard t.net.reads) agree.same_link ∙ slow.to_come;
      }
