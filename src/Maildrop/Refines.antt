-- ===== src/Maildrop/Refines.antt =====
-- The single commands of src/client.rs, put as requests to a maildrop.
use rust_adv_pop.Prelude.{
  ℕ, ◌≤◌, ◌≡◌, ◌≢◌, refl, ap, subst, ◌∙◌, Option, none, some, List, [], ◌∷◌, ◌++◌, append_assoc,
  All, Lacks,
}
use rust_adv_pop.Text.{lf}
use rust_adv_pop.Error.{server_error, PopResult, ok, err}
use rust_adv_pop.Wire.{ListFits, UidlFits, list_text, uidl_text}
use rust_adv_pop.Exec.{Exec, pure, ◌>>=◌, ◌>>◌}
use rust_adv_pop.Transport.{InnerStream, upgrading, ReadOutcome}
use rust_adv_pop.Client
use rust_adv_pop.Client.{Pop3Client}
use rust_adv_pop.Maildrop.{
  Letter, Maildrop, find, contents, scan_entry, uid_entry, Request, stat, list_all, uidl_all, rset,
  noop, list_one, uidl_one, retr, dele, top, Answer, counted, scanned, named, message, done,
  no_such, answer, leave, reply, answers, talk, Turn, says, spoken, request, exchange_of, Fits,
  top_lines, on_letter, reply_letter, refusal,
}
use rust_adv_pop.Maildrop.Dialogue.{Session, Ready, Yields, Yields-bind, Yields-fail, Yields-pure}
use rust_adv_pop.Maildrop.Contents.{
  EntryFits, contents-EntryFits, contents-StatFits, scan-ListFits, uid-UidlFits, All-map,
  find-EntryFits, top_lines-Lacks,
}
use rust_adv_pop.Maildrop.Holds.{Facing, Holds, before, Facing-Ready, Ready-Holds}
use rust_adv_pop.Maildrop.Replies
use rust_adv_pop.Maildrop.Refusals

-- A request of the specification as the call of the client that makes it.
unfoldable pub ask : Request → Exec Pop3Client Answer
ask stat = do value ← Client.stat; pure (counted value)
ask list_all = do entries ← Client.list none; pure (scanned entries)
ask uidl_all = do entries ← Client.uidl none; pure (named entries)
ask (list_one id) = do entries ← Client.list (some id); pure (scanned entries)
ask (uidl_one id) = do entries ← Client.uidl (some id); pure (named entries)
ask (retr id) = do mail ← Client.retr id; pure (message mail.body)
ask (top id n) = do mail ← Client.top id n; pure (message mail.body)
ask (dele id) = do Client.dele id; pure done
ask rset = do Client.rset; pure done
ask noop = do Client.noop; pure done

-- The calls one after another on one client: what each comes to, and the client behind them.
unfoldable pub ask_all : List Request → Pop3Client → List (PopResult Answer) × Pop3Client
ask_all [] c = ([], c)
ask_all (q ∷ rest) c = let later = ask_all rest (ask q c).1 in ((ask q c).0 ∷ later.0, later.1)

-- Message numbers start at 1.
unfoldable pub IsNumbered : Request → Type 0
IsNumbered (list_one id) = 1 ≤ id
IsNumbered (uidl_one id) = 1 ≤ id
IsNumbered (retr id) = 1 ≤ id
IsNumbered (top id n) = 1 ≤ id
IsNumbered (dele id) = 1 ≤ id
IsNumbered q = Unit

module _ {A : Type 0} (s : Session) (m : Exec Pop3Client A) (c : Pop3Client) (f : A → Answer)
    (rest : List Turn) where
  told : (a : A) → Yields s m c (ok a) rest → Yields s (m >>= λ x. pure (f x)) c (ok (f a)) rest
  told a y = Yields-bind s _ _ rest m c a rest y (λ d h. Yields-pure s _ d rest h)

module _ (s : Session) (live : s.stream ≢ upgrading) (rest : List Turn) (c : Pop3Client)
    (a : Exec Pop3Client Answer) (q : Request) (f : Letter → Answer)
    (print : Letter → List ReadOutcome) where
  -- A request about a message, which the maildrop shows or does not.
  letter-Yields :
      (id : ℕ) (o : Option Letter)
      → ((l : Letter) → o ≡ some l → EntryFits (id, l))
      → (Ready s (request q ∷ says refusal ∷ rest) c
          → Yields s a c (err (server_error no_such)) rest)
      → ((l : Letter)
          → EntryFits (id, l)
          → Ready s (request q ∷ (spoken (print l) ++ rest)) c
          → Yields s a c (ok (f l)) rest)
      → Ready s (request q ∷ (spoken (reply_letter print o) ++ rest)) c
      → Yields s a c (on_letter f o) rest
  letter-Yields id none found absent present h = absent h
  letter-Yields id (some l) found absent present h = present l (found l refl) h

module _ (s : Session) (live : s.stream ≢ upgrading) (rest : List Turn) (c : Pop3Client)
    (m : Maildrop) (fits : Fits m) where
  found : (id : ℕ) (l : Letter) → find id (contents m) ≡ some l → EntryFits (id, l)
  found id l e = find-EntryFits id l (contents m) (contents-EntryFits m fits) e

  missing :
      {A : Type 0} (q : Request) (a : Exec Pop3Client A) (f : A → Answer)
      → (Ready s (request q ∷ says refusal ∷ rest) c
          → Yields s a c (err (server_error no_such)) rest)
      → Ready s (request q ∷ says refusal ∷ rest) c
      → Yields s (a >>= λ x. pure (f x)) c (err (server_error no_such)) rest
  missing q a f y h = Yields-fail s _ rest a c _ (y h)

  ask-Yields :
      (q : Request)
      → IsNumbered q
      → Ready s (exchange_of q m ++ rest) c
      → Yields s (ask q) c (answer q m) rest
  unfolding ask IsNumbered reply answer
  ask-Yields stat valid h =
      told s _ c counted rest _ (Replies.stat-Yields s live rest c _ (contents-StatFits m fits) h)
  ask-Yields list_all valid h =
      let entries =
        All-map scan_entry EntryFits ListFits scan-ListFits (contents m)
          (contents-EntryFits m fits) in
      told s _ c scanned rest _ (
        Replies.list_all-Yields s live rest c _ entries
          (All-map list_text ListFits (Lacks lf) Replies.list_text-Lacks _ entries) h)
  ask-Yields uidl_all valid h =
      let entries =
        All-map uid_entry EntryFits UidlFits uid-UidlFits (contents m)
          (contents-EntryFits m fits) in
      told s _ c named rest _ (
        Replies.uidl_all-Yields s live rest c _ entries
          (All-map uidl_text UidlFits (Lacks lf) Replies.uidl_text-Lacks _ entries) h)
  ask-Yields (list_one id) valid h =
      letter-Yields s live rest c _ _ _ _ id (find id (contents m)) (found id)
        (missing _ _ scanned (Refusals.list-refused s live rest c id valid))
        (λ l p g. told s _ c scanned rest _ (
          Replies.list_one-Yields s live rest c (scan_entry (id, l)) valid (scan-ListFits (id, l) p)
            g))
        h
  ask-Yields (uidl_one id) valid h =
      letter-Yields s live rest c _ _ _ _ id (find id (contents m)) (found id)
        (missing _ _ named (Refusals.uidl-refused s live rest c id valid))
        (λ l p g. told s _ c named rest _ (
          Replies.uidl_one-Yields s live rest c (uid_entry (id, l)) valid (uid-UidlFits (id, l) p)
            g))
        h
  ask-Yields (retr id) valid h =
      letter-Yields s live rest c _ _ _ _ id (find id (contents m)) (found id)
        (missing _ _ (λ mail. message mail.body) (Refusals.retr-refused s live rest c id valid))
        (λ l p g.
          told s _ c (λ mail. message mail.body) rest _
            (Replies.retr-Yields s live rest c id l.content valid p.letter_fits.lines_clean g))
        h
  ask-Yields (top id n) valid h =
      letter-Yields s live rest c _ _ _ _ id (find id (contents m)) (found id)
        (missing _ _ (λ mail. message mail.body) (Refusals.top-refused s live rest c id valid n))
        (λ l p g.
          told s _ c (λ mail. message mail.body) rest _
            (Replies.top-Yields s live rest c id n (top_lines n l.content) valid
              (top_lines-Lacks n l.content p.letter_fits.lines_clean) g))
        h
  ask-Yields (dele id) valid h =
      letter-Yields s live rest c _ _ _ _ id (find id (contents m)) (found id)
        (missing _ _ (λ _. done) (Refusals.dele-refused s live rest c id valid))
        (λ l p g. told s _ c (λ _. done) rest tt (Replies.dele-Yields s live rest c id valid g)) h
  ask-Yields rset valid h = told s _ c (λ _. done) rest tt (Replies.rset-Yields s live rest c h)
  ask-Yields noop valid h = told s _ c (λ _. done) rest tt (Replies.noop-Yields s live rest c h)

deleting-Fits : (deleted : List ℕ) (m : Maildrop) → Fits m → Fits (record m { deleted = deleted })
deleting-Fits deleted m h = record {
  count_fits = h.count_fits;
  total_fits = h.total_fits;
  letters_fit = h.letters_fit;
}

leave-Fits : (q : Request) (m : Maildrop) → Fits m → Fits (leave q m)
unfolding leave
leave-Fits stat m h = h
leave-Fits list_all m h = h
leave-Fits uidl_all m h = h
leave-Fits rset m h = deleting-Fits [] m h
leave-Fits noop m h = h
leave-Fits (list_one id) m h = h
leave-Fits (uidl_one id) m h = h
leave-Fits (retr id) m h = h
leave-Fits (dele id) m h =
    elim (find id (contents m))
      as (λ o. Fits (elim o [ none ↦ m | some l ↦ record m { deleted = id ∷ m.deleted } ])) [
        | none ↦ h
        | some l ↦ deleting-Fits (id ∷ m.deleted) m h
      ]
leave-Fits (top id n) m h = h

module _ (s : Session) (live : s.stream ≢ upgrading) (rest : List Turn) where
  ask_all-Ready :
      (qs : List Request) (m : Maildrop) (c : Pop3Client)
      → Fits m
      → All IsNumbered qs
      → Ready s (talk qs m ++ rest) c
      → ((ask_all qs c).0 ≡ answers qs m) × Ready s rest (ask_all qs c).1
  unfolding ask_all answers talk
  ask_all-Ready [] m c fits valid h = (refl, h)
  ask_all-Ready (q ∷ qs) m c fits (first, valid) h =
      let later = talk qs (leave q m) in
      let y =
        ask-Yields s live (later ++ rest) c m fits q first
          (subst (λ turns. Ready s turns c) (append_assoc (exchange_of q m) later rest) h) in
      let (e, k) = ask_all-Ready qs (leave q m) (ask q c).1 (leave-Fits q m fits) valid y.ready in
      (ap (λ r. r ∷ (ask_all qs (ask q c).1).0) y.result ∙ ap (λ rs. answer q m ∷ rs) e, k)

-- An authenticated client on a live connection on which no write and no flush fails, and whose reads
-- come to what a maildrop that fits the client answers to the requests of `qs` in order, with any
-- bytes left in the buffer behind each read, sends for every session of single commands, with message
-- numbers from 1 on, exactly the commands that RFC 1939 spells for these requests, gets exactly the
-- answers of the maildrop, and leaves the reads behind them.
pub ask_all-answers :
    (s : InnerStream) (qs : List Request) (m : Maildrop) (rest : List ReadOutcome) (c : Pop3Client)
    → s ≢ upgrading
    → Fits m
    → All IsNumbered qs
    → Facing s (talk qs m) rest c
    → Holds (talk qs m) rest c (answers qs m) (ask_all qs c)
ask_all-answers s qs m rest c live fits valid h =
    let turns = talk qs m in
    let (e, k) =
      ask_all-Ready (before s turns c) live (spoken rest) qs m c fits valid
        (Facing-Ready s turns rest c h) in
    Ready-Holds s turns rest c _ (ask_all qs c) e k
