-- ===== src/Maildrop/Sync.antt =====
-- The incremental sync of src/client.rs against the answers of a maildrop.
use rust_adv_pop.Prelude.{
  ℕ, suc, Option, none, some, ◌≤◌, ◌≡◌, ◌≢◌, refl, ap, subst, Bool-cases, inl, inr, List, [], ◌∷◌,
  ◌++◌, append_assoc, map, All, Lacks, if◌then◌else◌, arith,
}
use rust_adv_pop.Text.{Text, lf}
use rust_adv_pop.Error.{ok}
use rust_adv_pop.Types.{UidlEntry, Message}
use rust_adv_pop.Wire.{UidlFits, uidl_text}
use rust_adv_pop.Transport.{InnerStream, upgrading, ReadOutcome}
use rust_adv_pop.Transport.Multiline.{body_text}
use rust_adv_pop.Client
use rust_adv_pop.Client.{Pop3Client, message_of}
use rust_adv_pop.Client.Sync.{holds, unseen, unseen_uids, fetch_each, fetch_unseen}
use rust_adv_pop.Maildrop.{
  Letter, Maildrop, is_in, visible, find, contents, uid_entry, multi_reply, Request, uidl_all, retr,
  reply, reply_letter, leave, talk, exchange_of, Turn, request, spoken, Fits,
}
use rust_adv_pop.Maildrop.Dialogue.{Session, Ready, Yields, Yields-bind, Yields-pure}
use rust_adv_pop.Maildrop.Contents.{EntryFits, contents-EntryFits, uid-UidlFits, All-map}
use rust_adv_pop.Maildrop.Holds.{Facing, Holds, before, Facing-Ready, Ready-Holds}
use rust_adv_pop.Maildrop.Replies

-- The letters whose unique id is not among the known ones.
unfoldable pub new_letters : List Text → List (ℕ × Letter) → List (ℕ × Letter)
new_letters seen [] = []
new_letters seen ((n, l) ∷ rest) =
    let others = new_letters seen rest in if holds seen l.uid then others else (n, l) ∷ others

abbrev pub fetched : ℕ × Letter → UidlEntry × Message
fetched (n, l) = (uid_entry (n, l), message_of (body_text l.content))

-- UIDL, and then a RETR for each letter whose unique id is not among the known ones.
abbrev pub sync_requests : List Text → Maildrop → List Request
sync_requests seen m = uidl_all ∷ map (λ p. retr p.0) (new_letters seen (contents m))

unseen-new :
    (seen : List Text) (entries : List (ℕ × Letter))
    → unseen seen (map uid_entry entries) ≡ map uid_entry (new_letters seen entries)
unfolding unseen new_letters
unseen-new seen [] = refl
unseen-new seen ((n, l) ∷ rest) = elim (Bool-cases (holds seen l.uid)) [
  | inl known ↦ rw known (unseen-new seen rest)
  | inr fresh ↦ rw fresh (ap (λ es. uid_entry (n, l) ∷ es) (unseen-new seen rest))
]

-- A letter that the maildrop shows has a number from 1 on, fits, and is found by its number.
abbrev IsShown : Maildrop → ℕ × Letter → Type 0
IsShown m p = (1 ≤ p.0) × (EntryFits p × (find p.0 (contents m) ≡ some p.1))

new_letters-All :
    (P : ℕ × Letter → Type 0) (seen : List Text) (entries : List (ℕ × Letter))
    → All P entries
    → All P (new_letters seen entries)
unfolding new_letters
new_letters-All P seen [] h = tt
new_letters-All P seen ((n, l) ∷ rest) (p, h) = elim (Bool-cases (holds seen l.uid)) [
  | inl known ↦ rw known (new_letters-All P seen rest h)
  | inr fresh ↦ rw fresh (p, new_letters-All P seen rest h)
]

All-weaken :
    {A : Type 0} (P Q : A → Type 0) → ((a : A) → P a → Q a) → (l : List A) → All P l → All Q l
All-weaken P Q f [] h = tt
All-weaken P Q f (a ∷ l) (p, h) = (f a p, All-weaken P Q f l h)

All-both : {A : Type 0} (P Q : A → Type 0) (l : List A) → All P l → All Q l → All (λ a. P a × Q a) l
All-both P Q [] p q = tt
All-both P Q (a ∷ l) (pa, p) (qa, q) = ((pa, qa), All-both P Q l p q)

-- What is shown from `n` on: each number is at least `n`, and finds its letter.
abbrev IsFound : ℕ → List (ℕ × Letter) → ℕ × Letter → Type 0
IsFound n entries p = (n ≤ p.0) × (find p.0 entries ≡ some p.1)

IsFound-behind :
    (n : ℕ) (l : Letter) (entries : List (ℕ × Letter)) (p : ℕ × Letter)
    → IsFound (suc n) entries p
    → IsFound n ((n, l) ∷ entries) p
unfolding find
IsFound-behind n l entries p (h, e) = (omega arith, ground arith)

visible-IsFound :
    (deleted : List ℕ) (n : ℕ) (letters : List Letter)
    → All (IsFound n (visible deleted n letters)) (visible deleted n letters)
unfolding visible find
visible-IsFound deleted n [] = tt
visible-IsFound deleted n (l ∷ rest) =
    let others = visible deleted (suc n) rest in
    let h = visible-IsFound deleted (suc n) rest in
    elim (Bool-cases (is_in n deleted)) [
      | inl gone ↦ rw gone (
          All-weaken (IsFound (suc n) others) (IsFound n others) (λ p q. (omega arith, q.1)) others
            h)
      | inr here ↦ rw here (
        (omega arith, ground arith),
        All-weaken (IsFound (suc n) others) (IsFound n ((n, l) ∷ others))
            (IsFound-behind n l others) others h,
      )
    ]

contents-IsShown : (m : Maildrop) → Fits m → All (IsShown m) (contents m)
contents-IsShown m fits =
    All-weaken (λ p. EntryFits p × IsFound 1 (contents m) p) (IsShown m)
      (λ p (fit, (numbered, found)). (numbered, (fit, found))) (contents m)
      (All-both EntryFits (IsFound 1 (contents m)) (contents m) (contents-EntryFits m fits)
        (visible-IsFound m.deleted 1 m.letters))

module _ (s : Session) (live : s.stream ≢ upgrading) (m : Maildrop) (rest : List Turn) where
  shown-Yields :
      (n : ℕ) (l : Letter) (later : List Turn) (c : Pop3Client)
      → IsShown m (n, l)
      → Ready s (exchange_of (retr n) m ++ later) c
      → Yields s (Client.retr n) c (ok (message_of (body_text l.content))) later
  unfolding reply
  shown-Yields n l later c (valid, (fits, found)) h =
      Replies.retr-Yields s live later c n l.content valid fits.letter_fits.lines_clean (
        subst
          (λ (o : Option Letter).
            Ready s
              (request (retr n) ∷ (spoken (reply_letter (λ k. multi_reply k.content) o) ++ later))
              c)
          found h)

  fetch_each-Yields :
      (letters : List (ℕ × Letter)) (c : Pop3Client)
      → All (IsShown m) letters
      → Ready s (talk (map (λ p. retr p.0) letters) m ++ rest) c
      → Yields s (fetch_each (map uid_entry letters)) c (ok (map fetched letters)) rest
  unfolding fetch_each talk leave
  fetch_each-Yields [] c h ready = Yields-pure s _ c rest ready
  fetch_each-Yields ((n, l) ∷ letters) c (shown, h) ready =
      let turns = talk (map (λ p. retr p.0) letters) m in
      Yields-bind s _ _ rest (Client.retr n) c (message_of (body_text l.content)) (turns ++ rest)
        (shown-Yields n l (turns ++ rest) c shown
          (subst (λ t. Ready s t c) (append_assoc (exchange_of (retr n) m) turns rest) ready))
        (λ d hd.
          Yields-bind s _ _ rest (fetch_each (map uid_entry letters)) d (map fetched letters) rest
            (fetch_each-Yields letters d h hd) (λ e he. Yields-pure s _ e rest he))

  fetch_unseen-Yields :
      (c : Pop3Client) (seen : List Text)
      → Fits m
      → Ready s (talk (sync_requests seen m) m ++ rest) c
      → Yields s (fetch_unseen seen) c (ok (map fetched (new_letters seen (contents m)))) rest
  unfolding fetch_unseen unseen_uids reply talk leave
  fetch_unseen-Yields c seen fits ready =
      let news = new_letters seen (contents m) in
      let turns = talk (map (λ p. retr p.0) news) m in
      let later = turns ++ rest in
      let entries = map uid_entry (contents m) in
      let clean =
        All-map uid_entry EntryFits UidlFits uid-UidlFits (contents m)
          (contents-EntryFits m fits) in
      Yields-bind s _ _ rest (unseen_uids seen) c (map uid_entry news) later
        (Yields-bind s _ _ later (Client.uidl none) c entries later
          (Replies.uidl_all-Yields s live later c entries clean
            (All-map uidl_text UidlFits (Lacks lf) Replies.uidl_text-Lacks entries clean)
            (subst (λ t. Ready s t c) (append_assoc (exchange_of uidl_all m) turns rest) ready))
          (λ d hd. record { result = ap (λ es. ok es) (unseen-new seen (contents m)); ready = hd }))
        (λ d hd.
          fetch_each-Yields news d
            (new_letters-All (IsShown m) seen (contents m) (contents-IsShown m fits)) hd)

-- An authenticated client on a live connection on which no write and no flush fails, and whose reads
-- come to what a maildrop that fits the client answers to UIDL and then to a RETR for the number of
-- each letter whose unique id is not among the known ones, with any bytes left in the buffer behind
-- each read, sends exactly these commands, as RFC 1939 spells them, fetches exactly these letters, in
-- order, each with its entry, and leaves the reads behind them.
pub fetch_unseen-new :
    (s : InnerStream) (m : Maildrop) (rest : List ReadOutcome) (c : Pop3Client) (seen : List Text)
    → s ≢ upgrading
    → Fits m
    → Facing s (talk (sync_requests seen m) m) rest c
    → Holds
        (talk (sync_requests seen m) m)
        rest
        c
        (ok (map fetched (new_letters seen (contents m))))
        (fetch_unseen seen c)
fetch_unseen-new s m rest c seen live fits h =
    let turns = talk (sync_requests seen m) m in
    let y =
      fetch_unseen-Yields (before s turns c) live m (spoken rest) c seen fits
        (Facing-Ready s turns rest c h) in
    Ready-Holds s turns rest c _ (fetch_unseen seen c) y.result y.ready
