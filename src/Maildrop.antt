-- ===== src/Maildrop.antt =====
-- A POP3 server in the TRANSACTION state (RFC 1939), as the specification that the commands of
-- src/client.rs are held against: what it keeps, how it answers, and what it prints.
pub mod Turns
pub mod Dialogue
pub mod Contents
pub mod Holds
pub mod Steps
pub mod Replies
pub mod Refusals
pub mod Refines
pub mod Sync
pub mod Batch
use rust_adv_pop.Prelude.{
  ℕ, zero, suc, ◌+◌, ◌≤◌, ◌≢◌, Bool, true, false, ◌||◌, Option, none, some, List, [], ◌∷◌, ◌++◌,
  ◌==◌, if◌then◌else◌, take, length, map, All, Lacks,
}
use rust_adv_pop.Text.{Text, codes, lf, crlf, space, decimal, max_u32, max_u64, IsSolid}
use rust_adv_pop.Error.{Pop3Error, server_error, PopResult, Result, ok, err}
use rust_adv_pop.Types.{Stat, ListEntry, UidlEntry}
use rust_adv_pop.Transport.{ReadOutcome}
use rust_adv_pop.Transport.Multiline.{line_outcome, body_outcomes, body_text}
use rust_adv_pop.Wire.{stat_text, list_text, uidl_text}

-- A message: its lines, its size in octets as the server states it, and its unique id.
pub record Letter : Type 0 where
  pub content : List Text
  pub octets : ℕ
  pub uid : Text

-- Messages are numbered from 1. `deleted` has the numbers that are marked as deleted.
pub record Maildrop : Type 0 where
  pub letters : List Letter
  pub deleted : List ℕ

abbrev pub is_in : ℕ → List ℕ → Bool
is_in n [] = false
is_in n (k ∷ rest) = n == k || is_in n rest

-- The messages that are not marked, with their numbers, for messages that are numbered from `n` on.
unfoldable pub visible : List ℕ → ℕ → List Letter → List (ℕ × Letter)
visible deleted n [] = []
visible deleted n (l ∷ rest) =
    let others = visible deleted (suc n) rest in if is_in n deleted then others else (n, l) ∷ others

unfoldable pub find : ℕ → List (ℕ × Letter) → Option Letter
find id [] = none
find id ((n, l) ∷ rest) = if n == id then some l else find id rest

abbrev pub contents : Maildrop → List (ℕ × Letter)
contents m = visible m.deleted 1 m.letters

unfoldable pub total : List (ℕ × Letter) → ℕ
total [] = 0
total ((n, l) ∷ rest) = l.octets + total rest

abbrev pub scan_entry : ℕ × Letter → ListEntry
scan_entry (n, l) = record { message_id = n; size = l.octets }

abbrev pub uid_entry : ℕ × Letter → UidlEntry
uid_entry (n, l) = record { message_id = n; unique_id = l.uid }

-- The header with the blank line behind it, and the first lines of the body.
unfoldable pub top_lines : ℕ → List Text → List Text
top_lines n [] = []
top_lines n ([] ∷ rest) = [] ∷ take n rest
top_lines n ((c ∷ line) ∷ rest) = (c ∷ line) ∷ top_lines n rest

pub data Request : Type 0 where
  stat list_all uidl_all rset noop : Request
  list_one uidl_one retr dele : ℕ → Request
  top : ℕ → ℕ → Request

-- What a command comes to.
pub data Answer : Type 0 where
  counted : Stat → Answer
  scanned : List ListEntry → Answer
  named : List UidlEntry → Answer
  message : Text → Answer
  done : Answer

abbrev pub no_such : Text
no_such = codes "no such message"

abbrev pub on_letter : (Letter → Answer) → Option Letter → PopResult Answer
on_letter f none = err (server_error no_such)
on_letter f (some l) = ok (f l)

abbrev pub stat_of : List (ℕ × Letter) → Stat
stat_of l = record { message_count = length l; mailbox_size = total l }

-- What each command answers and leaves.
unfoldable pub answer : Request → Maildrop → PopResult Answer
answer stat m = ok (counted (stat_of (contents m)))
answer list_all m = ok (scanned (map scan_entry (contents m)))
answer uidl_all m = ok (named (map uid_entry (contents m)))
answer (list_one id) m = on_letter (λ l. scanned (scan_entry (id, l) ∷ [])) (find id (contents m))
answer (uidl_one id) m = on_letter (λ l. named (uid_entry (id, l) ∷ [])) (find id (contents m))
answer (retr id) m = on_letter (λ l. message (body_text l.content)) (find id (contents m))
answer (top id n) m =
    on_letter (λ l. message (body_text (top_lines n l.content))) (find id (contents m))
answer (dele id) m = on_letter (λ l. done) (find id (contents m))
answer rset m = ok done
answer noop m = ok done

unfoldable pub leave : Request → Maildrop → Maildrop
leave (dele id) m = elim (find id (contents m)) [
  | none ↦ m
  | some l ↦ record m { deleted = id ∷ m.deleted }
]
leave rset m = record m { deleted = [] }
leave q m = m

-- What the server prints.
abbrev pub ok_reply : Text → ReadOutcome
ok_reply text = line_outcome (codes "+OK " ++ text)

abbrev pub multi_reply : List Text → List ReadOutcome
multi_reply lines = line_outcome (codes "+OK") ∷ body_outcomes lines

abbrev pub refusal : ReadOutcome
refusal = line_outcome (codes "-ERR " ++ no_such)

abbrev pub done_reply : ReadOutcome
done_reply = line_outcome (codes "+OK")

abbrev pub reply_letter : (Letter → List ReadOutcome) → Option Letter → List ReadOutcome
reply_letter f none = refusal ∷ []
reply_letter f (some l) = f l

unfoldable pub reply : Request → Maildrop → List ReadOutcome
reply stat m = ok_reply (stat_text (stat_of (contents m))) ∷ []
reply list_all m = multi_reply (map list_text (map scan_entry (contents m)))
reply uidl_all m = multi_reply (map uidl_text (map uid_entry (contents m)))
reply (list_one id) m =
    reply_letter (λ l. ok_reply (list_text (scan_entry (id, l))) ∷ []) (find id (contents m))
reply (uidl_one id) m =
    reply_letter (λ l. ok_reply (uidl_text (uid_entry (id, l))) ∷ []) (find id (contents m))
reply (retr id) m = reply_letter (λ l. multi_reply l.content) (find id (contents m))
reply (top id n) m = reply_letter (λ l. multi_reply (top_lines n l.content)) (find id (contents m))
reply (dele id) m = reply_letter (λ l. done_reply ∷ []) (find id (contents m))
reply rset m = done_reply ∷ []
reply noop m = done_reply ∷ []

-- How RFC 1939 spells the commands.
unfoldable pub spelled : Request → Text
spelled stat = codes "STAT"
spelled list_all = codes "LIST"
spelled uidl_all = codes "UIDL"
spelled rset = codes "RSET"
spelled noop = codes "NOOP"
spelled (list_one id) = codes "LIST " ++ decimal id
spelled (uidl_one id) = codes "UIDL " ++ decimal id
spelled (retr id) = codes "RETR " ++ decimal id
spelled (dele id) = codes "DELE " ++ decimal id
spelled (top id n) = codes "TOP " ++ (decimal id ++ space ∷ decimal n)

-- A conversation: the texts that the client sends, and what its reads come to meanwhile.
pub data Turn : Type 0 where
  asks : Text → Turn
  says : ReadOutcome → Turn

unfoldable pub client_side : List Turn → Text
client_side [] = []
client_side (asks text ∷ rest) = text ++ client_side rest
client_side (says o ∷ rest) = client_side rest

unfoldable pub server_side : List Turn → List ReadOutcome
server_side [] = []
server_side (asks text ∷ rest) = server_side rest
server_side (says o ∷ rest) = o ∷ server_side rest

abbrev pub spoken : List ReadOutcome → List Turn
spoken [] = []
spoken (o ∷ rest) = says o ∷ spoken rest

abbrev pub request : Request → Turn
request q = asks (spelled q ++ crlf)

abbrev pub exchange_of : Request → Maildrop → List Turn
exchange_of q m = request q ∷ spoken (reply q m)

-- A session: what it answers, and the conversation that it is.
unfoldable pub answers : List Request → Maildrop → List (PopResult Answer)
answers [] m = []
answers (q ∷ rest) m = answer q m ∷ answers rest (leave q m)

unfoldable pub talk : List Request → Maildrop → List Turn
talk [] m = []
talk (q ∷ rest) m = exchange_of q m ++ talk rest (leave q m)

-- The numbers fit the integer types of the client, unique ids are words, and lines are lines.
pub record LetterFits (l : Letter) : Type 0 where
  pub octets_fit : l.octets ≤ max_u64
  pub uid_full : l.uid ≢ []
  pub uid_solid : IsSolid l.uid
  pub lines_clean : All (Lacks lf) l.content

unfoldable pub all_octets : List Letter → ℕ
all_octets [] = 0
all_octets (l ∷ rest) = l.octets + all_octets rest

pub record Fits (m : Maildrop) : Type 0 where
  pub count_fits : length m.letters ≤ max_u32
  pub total_fits : all_octets m.letters ≤ max_u64
  pub letters_fit : All LetterFits m.letters
