-- ===== src/Tests/Dialogues.antt =====
-- Examples of sessions against a maildrop.
use rust_adv_pop.Prelude.{true, ℕ, ◌+◌, ap, length, map, ◌≡◌, refl, List, [], ◌∷◌, ◌++◌, All, arith}
use rust_adv_pop.Text.{codes, decimal, is_white}
use rust_adv_pop.Types.{authenticated}
use rust_adv_pop.Transport.{plain, ReadEvent, ReadOutcome, received}
use rust_adv_pop.Error.{ok}
use rust_adv_pop.Client.{Pop3Client}
use rust_adv_pop.Client.Batch.{retr_many}
use rust_adv_pop.Client.Batch.Agreement.{marked}
use rust_adv_pop.Client.Sync.{fetch_unseen}
use rust_adv_pop.Maildrop.Sync.{new_letters, fetched, sync_requests, fetch_unseen-new}
use rust_adv_pop.Maildrop.Batch.{retrieved, retr_requests, retr_many-retrieved}
use rust_adv_pop.Maildrop.{
  contents, find, visible, Letter, Maildrop, Request, stat, list_all, uidl_all, rset, noop,
  list_one, uidl_one, retr, dele, top, answers, reply, spelled, Fits, all_octets, Turn, client_side,
  server_side, talk,
}
use rust_adv_pop.Maildrop.Holds.{Facing, Holds}
use rust_adv_pop.Transport.Multiline.{heard}
use rust_adv_pop.Maildrop.Refines.{ask_all, IsNumbered, ask_all-answers}
use rust_adv_pop.Tests.{client_on}

abbrev short_letter : Letter
short_letter = record {
  content = codes "A: b" ∷ [] ∷ codes ".c" ∷ codes "d" ∷ [];
  octets = 30;
  uid = codes "a1";
}

abbrev empty_letter : Letter
empty_letter = record { content = []; octets = 0; uid = codes "b2" }

abbrev two_letters : Maildrop
two_letters = record { letters = short_letter ∷ empty_letter ∷ []; deleted = [] }

-- Every request, before and behind a deletion and a reset.
abbrev visit : List Request
visit =
    stat
    ∷ list_all
    ∷ uidl_one 2
    ∷ retr 1
    ∷ dele 1
    ∷ retr 1
    ∷ stat
    ∷ uidl_all
    ∷ top 2 3
    ∷ rset
    ∷ list_one 1
    ∷ noop
    ∷ dele 7
    ∷ []

-- Everything arrives at once: each read leaves the bytes of those behind it in the buffer.
abbrev bytes_of : List ReadOutcome → ℕ
bytes_of [] = 0
bytes_of (received line ∷ rest) = length line + bytes_of rest
bytes_of (o ∷ rest) = bytes_of rest

abbrev at_once : List ReadOutcome → List ReadEvent
at_once [] = []
at_once (o ∷ rest) = record { outcome = o; left = bytes_of rest } ∷ at_once rest

-- A client that faces a server's side of a conversation.
abbrev facing : List Turn → Pop3Client
facing turns = client_on authenticated (at_once (server_side turns))

at_once-heard : (l : List ReadOutcome) → heard (at_once l) ≡ l ++ []
at_once-heard [] = refl
at_once-heard (o ∷ l) = ap (λ r. o ∷ r) (at_once-heard l)

facing-Facing : (turns : List Turn) → Facing plain turns [] (facing turns)
facing-Facing turns = record {
  auth = refl;
  quiet = record { on = refl; no_write_fault = refl; no_flush_fault = refl };
  script = at_once-heard (server_side turns);
}

two_letters-Fits : Fits two_letters
unfolding all_octets is_white
two_letters-Fits = record {
  count_fits = omega arith;
  total_fits = omega arith;
  letters_fit = (
    record {
      octets_fit = omega arith;
      uid_full = λ e. cc;
      uid_solid = (refl, (refl, tt));
      lines_clean = (
        (omega arith, (omega arith, (omega arith, (omega arith, tt)))),
        (tt, ((omega arith, (omega arith, tt)), ((omega arith, tt), tt))),
      );
    },
    (
      record {
        octets_fit = omega arith;
        uid_full = λ e. cc;
        uid_solid = (refl, (refl, tt));
        lines_clean = tt;
      },
      tt,
    ),
  );
}

visit-IsNumbered : All IsNumbered visit
unfolding IsNumbered
visit-IsNumbered = (
  tt,
  (
    tt,
    (
      omega arith,
      (
        omega arith,
        (
          omega arith,
          (omega arith, (tt, (tt, (omega arith, (tt, (omega arith, (tt, (omega arith, tt)))))))),
        ),
      ),
    ),
  ),
)

abbrev visit_turns : List Turn
visit_turns = talk visit two_letters

ask_all-answers_example :
    Holds visit_turns []
      (facing visit_turns)
      (answers visit two_letters)
      (ask_all visit (facing visit_turns))
ask_all-answers_example =
    ask_all-answers plain visit two_letters [] (facing visit_turns) (λ e. cc) two_letters-Fits
      visit-IsNumbered (facing-Facing visit_turns)

-- The bytes of a shorter visit.
visit_bytes : client_side (talk (retr 1 ∷ rset ∷ []) two_letters) ≡ codes "RETR 1\r\nRSET\r\n"
unfolding client_side talk reply spelled decimal find visible
visit_bytes = refl

-- One of the two letters is known.
abbrev sync_turns : List Turn
sync_turns = talk (sync_requests (codes "b2" ∷ []) two_letters) two_letters

fetch_unseen-new_example :
    Holds sync_turns []
      (facing sync_turns)
      (ok (map fetched (new_letters (codes "b2" ∷ []) (contents two_letters))))
      (fetch_unseen (codes "b2" ∷ []) (facing sync_turns))
fetch_unseen-new_example =
    fetch_unseen-new plain two_letters [] (facing sync_turns) (codes "b2" ∷ []) (λ e. cc)
      two_letters-Fits (facing-Facing sync_turns)

abbrev three_ids : List ℕ
three_ids = 1 ∷ 3 ∷ 2 ∷ []

abbrev batch_turns : List Turn
batch_turns = talk (retr_requests three_ids) two_letters

retr_many-retrieved_example :
    Holds batch_turns []
      (facing batch_turns)
      (ok (map (retrieved two_letters) three_ids))
      (retr_many three_ids (marked true (facing batch_turns)))
retr_many-retrieved_example =
    retr_many-retrieved plain two_letters three_ids [] (facing batch_turns) true (λ e. cc)
      two_letters-Fits (omega arith, (omega arith, (omega arith, tt))) (facing-Facing batch_turns)
