-- ===== src/Client/Call.antt =====
-- A session: any sequence of the public methods of `Pop3Client` that take `&mut self`, but for
-- `retr_parsed` and `top_parsed`, which call `retr` and `top` and then parse the message that those
-- return. `quit` takes the client itself, and no call follows it.
pub mod Guards
pub mod Lines
pub mod Steps
pub mod States
pub mod Closed
use rust_adv_pop.Prelude.{ℕ, Option, List, [], ◌∷◌}
use rust_adv_pop.Text.{Text}
use rust_adv_pop.Client
use rust_adv_pop.Client.{Pop3Client}
use rust_adv_pop.Client.Batch
use rust_adv_pop.Client.Sync

pub data Call : Type 0 where
  login apop : Text → Text → Call
  stls : Text → Call
  list uidl : Option ℕ → Call
  retr dele : ℕ → Call
  retr_many dele_many : List ℕ → Call
  top : ℕ → ℕ → Call
  unseen_uids fetch_unseen prune_seen : List Text → Call
  stat rset noop capa : Call

-- The client behind a call, whether it returned a value or an error.
unfoldable pub perform : (Text → Text) → Call → Pop3Client → Pop3Client
perform md5 (login u p) c = (Client.login u p c).1
perform md5 (apop u p) c = (Client.apop md5 u p c).1
perform md5 (stls h) c = (Client.stls h c).1
perform md5 (list id) c = (Client.list id c).1
perform md5 (uidl id) c = (Client.uidl id c).1
perform md5 (retr id) c = (Client.retr id c).1
perform md5 (dele id) c = (Client.dele id c).1
perform md5 (retr_many ids) c = (Batch.retr_many ids c).1
perform md5 (dele_many ids) c = (Batch.dele_many ids c).1
perform md5 (top id n) c = (Client.top id n c).1
perform md5 (unseen_uids seen) c = (Sync.unseen_uids seen c).1
perform md5 (fetch_unseen seen) c = (Sync.fetch_unseen seen c).1
perform md5 (prune_seen seen) c = (Sync.prune_seen seen c).1
perform md5 stat c = (Client.stat c).1
perform md5 rset c = (Client.rset c).1
perform md5 noop c = (Client.noop c).1
perform md5 capa c = (Client.capa c).1

unfoldable pub session : (Text → Text) → List Call → Pop3Client → Pop3Client
session md5 [] c = c
session md5 (call ∷ rest) c = session md5 rest (perform md5 call c)
