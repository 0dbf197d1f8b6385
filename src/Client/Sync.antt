-- ===== src/Client/Sync.antt =====
-- Incremental sync of src/client.rs: which messages are new, and which known ones are gone. A
-- `HashSet<String>` is the list of its elements, in the order in which it is iterated over.
pub mod Sets
use rust_adv_pop.Prelude.{Bool, false, ◌||◌, none, List, [], ◌∷◌, if◌then◌else◌}
use rust_adv_pop.Text.{Text, text_eq}
use rust_adv_pop.Types.{UidlEntry, Message}
use rust_adv_pop.Exec.{Exec, pure, ◌>>=◌}
use rust_adv_pop.Client.{Pop3Client, uidl, retr}

-- `HashSet::contains`.
unfoldable pub holds : List Text → Text → Bool
holds [] uid = false
holds (x ∷ seen) uid = text_eq x uid || holds seen uid

unfoldable pub unseen : List Text → List UidlEntry → List UidlEntry
unfolding holds
unseen seen [] = []
unseen seen (e ∷ rest) =
    let others = unseen seen rest in if holds seen e.unique_id then others else e ∷ others

unfoldable pub unseen_uids : List Text → Exec Pop3Client (List UidlEntry)
unseen_uids seen = do all_entries ← uidl none; pure (unseen seen all_entries)

-- The loop of `fetch_unseen`: the first error ends it, and the messages before it are lost.
unfoldable pub fetch_each : List UidlEntry → Exec Pop3Client (List (UidlEntry × Message))
fetch_each [] = pure []
fetch_each (e ∷ rest) = do
  msg ← retr e.message_id
  others ← fetch_each rest
  pure ((e, msg) ∷ others)

unfoldable pub fetch_unseen : List Text → Exec Pop3Client (List (UidlEntry × Message))
unfolding fetch_each
fetch_unseen seen = do new_entries ← unseen_uids seen; fetch_each new_entries

unfoldable pub server_uids : List UidlEntry → List Text
server_uids [] = []
server_uids (e ∷ rest) = e.unique_id ∷ server_uids rest

-- `retain`: what is kept, and what is pushed to `pruned`.
unfoldable pub retained : List Text → List Text → List Text
unfolding holds
retained known [] = []
retained known (uid ∷ rest) =
    let others = retained known rest in if holds known uid then uid ∷ others else others

unfoldable pub pruned : List Text → List Text → List Text
unfolding holds
pruned known [] = []
pruned known (uid ∷ rest) =
    let others = pruned known rest in if holds known uid then others else uid ∷ others

-- The caller's set comes back with the pruned ids; an error leaves it as it was.
unfoldable pub prune_seen : List Text → Exec Pop3Client (List Text × List Text)
unfolding server_uids
prune_seen seen = do
  entries ← uidl none
  pure (pruned (server_uids entries) seen, retained (server_uids entries) seen)
