-- ===== src/Client/Sync/Sets.antt =====
-- The sets of the incremental sync of src/client.rs.
use rust_adv_pop.Prelude.{◌≡◌, refl, ap, sym, ◌∙◌, not, ◌&&◌, none, List, [], ◌∷◌, arith}
use rust_adv_pop.Text.{Text, text_eq_iff}
use rust_adv_pop.Error.{PopResult, ok, err}
use rust_adv_pop.Types.{UidlEntry}
use rust_adv_pop.Exec.{Exec, continue, pure}
use rust_adv_pop.Client.{Pop3Client, uidl}
use rust_adv_pop.Client.Sync.{holds, unseen, server_uids, retained, pruned, prune_seen, unseen_uids}

holds-retained :
    (known seen : List Text) (uid : Text)
    → holds (retained known seen) uid ≡ (holds seen uid && holds known uid)
unfolding holds retained
holds-retained known [] uid = refl
holds-retained known (x ∷ rest) uid =
    ground (arith, holds-retained known rest uid, text_eq_iff x uid)

holds-pruned :
    (known seen : List Text) (uid : Text)
    → holds (pruned known seen) uid ≡ (holds seen uid && not (holds known uid))
unfolding holds pruned
holds-pruned known [] uid = refl
holds-pruned known (x ∷ rest) uid = ground (arith, holds-pruned known rest uid, text_eq_iff x uid)

-- The known ids split by the listing: those that it has are kept, and the others are gone.
pub record Split (seen gone kept : List Text) (entries : List UidlEntry) : Type 0 where
  pub kept_iff : (uid : Text) → holds kept uid ≡ (holds seen uid && holds (server_uids entries) uid)
  pub gone_iff :
      (uid : Text) → holds gone uid ≡ (holds seen uid && not (holds (server_uids entries) uid))

abbrev split_sets : List Text → List UidlEntry → Exec Pop3Client (List Text × List Text)
split_sets seen entries =
    pure (pruned (server_uids entries) seen, retained (server_uids entries) seen)

Split-listing :
    (seen gone kept : List Text) (r : PopResult (List UidlEntry) × Pop3Client)
    → (continue r (split_sets seen)).0 ≡ ok (gone, kept)
    → (entries : List UidlEntry) × ((r.0 ≡ ok entries) × Split seen gone kept entries)
Split-listing seen gone kept (err e, c) h = cc
Split-listing seen gone kept (ok entries, c) h =
    let known = server_uids entries in
    let gone_eq : pruned known seen ≡ gone = cc in
    let kept_eq : retained known seen ≡ kept = cc in
    (
      entries,
      (
        refl,
        record {
          kept_iff = λ uid.
              ap (λ (l : List Text). holds l uid) (sym kept_eq) ∙ holds-retained known seen uid;
          gone_iff = λ uid.
              ap (λ (l : List Text). holds l uid) (sym gone_eq) ∙ holds-pruned known seen uid;
        },
      ),
    )

-- Where `prune_seen` returns, the server has listed its unique ids, the caller's set keeps of its ids
-- exactly those that the listing has, and the result holds exactly those that it has not.
pub prune_seen-Split :
    (seen gone kept : List Text) (c : Pop3Client)
    → (prune_seen seen c).0 ≡ ok (gone, kept)
    → (entries : List UidlEntry) × (((uidl none c).0 ≡ ok entries) × Split seen gone kept entries)
unfolding prune_seen
prune_seen-Split seen gone kept c h = Split-listing seen gone kept (uidl none c) h

holds-unseen :
    (seen : List Text) (all_entries : List UidlEntry) (uid : Text)
    → holds (server_uids (unseen seen all_entries)) uid
      ≡ (holds (server_uids all_entries) uid && not (holds seen uid))
unfolding holds unseen server_uids
holds-unseen seen [] uid = refl
holds-unseen seen (e ∷ rest) uid =
    ground (arith, holds-unseen seen rest uid, text_eq_iff e.unique_id uid)

listed_by :
    (seen : List Text) (new_entries : List UidlEntry) (r : PopResult (List UidlEntry) × Pop3Client)
    → (continue r (λ all_entries. pure (unseen seen all_entries))).0 ≡ ok new_entries
    → (entries : List UidlEntry) × ((r.0 ≡ ok entries)
        × ((uid : Text)
            → holds (server_uids new_entries) uid
              ≡ (holds (server_uids entries) uid && not (holds seen uid))))
listed_by seen new_entries (err e, c) h = cc
listed_by seen new_entries (ok entries, c) h =
    let same : unseen seen entries ≡ new_entries = cc in
    (
      entries,
      (
        refl,
        λ uid.
            ap (λ (l : List UidlEntry). holds (server_uids l) uid) (sym same)
            ∙ holds-unseen seen entries uid,
      ),
    )

-- Where `unseen_uids` returns, the unique ids of its entries are exactly those of the server's
-- listing that the caller does not know.
pub unseen_uids-new :
    (seen : List Text) (new_entries : List UidlEntry) (c : Pop3Client)
    → (unseen_uids seen c).0 ≡ ok new_entries
    → (entries : List UidlEntry) × (((uidl none c).0 ≡ ok entries)
        × ((uid : Text)
            → holds (server_uids new_entries) uid
              ≡ (holds (server_uids entries) uid && not (holds seen uid))))
unfolding unseen_uids
unseen_uids-new seen new_entries c h = listed_by seen new_entries (uidl none c) h
