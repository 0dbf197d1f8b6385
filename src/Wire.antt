-- ===== src/Wire.antt =====
-- What a server sends (RFC 1939 and RFC 2449), as an independent description for the theorems:
-- entries of LIST and UIDL, the status of STAT, and multi-line bodies with their dots stuffed.
use rust_adv_pop.Prelude.{◌≤◌, ◌≢◌, List, [], ◌∷◌, ◌++◌}
use rust_adv_pop.Text.{Text, space, lf, decimal, max_u32, max_u64, IsSolid}
use rust_adv_pop.Types.{Stat, ListEntry, UidlEntry}

abbrev pub stat_text : Stat → Text
stat_text s = decimal s.message_count ++ space ∷ decimal s.mailbox_size

abbrev pub list_text : ListEntry → Text
list_text e = decimal e.message_id ++ space ∷ decimal e.size

abbrev pub uidl_text : UidlEntry → Text
uidl_text e = decimal e.message_id ++ space ∷ e.unique_id

-- The fields fit the integer types of the client.
pub record StatFits (s : Stat) : Type 0 where
  pub count_fits : s.message_count ≤ max_u32
  pub size_fits : s.mailbox_size ≤ max_u64

pub record ListFits (e : ListEntry) : Type 0 where
  pub id_fits : e.message_id ≤ max_u32
  pub size_fits : e.size ≤ max_u64

-- A unique id is a word.
pub record UidlFits (e : UidlEntry) : Type 0 where
  pub id_fits : e.message_id ≤ max_u32
  pub uid_full : e.unique_id ≢ []
  pub uid_solid : IsSolid e.unique_id

-- One line for each item, in the form that `read_multiline` returns.
abbrev pub listing : {A : Type 0} → (A → Text) → List A → Text
listing print [] = []
listing print (a ∷ rest) = print a ++ lf ∷ listing print rest
