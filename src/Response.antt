-- ===== src/Response.antt =====
-- src/response.rs: the parsers of server responses. The proofs are in the modules below.
pub mod Status
pub mod Entries
pub mod Codes
use Prim.Native.String.{String}
use rust_adv_pop.Prelude.{
  ℕ, Bool, true, false, ◌&&◌, Option, none, some, List, [], ◌∷◌, ◌++◌, if◌then◌else◌, drop, map,
}
use rust_adv_pop.Text.{
  Text, codes, is_white, is_ascii_white, text_eq, cut_at, strip_prefix, trim_start, trim,
  split_whitespace, lines, chomp, parse_uint, max_u32, max_u64,
}
use rust_adv_pop.Error.{
  Pop3Error, mailbox_in_use, login_delay, sys_temp, sys_perm, server_error, auth_failed, parse,
  Result, PopResult, ok, err, ◌>>=◌, ok_or,
}
use rust_adv_pop.Types.{Stat, ListEntry, UidlEntry, Capability}

-- The response codes of RFC 2449 and RFC 3206.
resp_code_error : Text → Text → Text → Pop3Error
resp_code_error code rest text =
    if text_eq code (codes "IN-USE")
    then mailbox_in_use rest
    else if text_eq code (codes "LOGIN-DELAY")
    then login_delay rest
    else if text_eq code (codes "SYS/TEMP")
    then sys_temp rest
    else if text_eq code (codes "SYS/PERM")
    then sys_perm rest
    else if text_eq code (codes "AUTH")
    then auth_failed rest
    else server_error text

bracketed : Text → Option (Text × Text) → Pop3Error
bracketed text none = server_error text
bracketed text (some (code, rest)) = resp_code_error code (trim_start rest) text

unfoldable pub parse_resp_code : Text → Pop3Error
unfolding bracketed resp_code_error
parse_resp_code text = elim (strip_prefix (b'[' ∷ []) text) [
  | none ↦ server_error text
  | some inner ↦ bracketed text (cut_at b']' inner)
]

-- The line is the keyword alone, or the keyword and ASCII whitespace.
abbrev pub ends_word : Text → Bool
ends_word [] = true
ends_word (c ∷ s) = is_ascii_white c

unfoldable pub has_status : Text → Text → Bool
has_status word line = elim (strip_prefix word line) [ none ↦ false | some rest ↦ ends_word rest ]

unfoldable pub parse_status_line : Text → PopResult Text
parse_status_line raw =
    let line = chomp raw in
    if has_status (codes "+OK") line
    then ok (trim_start (drop 3 line))
    else if has_status (codes "-ERR") line
    then err (parse_resp_code (trim_start (drop 4 line)))
    else err (parse (codes "unexpected response: " ++ line))

-- A field that must parse as an unsigned number.
unfoldable pub number_field : ℕ → String → Text → PopResult ℕ
number_field max message field = ok_or (parse (codes message ++ field)) (parse_uint max field)

stat_fields : List Text → PopResult Stat
unfolding number_field
stat_fields [] = err (parse (codes "STAT: missing message count"))
stat_fields (count ∷ []) = err (parse (codes "STAT: missing mailbox size"))
stat_fields (count ∷ size ∷ rest) = do
  message_count ← number_field max_u32 "STAT: invalid message count: " count
  mailbox_size ← number_field max_u64 "STAT: invalid mailbox size: " size
  ok (record { message_count = message_count; mailbox_size = mailbox_size })

unfoldable pub parse_stat : Text → PopResult Stat
unfolding stat_fields
parse_stat status_text = stat_fields (split_whitespace status_text)

abbrev no_more : String → Text → List Text → PopResult (Unit {0})
no_more message line [] = ok tt
no_more message line (field ∷ rest) = err (parse (codes message ++ line))

list_fields : Text → List Text → PopResult ListEntry
unfolding number_field
list_fields line [] = err (parse (codes "LIST: missing message id"))
list_fields line (id ∷ []) = err (parse (codes "LIST: missing message size"))
list_fields line (id ∷ size ∷ rest) = do
  message_id ← number_field max_u32 "LIST: invalid message id: " id
  size ← number_field max_u64 "LIST: invalid message size: " size
  _ ← no_more "LIST: unexpected extra fields: " line rest
  ok (record { message_id = message_id; size = size })

unfoldable pub parse_list_entry : Text → PopResult ListEntry
unfolding list_fields
parse_list_entry raw = let line = trim raw in list_fields line (split_whitespace line)

uidl_fields : Text → List Text → PopResult UidlEntry
unfolding number_field
uidl_fields line [] = err (parse (codes "UIDL: missing message id"))
uidl_fields line (id ∷ []) = err (parse (codes "UIDL: missing unique id"))
uidl_fields line (id ∷ uid ∷ rest) = do
  message_id ← number_field max_u32 "UIDL: invalid message id: " id
  _ ← no_more "UIDL: unexpected extra fields: " line rest
  ok (record { message_id = message_id; unique_id = uid })

unfoldable pub parse_uidl_entry : Text → PopResult UidlEntry
unfolding uidl_fields
parse_uidl_entry raw = let line = trim raw in uidl_fields line (split_whitespace line)

-- `filter(|line| !line.is_empty()).map(entry).collect()`: the first error ends it.
unfoldable pub collect_lines : {A : Type 0} → (Text → PopResult A) → List Text → PopResult (List A)
collect_lines entry [] = ok []
collect_lines entry ([] ∷ rest) = collect_lines entry rest
collect_lines entry ((c ∷ line) ∷ rest) = do
  a ← entry (c ∷ line)
  others ← collect_lines entry rest
  ok (a ∷ others)

unfoldable pub parse_list_multi : Text → PopResult (List ListEntry)
parse_list_multi body = collect_lines parse_list_entry (lines body)

unfoldable pub parse_list_single : Text → PopResult ListEntry
parse_list_single = parse_list_entry

unfoldable pub parse_uidl_multi : Text → PopResult (List UidlEntry)
parse_uidl_multi body = collect_lines parse_uidl_entry (lines body)

unfoldable pub parse_uidl_single : Text → PopResult UidlEntry
parse_uidl_single = parse_uidl_entry

abbrev capability_of : List Text → Capability
capability_of [] = record { name = []; arguments = [] }
capability_of (name ∷ arguments) = record { name = name; arguments = arguments }

-- A line that is empty when trimmed is filtered out.
push_capability : Text → List Capability → List Capability
push_capability [] others = others
push_capability (c ∷ line) others = capability_of (split_whitespace (c ∷ line)) ∷ others

capabilities : List Text → List Capability
unfolding push_capability
capabilities [] = []
capabilities (line ∷ rest) = push_capability (trim line) (capabilities rest)

unfoldable pub parse_capa : Text → List Capability
unfolding capabilities
parse_capa body = capabilities (lines body)
