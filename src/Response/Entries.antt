-- ===== src/Response/Entries.antt =====
-- The parsers of STAT, LIST and UIDL of src/response.rs, against what a server prints.
use rust_adv_pop.Prelude.{
  ℕ, ◌≡◌, ◌≢◌, refl, ◌∙◌, ap, List, [], ◌∷◌, ◌++◌, arith, All, Lacks, All-append,
}
use rust_adv_pop.Text.{
  Text, cr, lf, space, decimal, parse_uint-decimal, decimal-digits, decimal-ne-nil, max_u32,
  max_u64, trim, split_whitespace, lines, IsSolid, digits-IsSolid, solid-Lacks-cr, solid-Lacks-lf,
  trim-solid_ends, split-append, split-solid, lines-append,
}
use rust_adv_pop.Error.{PopResult, ok}
use rust_adv_pop.Types.{Stat, ListEntry, UidlEntry}
use rust_adv_pop.Wire.{stat_text, list_text, uidl_text, StatFits, ListFits, UidlFits, listing}
use rust_adv_pop.Response.{
  parse_stat, parse_list_entry, parse_uidl_entry, collect_lines, parse_list_multi, parse_uidl_multi,
}

pub decimal-IsSolid : (n : ℕ) → IsSolid (decimal n)
decimal-IsSolid n = digits-IsSolid (decimal n) (decimal-digits n)

-- Two words with a space between them.
split-pair :
    (a b : Text)
    → a ≢ []
    → IsSolid a
    → b ≢ []
    → IsSolid b
    → split_whitespace (a ++ space ∷ b) ≡ a ∷ b ∷ []
split-pair a b full ha more hb = split-append a b full ha ∙ ap (λ l. a ∷ l) (split-solid b more hb)

trim-pair :
    (a b : Text) → a ≢ [] → IsSolid a → b ≢ [] → IsSolid b → trim (a ++ space ∷ b) ≡ a ++ space ∷ b
trim-pair a b = trim-solid_ends a (space ∷ []) b

pair-ne-nil : (a b : Text) → a ≢ [] → a ++ space ∷ b ≢ []
pair-ne-nil [] b h = absurd (h refl)
pair-ne-nil (c ∷ a) b h = λ e. ground arith

-- The status text of STAT is read back, if its numbers fit u32 and u64.
pub parse_stat-stat_text : (s : Stat) → StatFits s → parse_stat (stat_text s) ≡ ok s
unfolding parse_stat
parse_stat-stat_text s fits =
    rw
      (split-pair (decimal s.message_count) (decimal s.mailbox_size) (decimal-ne-nil _)
        (decimal-IsSolid _) (decimal-ne-nil _) (decimal-IsSolid _))
      (rw (
        parse_uint-decimal max_u32 s.message_count fits.count_fits,
        parse_uint-decimal max_u64 s.mailbox_size fits.size_fits,
      ))

pub list_line : (e : ListEntry) → ListFits e → parse_list_entry (list_text e) ≡ ok e
unfolding parse_list_entry
list_line e fits =
    rw
      (trim-pair (decimal e.message_id) (decimal e.size) (decimal-ne-nil _) (decimal-IsSolid _)
        (decimal-ne-nil _) (decimal-IsSolid _))
      (rw
        (split-pair (decimal e.message_id) (decimal e.size) (decimal-ne-nil _) (decimal-IsSolid _)
          (decimal-ne-nil _) (decimal-IsSolid _))
        (rw (
          parse_uint-decimal max_u32 e.message_id fits.id_fits,
          parse_uint-decimal max_u64 e.size fits.size_fits,
        )))

pub uidl_line : (e : UidlEntry) → UidlFits e → parse_uidl_entry (uidl_text e) ≡ ok e
unfolding parse_uidl_entry
uidl_line e fits =
    rw
      (trim-pair (decimal e.message_id) e.unique_id (decimal-ne-nil _) (decimal-IsSolid _)
        fits.uid_full fits.uid_solid)
      (rw
        (split-pair (decimal e.message_id) e.unique_id (decimal-ne-nil _) (decimal-IsSolid _)
          fits.uid_full fits.uid_solid)
        (rw (parse_uint-decimal max_u32 e.message_id fits.id_fits)))

-- What a printed line must be to be read back.
record IsReadable {A : Type 0} (entry : Text → PopResult A) (print : A → Text) (a : A)
    : Type 0 where
  full : print a ≢ []
  no_cr : Lacks cr (print a)
  no_lf : Lacks lf (print a)
  back : entry (print a) ≡ ok a

collect_lines-cons :
    {A : Type 0} (entry : Text → PopResult A) (line : Text) (rest : List Text) (a : A)
    (others : List A)
    → line ≢ []
    → entry line ≡ ok a
    → collect_lines entry rest ≡ ok others
    → collect_lines entry (line ∷ rest) ≡ ok (a ∷ others)
unfolding collect_lines
collect_lines-cons entry [] rest a others full one more = absurd (full refl)
collect_lines-cons entry (c ∷ line) rest a others full one more = rw (one, more)

collect_lines-listing :
    {A : Type 0} (entry : Text → PopResult A) (print : A → Text) (items : List A)
    → All (IsReadable entry print) items
    → collect_lines entry (lines (listing print items)) ≡ ok items
collect_lines-listing entry print [] h = unfold lines collect_lines in refl
collect_lines-listing entry print (a ∷ rest) h =
    let (now, later) = h in
    rw (lines-append (print a) (listing print rest) now.no_cr now.no_lf) (
      collect_lines-cons entry (print a) _ a rest now.full now.back
        (collect_lines-listing entry print rest later))

pub solid_pair-Lacks-cr : (a b : Text) → IsSolid a → IsSolid b → Lacks cr (a ++ space ∷ b)
solid_pair-Lacks-cr a b ha hb =
    All-append _ a (space ∷ b) (solid-Lacks-cr a ha) (omega arith, solid-Lacks-cr b hb)

pub solid_pair-Lacks-lf : (a b : Text) → IsSolid a → IsSolid b → Lacks lf (a ++ space ∷ b)
solid_pair-Lacks-lf a b ha hb =
    All-append _ a (space ∷ b) (solid-Lacks-lf a ha) (omega arith, solid-Lacks-lf b hb)

list-IsReadable :
    (entries : List ListEntry)
    → All ListFits entries
    → All (IsReadable parse_list_entry list_text) entries
list-IsReadable [] h = tt
list-IsReadable (e ∷ rest) h = (
  record {
    full = pair-ne-nil (decimal e.message_id) (decimal e.size) (decimal-ne-nil _);
    no_cr = solid_pair-Lacks-cr (decimal e.message_id) _ (decimal-IsSolid _) (decimal-IsSolid _);
    no_lf = solid_pair-Lacks-lf (decimal e.message_id) _ (decimal-IsSolid _) (decimal-IsSolid _);
    back = list_line e h.0;
  },
  list-IsReadable rest h.1,
)

uidl-IsReadable :
    (entries : List UidlEntry)
    → All UidlFits entries
    → All (IsReadable parse_uidl_entry uidl_text) entries
uidl-IsReadable [] h = tt
uidl-IsReadable (e ∷ rest) (fits, more) = (
  record {
    full = pair-ne-nil (decimal e.message_id) e.unique_id (decimal-ne-nil _);
    no_cr = solid_pair-Lacks-cr (decimal e.message_id) _ (decimal-IsSolid _) fits.uid_solid;
    no_lf = solid_pair-Lacks-lf (decimal e.message_id) _ (decimal-IsSolid _) fits.uid_solid;
    back = uidl_line e fits;
  },
  uidl-IsReadable rest more,
)

-- A listing of message sizes, one entry a line, whose numbers fit u32 and u64, is read back whole
-- and in order.
pub parse_list_multi-listing :
    (entries : List ListEntry)
    → All ListFits entries
    → parse_list_multi (listing list_text entries) ≡ ok entries
unfolding parse_list_multi
parse_list_multi-listing entries fits =
    collect_lines-listing parse_list_entry list_text entries (list-IsReadable entries fits)

-- A unique-id listing whose ids fit u32 and whose unique ids are words is read back whole and in
-- order.
pub parse_uidl_multi-listing :
    (entries : List UidlEntry)
    → All UidlFits entries
    → parse_uidl_multi (listing uidl_text entries) ≡ ok entries
unfolding parse_uidl_multi
parse_uidl_multi-listing entries fits =
    collect_lines-listing parse_uidl_entry uidl_text entries (uidl-IsReadable entries fits)
