-- ===== src/Suite/Responses.antt =====
-- The unit tests of src/response.rs on entries and capabilities.
use rust_adv_pop.Prelude.{◌≡◌, refl, Bool, true, [], ◌∷◌, ◌++◌, length, ◌==◌}
use rust_adv_pop.Text.{codes, lf, is_white, text_eq, trim, split_whitespace, lines, parse_uint}
use rust_adv_pop.Exec.{pure, lift}
use rust_adv_pop.Response.{
  parse_stat, parse_list_entry, parse_uidl_entry, collect_lines, parse_list_multi,
  parse_list_single, parse_uidl_multi, parse_uidl_single, parse_capa,
}
use rust_adv_pop.Client.{stat}
use rust_adv_pop.Suite.{◌>>=◌, ◌>>◌, unwrap, assert, passes, all_pass, is_err, at, is_empty}

test_parse_stat : Bool
test_parse_stat = passes (do
  stat ← unwrap (lift (parse_stat (codes "5 12345")))
  assert (stat.message_count == 5)
  assert (stat.mailbox_size == 12345))

test_parse_stat_large_size : Bool
test_parse_stat_large_size = passes (do
  stat ← unwrap (lift (parse_stat (codes "1 3000000000")))
  assert (stat.message_count == 1)
  assert (stat.mailbox_size == 3000000000))

test_parse_stat_missing_fields : Bool
test_parse_stat_missing_fields =
    passes (do assert (is_err (parse_stat [])); assert (is_err (parse_stat (codes "5"))))

test_parse_stat_invalid_number : Bool
test_parse_stat_invalid_number = passes (do
  assert (is_err (parse_stat (codes "abc 123")))
  assert (is_err (parse_stat (codes "5 abc"))))

test_parse_list_entry : Bool
test_parse_list_entry = passes (do
  entry ← unwrap (lift (parse_list_entry (codes "1 1234")))
  assert (entry.message_id == 1)
  assert (entry.size == 1234))

test_parse_list_multi : Bool
test_parse_list_multi = passes (do
  entries ← unwrap (
      lift (
        parse_list_multi (
          codes "1 1234"
          ++ ((lf ∷ []) ++ (codes "2 5678" ++ ((lf ∷ []) ++ (codes "3 91011" ++ ((lf ∷ [])))))))))
  assert (length entries == 3)
  assert (at 0 (λ x. x.message_id == 1) entries)
  assert (at 0 (λ x. x.size == 1234) entries)
  assert (at 2 (λ x. x.message_id == 3) entries)
  assert (at 2 (λ x. x.size == 91011) entries))

test_parse_list_single : Bool
test_parse_list_single = passes (do
  entry ← unwrap (lift (parse_list_single (codes "2 5678")))
  assert (entry.message_id == 2)
  assert (entry.size == 5678))

test_parse_uidl_entry : Bool
test_parse_uidl_entry = passes (do
  entry ← unwrap (lift (parse_uidl_entry (codes "1 abc123def")))
  assert (entry.message_id == 1)
  assert (text_eq entry.unique_id (codes "abc123def")))

test_parse_uidl_multi : Bool
test_parse_uidl_multi = passes (do
  entries ← unwrap (
      lift
        (parse_uidl_multi (codes "1 uid-aaa" ++ ((lf ∷ []) ++ (codes "2 uid-bbb" ++ ((lf ∷ [])))))))
  assert (length entries == 2)
  assert (at 0 (λ x. text_eq x.unique_id (codes "uid-aaa")) entries)
  assert (at 1 (λ x. text_eq x.unique_id (codes "uid-bbb")) entries))

test_parse_uidl_single : Bool
test_parse_uidl_single = passes (do
  entry ← unwrap (lift (parse_uidl_single (codes "3 unique-xyz")))
  assert (entry.message_id == 3)
  assert (text_eq entry.unique_id (codes "unique-xyz")))

test_parse_capa : Bool
test_parse_capa = passes (do
  caps ← unwrap (
      pure (
        parse_capa (
          codes "TOP"
          ++ ((lf ∷ [])
              ++ (codes "UIDL"
                  ++ ((lf ∷ [])
                      ++ (codes "SASL PLAIN LOGIN"
                          ++ ((lf ∷ []) ++ (codes "RESP-CODES" ++ ((lf ∷ [])))))))))))
  assert (length caps == 4)
  assert (at 0 (λ x. text_eq x.name (codes "TOP")) caps)
  assert (at 0 (λ x. is_empty x.arguments) caps)
  assert (at 2 (λ x. text_eq x.name (codes "SASL")) caps)
  assert (at 2 (λ x. length x.arguments == 2) caps)
  assert (at 2 (λ x. at 0 (λ w. text_eq w (codes "PLAIN")) x.arguments) caps)
  assert (at 2 (λ x. at 1 (λ w. text_eq w (codes "LOGIN")) x.arguments) caps))

test_parse_capa_empty : Bool
test_parse_capa_empty = passes (do caps ← unwrap (pure (parse_capa [])); assert (is_empty caps))

test_parse_capa_whitespace_only_lines : Bool
test_parse_capa_whitespace_only_lines = passes (do
  caps ← unwrap (
      pure (
        parse_capa (
          codes "TOP"
          ++ ((lf ∷ []) ++ (codes "   " ++ ((lf ∷ []) ++ (codes "UIDL" ++ ((lf ∷ [])))))))))
  assert (length caps == 2)
  assert (at 0 (λ x. text_eq x.name (codes "TOP")) caps)
  assert (at 1 (λ x. text_eq x.name (codes "UIDL")) caps))

responses_pass :
    all_pass (
      test_parse_stat ∷ test_parse_stat_large_size ∷ test_parse_stat_missing_fields
      ∷ test_parse_stat_invalid_number ∷ test_parse_list_entry ∷ test_parse_list_multi
      ∷ test_parse_list_single ∷ test_parse_uidl_entry ∷ test_parse_uidl_multi
      ∷ test_parse_uidl_single ∷ test_parse_capa ∷ test_parse_capa_empty
      ∷ test_parse_capa_whitespace_only_lines ∷ [])
    ≡ true
unfolding test_parse_stat test_parse_stat_large_size test_parse_stat_missing_fields
    test_parse_stat_invalid_number test_parse_list_entry test_parse_list_multi
    test_parse_list_single test_parse_uidl_entry test_parse_uidl_multi test_parse_uidl_single
    test_parse_capa test_parse_capa_empty test_parse_capa_whitespace_only_lines is_white text_eq
    trim split_whitespace lines parse_uint parse_stat parse_list_entry parse_uidl_entry
    collect_lines parse_list_multi parse_list_single parse_uidl_multi parse_uidl_single parse_capa
responses_pass = refl
