-- ===== src/Response/Codes.antt =====
-- `-ERR` responses with a response code, in src/response.rs.
use rust_adv_pop.Prelude.{
  ℕ, ◌≡◌, ◌≢◌, refl, ◌∙◌, ap, sym, some, [], ◌∷◌, ◌++◌, append_assoc, arith, Lacks, All-append,
}
use rust_adv_pop.Text.{
  Text, codes, lf, crlf, is_white, text_eq, text_eq_iff, cut_at, strip_prefix, trim_start,
  chomp-append, is_ascii_white,
}
use rust_adv_pop.Error.{
  Pop3Error, mailbox_in_use, login_delay, sys_temp, sys_perm, server_error, auth_failed, ok, err,
}
use rust_adv_pop.Response.{resp_code_error, parse_resp_code, has_status, parse_status_line}

-- The codes that the client knows.
pub data RespCode : Type 0 where
  in_use login_delay_code sys_temp_code sys_perm_code auth : RespCode

abbrev pub code_text : RespCode → Text
code_text in_use = codes "IN-USE"
code_text login_delay_code = codes "LOGIN-DELAY"
code_text sys_temp_code = codes "SYS/TEMP"
code_text sys_perm_code = codes "SYS/PERM"
code_text auth = codes "AUTH"

abbrev pub code_error : RespCode → Text → Pop3Error
code_error in_use = mailbox_in_use
code_error login_delay_code = login_delay
code_error sys_temp_code = sys_temp
code_error sys_perm_code = sys_perm
code_error auth = auth_failed

cut_at-append : (c : ℕ) (a b : Text) → Lacks c a → cut_at c (a ++ c ∷ b) ≡ some (a, b)
unfolding cut_at
cut_at-append c [] b h = ground arith
cut_at-append c (x ∷ a) b h = rw (cut_at-append c a b h.1) (ground arith)

code-Lacks : (c : RespCode) → Lacks b']' (code_text c)
code-Lacks in_use = omega arith
code-Lacks login_delay_code = omega arith
code-Lacks sys_temp_code = omega arith
code-Lacks sys_perm_code = omega arith
code-Lacks auth = omega arith

code-Lacks-lf : (c : RespCode) → Lacks lf (code_text c)
code-Lacks-lf in_use = omega arith
code-Lacks-lf login_delay_code = omega arith
code-Lacks-lf sys_temp_code = omega arith
code-Lacks-lf sys_perm_code = omega arith
code-Lacks-lf auth = omega arith

code_known :
    (c : RespCode) (rest text : Text) → resp_code_error (code_text c) rest text ≡ code_error c rest
unfolding resp_code_error text_eq
code_known in_use rest text = refl
code_known login_delay_code rest text = refl
code_known sys_temp_code rest text = refl
code_known sys_perm_code rest text = refl
code_known auth rest text = refl

resp_code_brackets :
    (code rest : Text)
    → Lacks b']' code
    → parse_resp_code (b'[' ∷ (code ++ b']' ∷ rest))
      ≡ resp_code_error code (trim_start rest) (b'[' ∷ (code ++ b']' ∷ rest))
unfolding parse_resp_code strip_prefix
resp_code_brackets code rest h = rw (cut_at-append b']' code rest h)

-- An error line is read as what stands behind "-ERR ".
pub error_line :
    (text : Text)
    → Lacks lf text
    → parse_status_line (codes "-ERR " ++ (text ++ crlf)) ≡ err (parse_resp_code (trim_start text))
unfolding parse_status_line has_status strip_prefix is_ascii_white trim_start is_white
error_line text h =
    rw (chomp-append (codes "-ERR " ++ text) (All-append _ (codes "-ERR ") text (omega arith) h))

-- A success line is the text behind "+OK ".
pub ok_line :
    (text : Text)
    → Lacks lf text
    → parse_status_line (codes "+OK " ++ (text ++ crlf)) ≡ ok (trim_start text)
unfolding parse_status_line has_status strip_prefix is_ascii_white trim_start is_white
ok_line text h =
    rw (chomp-append (codes "+OK " ++ text) (All-append _ (codes "+OK ") text (omega arith) h))

trim_start-bracket : (s : Text) → trim_start (b'[' ∷ s) ≡ b'[' ∷ s
unfolding trim_start is_white
trim_start-bracket s = refl

code_line :
    (code rest : Text)
    → Lacks b']' code
    → Lacks lf code
    → Lacks lf rest
    → parse_status_line (codes "-ERR [" ++ (code ++ b']' ∷ (rest ++ crlf)))
      ≡ err (resp_code_error code (trim_start rest) (b'[' ∷ (code ++ b']' ∷ rest)))
code_line code rest no_bracket clean_code clean_rest =
    ap (λ s. parse_status_line (codes "-ERR [" ++ s)) (sym (append_assoc code (b']' ∷ rest) crlf))
    ∙ error_line (b'[' ∷ (code ++ b']' ∷ rest))
        (omega arith, All-append _ code (b']' ∷ rest) clean_code (omega arith, clean_rest))
    ∙ ap (λ t. err (parse_resp_code t)) (trim_start-bracket (code ++ b']' ∷ rest))
    ∙ ap err (resp_code_brackets code rest no_bracket)

-- A `-ERR` line whose text is a known code in brackets and a rest without a newline is the error
-- variant of that code, with the rest, its leading whitespace trimmed, as its text.
pub parse_status_line-code :
    (c : RespCode) (rest : Text)
    → Lacks lf rest
    → parse_status_line (codes "-ERR [" ++ (code_text c ++ b']' ∷ (rest ++ crlf)))
      ≡ err (code_error c (trim_start rest))
parse_status_line-code c rest h =
    code_line (code_text c) rest (code-Lacks c) (code-Lacks-lf c) h
    ∙ ap err (code_known c (trim_start rest) (b'[' ∷ (code_text c ++ b']' ∷ rest)))

code_unknown :
    (code rest text : Text)
    → ((c : RespCode) → code ≢ code_text c)
    → resp_code_error code rest text ≡ server_error text
unfolding resp_code_error
code_unknown code rest text other = ground (
  arith,
  text_eq_iff code (code_text in_use),
  text_eq_iff code (code_text login_delay_code),
  text_eq_iff code (code_text sys_temp_code),
  text_eq_iff code (code_text sys_perm_code),
  text_eq_iff code (code_text auth),
  other in_use,
  other login_delay_code,
  other sys_temp_code,
  other sys_perm_code,
  other auth,
)

-- A `-ERR` line whose text is another code in brackets and a rest is a `ServerError` with the whole
-- text, brackets included, if the code has no closing bracket and neither it nor the rest a newline.
pub parse_status_line-unknown_code :
    (code rest : Text)
    → Lacks b']' code
    → Lacks lf code
    → Lacks lf rest
    → ((c : RespCode) → code ≢ code_text c)
    → parse_status_line (codes "-ERR [" ++ (code ++ b']' ∷ (rest ++ crlf)))
      ≡ err (server_error (b'[' ∷ (code ++ b']' ∷ rest)))
parse_status_line-unknown_code code rest no_bracket clean_code clean_rest other =
    code_line code rest no_bracket clean_code clean_rest
    ∙ ap err (code_unknown code (trim_start rest) (b'[' ∷ (code ++ b']' ∷ rest)) other)
