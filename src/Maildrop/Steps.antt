-- ===== src/Maildrop/Steps.antt =====
-- How a command of src/client.rs is put together, step by step, in a conversation with a server.
use rust_adv_pop.Prelude.{ℕ, ◌≤◌, ◌≡◌, ◌≢◌, refl, ap, ◌∙◌, List, [], ◌∷◌, ◌++◌, All, Lacks, arith}
use rust_adv_pop.Text.{
  Text, codes, lf, crlf, space, decimal, decimal-ne-nil, trim_start, IsSolid, is_white, chomp,
  text_eq, strip_prefix, is_ascii_white,
}
use rust_adv_pop.Error.{server_error, PopResult, ok, err}
use rust_adv_pop.Response.{parse_status_line, has_status, parse_resp_code}
use rust_adv_pop.Response.Codes.{ok_line}
use rust_adv_pop.Response.Entries.{decimal-IsSolid, solid_pair-Lacks-lf}
use rust_adv_pop.Exec.{Exec, lift, ◌>>=◌, ◌>>◌}
use rust_adv_pop.Transport.{upgrading, read_multiline}
use rust_adv_pop.Transport.Multiline.{line_outcome, body_outcomes, body_text}
use rust_adv_pop.Client.{Pop3Client, over, send_and_check, require_auth, validate_message_id}
use rust_adv_pop.Maildrop.{no_such, refusal, multi_reply, Turn, asks, says, spoken}
use rust_adv_pop.Maildrop.Dialogue.{
  Session, Ready, Yields, Yields-bind, Yields-fail, Yields-auth, send-Yields, body-Yields,
}

refused_line : parse_status_line ((codes "-ERR " ++ no_such) ++ crlf) ≡ err (server_error no_such)
unfolding parse_status_line has_status parse_resp_code chomp text_eq strip_prefix trim_start
    is_ascii_white is_white
refused_line = refl

pub done_line : parse_status_line (codes "+OK" ++ crlf) ≡ ok []
unfolding parse_status_line has_status chomp text_eq strip_prefix trim_start is_ascii_white is_white
done_line = refl

trim_start-solid : (a b : Text) → a ≢ [] → IsSolid a → trim_start (a ++ b) ≡ a ++ b
unfolding trim_start
trim_start-solid [] b full h = absurd (full refl)
trim_start-solid (c ∷ a) b full h = rw h.0

-- A success line with two words.
pub pair_line :
    (n : ℕ) (b : Text)
    → IsSolid b
    → parse_status_line ((codes "+OK " ++ (decimal n ++ space ∷ b)) ++ crlf)
      ≡ ok (decimal n ++ space ∷ b)
pair_line n b h =
    ok_line (decimal n ++ space ∷ b) (solid_pair-Lacks-lf (decimal n) b (decimal-IsSolid n) h)
    ∙ ap ok (trim_start-solid (decimal n) (space ∷ b) (decimal-ne-nil n) (decimal-IsSolid n))

module _ (s : Session) (live : s.stream ≢ upgrading) (rest : List Turn) {A : Type 0} where
  pub auth_then :
      (m : Exec Pop3Client A) (r : PopResult A) (events : List Turn) (c : Pop3Client)
      → ((d : Pop3Client) → Ready s events d → Yields s m d r rest)
      → Ready s events c
      → Yields s (require_auth >> m) c r rest
  auth_then m r events c k h =
      Yields-bind s _ r rest require_auth c tt events (Yields-auth s c events h) k

  pub id_then :
      (id : ℕ) (m : Exec Pop3Client A) (r : PopResult A) (events : List Turn) (c : Pop3Client)
      → 1 ≤ id
      → ((d : Pop3Client) → Ready s events d → Yields s m d r rest)
      → Ready s events c
      → Yields s (require_auth >> (lift (validate_message_id id) >> m)) c r rest
  unfolding validate_message_id
  id_then id m r events c valid k h =
      auth_then _ r events c
        (λ d hd.
          Yields-bind s _ r rest (lift (validate_message_id id)) d tt events
            (record { result = ground arith; ready = hd }) k)
        h

  pub line_then :
      (cmd line text : Text) (f : Text → Exec Pop3Client A) (r : PopResult A) (c : Pop3Client)
      → parse_status_line (line ++ crlf) ≡ ok text
      → ((d : Pop3Client) → Ready s rest d → Yields s (f text) d r rest)
      → Ready s (asks (cmd ++ crlf) ∷ says (line_outcome line) ∷ rest) c
      → Yields s (send_and_check cmd >>= f) c r rest
  line_then cmd line text f r c e k h =
      Yields-bind s f r rest (send_and_check cmd) c text rest
        (send-Yields s live cmd line (ok text) rest c e h) k

  pub refused_then :
      (cmd : Text) (f : Text → Exec Pop3Client A) (c : Pop3Client)
      → Ready s (asks (cmd ++ crlf) ∷ says refusal ∷ rest) c
      → Yields s (send_and_check cmd >>= f) c (err (server_error no_such)) rest
  refused_then cmd f c h = Yields-fail s f rest (send_and_check cmd) c (server_error no_such) (
      send-Yields s live cmd (codes "-ERR " ++ no_such) (err (server_error no_such)) rest c
        refused_line h)

  pub body_then :
      (cmd : Text) (lines : List Text) (f : Text → Exec Pop3Client A) (r : PopResult A)
      (c : Pop3Client)
      → All (Lacks lf) lines
      → ((d : Pop3Client) → Ready s rest d → Yields s (f (body_text lines)) d r rest)
      → Ready s (asks (cmd ++ crlf) ∷ (spoken (multi_reply lines) ++ rest)) c
      → Yields s (send_and_check cmd >> (over read_multiline >>= f)) c r rest
  body_then cmd lines f r c clean k h =
      Yields-bind s _ r rest (send_and_check cmd) c [] (spoken (body_outcomes lines) ++ rest)
        (send-Yields s live cmd (codes "+OK") (ok []) (spoken (body_outcomes lines) ++ rest) c
          done_line h)
        (λ d hd.
          Yields-bind s f r rest (over read_multiline) d (body_text lines) rest
            (body-Yields s live lines rest d clean hd) k)

  pub lifted :
      (x r : PopResult A) → x ≡ r → (c : Pop3Client) → Ready s rest c → Yields s (lift x) c r rest
  lifted x r e c h = record { result = e; ready = h }
