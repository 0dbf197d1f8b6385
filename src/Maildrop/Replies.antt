-- ===== src/Maildrop/Replies.antt =====
-- The single commands of src/client.rs against the answers of a maildrop.
use rust_adv_pop.Prelude.{
  ℕ, ◌≤◌, ◌≡◌, ◌≢◌, refl, ap, ◌∙◌, none, some, List, [], ◌∷◌, ◌++◌, map, All, Lacks,
}
use rust_adv_pop.Text.{Text, codes, lf, crlf, decimal}
use rust_adv_pop.Error.{ok}
use rust_adv_pop.Types.{Stat, ListEntry, UidlEntry}
use rust_adv_pop.Wire.{stat_text, list_text, uidl_text, StatFits, ListFits, UidlFits, listing}
use rust_adv_pop.Response.{parse_list_single, parse_uidl_single, parse_list_multi, parse_uidl_multi}
use rust_adv_pop.Response.Entries.{
  decimal-IsSolid, list_line, uidl_line, solid_pair-Lacks-lf, parse_stat-stat_text,
  parse_list_multi-listing, parse_uidl_multi-listing,
}
use rust_adv_pop.Exec.{lift, ◌>>◌}
use rust_adv_pop.Transport.{upgrading}
use rust_adv_pop.Transport.Multiline.{body_text}
use rust_adv_pop.Client
use rust_adv_pop.Client.{
  Pop3Client, over, send_and_check, require_auth, validate_message_id, message_of, no_value,
}
use rust_adv_pop.Maildrop.{
  ok_reply, multi_reply, done_reply, Turn, asks, says, spoken, spelled, request, Request,
}
use rust_adv_pop.Maildrop
use rust_adv_pop.Maildrop.Dialogue.{Session, Ready, Yields, Yields-bind, Yields-pure}
use rust_adv_pop.Maildrop.Steps.{
  done_line, pair_line, auth_then, id_then, line_then, body_then, lifted,
}

body_text-listing :
    {A : Type 0} (print : A → Text) (l : List A) → body_text (map print l) ≡ listing print l
body_text-listing print [] = refl
body_text-listing print (a ∷ l) = ap (λ x. print a ++ lf ∷ x) (body_text-listing print l)

pub list_text-Lacks : (e : ListEntry) → ListFits e → Lacks lf (list_text e)
list_text-Lacks e h =
    solid_pair-Lacks-lf (decimal e.message_id) _ (decimal-IsSolid _) (decimal-IsSolid _)

pub uidl_text-Lacks : (e : UidlEntry) → UidlFits e → Lacks lf (uidl_text e)
uidl_text-Lacks e h = solid_pair-Lacks-lf (decimal e.message_id) _ (decimal-IsSolid _) h.uid_solid

module _ (s : Session) (live : s.stream ≢ upgrading) (rest : List Turn) (c : Pop3Client) where
  pub stat-Yields :
      (v : Stat)
      → StatFits v
      → Ready s (request Maildrop.stat ∷ says (ok_reply (stat_text v)) ∷ rest) c
      → Yields s Client.stat c (ok v) rest
  unfolding spelled Client.stat
  stat-Yields v fits = auth_then s live rest _ (ok v) _ c (λ d.
      line_then s live rest _ (codes "+OK " ++ stat_text v) (stat_text v) _ (ok v) d
        (pair_line v.message_count _ (decimal-IsSolid _))
        (lifted s live rest _ (ok v) (parse_stat-stat_text v fits)))

  pub list_one-Yields :
      (e : ListEntry)
      → 1 ≤ e.message_id
      → ListFits e
      → Ready s (request (Maildrop.list_one e.message_id) ∷ says (ok_reply (list_text e)) ∷ rest) c
      → Yields s (Client.list (some e.message_id)) c (ok (e ∷ [])) rest
  unfolding spelled Client.list parse_list_single
  list_one-Yields e valid fits = id_then s live rest e.message_id _ (ok (e ∷ [])) _ c valid (λ d.
      line_then s live rest _ (codes "+OK " ++ list_text e) (list_text e) _ (ok (e ∷ [])) d
        (pair_line e.message_id _ (decimal-IsSolid _))
        (λ d1 h1.
          Yields-bind s _ _ rest (lift (parse_list_single (list_text e))) d1 e rest
            (lifted s live rest _ (ok e) (list_line e fits) d1 h1)
            (λ d2 h2. Yields-pure s _ d2 rest h2)))

  pub uidl_one-Yields :
      (e : UidlEntry)
      → 1 ≤ e.message_id
      → UidlFits e
      → Ready s (request (Maildrop.uidl_one e.message_id) ∷ says (ok_reply (uidl_text e)) ∷ rest) c
      → Yields s (Client.uidl (some e.message_id)) c (ok (e ∷ [])) rest
  unfolding spelled Client.uidl parse_uidl_single
  uidl_one-Yields e valid fits = id_then s live rest e.message_id _ (ok (e ∷ [])) _ c valid (λ d.
      line_then s live rest _ (codes "+OK " ++ uidl_text e) (uidl_text e) _ (ok (e ∷ [])) d
        (pair_line e.message_id _ fits.uid_solid)
        (λ d1 h1.
          Yields-bind s _ _ rest (lift (parse_uidl_single (uidl_text e))) d1 e rest
            (lifted s live rest _ (ok e) (uidl_line e fits) d1 h1)
            (λ d2 h2. Yields-pure s _ d2 rest h2)))

  pub list_all-Yields :
      (entries : List ListEntry)
      → All ListFits entries
      → All (Lacks lf) (map list_text entries)
      → Ready s
          (request Maildrop.list_all ∷ (spoken (multi_reply (map list_text entries)) ++ rest))
          c
      → Yields s (Client.list none) c (ok entries) rest
  unfolding spelled Client.list
  list_all-Yields entries fits clean = auth_then s live rest _ (ok entries) _ c (λ d.
      body_then s live rest _ (map list_text entries) _ (ok entries) d clean (
        lifted s live rest _ (ok entries) (
          ap parse_list_multi (body_text-listing list_text entries)
          ∙ parse_list_multi-listing entries fits)))

  pub uidl_all-Yields :
      (entries : List UidlEntry)
      → All UidlFits entries
      → All (Lacks lf) (map uidl_text entries)
      → Ready s
          (request Maildrop.uidl_all ∷ (spoken (multi_reply (map uidl_text entries)) ++ rest))
          c
      → Yields s (Client.uidl none) c (ok entries) rest
  unfolding spelled Client.uidl
  uidl_all-Yields entries fits clean = auth_then s live rest _ (ok entries) _ c (λ d.
      body_then s live rest _ (map uidl_text entries) _ (ok entries) d clean (
        lifted s live rest _ (ok entries) (
          ap parse_uidl_multi (body_text-listing uidl_text entries)
          ∙ parse_uidl_multi-listing entries fits)))

  pub retr-Yields :
      (id : ℕ) (lines : List Text)
      → 1 ≤ id
      → All (Lacks lf) lines
      → Ready s (request (Maildrop.retr id) ∷ (spoken (multi_reply lines) ++ rest)) c
      → Yields s (Client.retr id) c (ok (message_of (body_text lines))) rest
  unfolding spelled Client.retr
  retr-Yields id lines valid clean =
      id_then s live rest id _ (ok (message_of (body_text lines))) _ c valid (λ d.
        body_then s live rest _ lines _ (ok (message_of (body_text lines))) d clean
          (λ d1 h1. Yields-pure s _ d1 rest h1))

  pub top-Yields :
      (id n : ℕ) (lines : List Text)
      → 1 ≤ id
      → All (Lacks lf) lines
      → Ready s (request (Maildrop.top id n) ∷ (spoken (multi_reply lines) ++ rest)) c
      → Yields s (Client.top id n) c (ok (message_of (body_text lines))) rest
  unfolding spelled Client.top
  top-Yields id n lines valid clean =
      id_then s live rest id _ (ok (message_of (body_text lines))) _ c valid (λ d.
        body_then s live rest _ lines _ (ok (message_of (body_text lines))) d clean
          (λ d1 h1. Yields-pure s _ d1 rest h1))

  done_then :
      (cmd : Text)
      → Ready s (asks (cmd ++ crlf) ∷ says done_reply ∷ rest) c
      → Yields s (require_auth >> no_value (send_and_check cmd)) c (ok tt) rest
  done_then cmd = auth_then s live rest _ (ok tt) _ c (λ d.
      line_then s live rest cmd (codes "+OK") [] _ (ok tt) d done_line
        (λ d1 h1. Yields-pure s _ d1 rest h1))

  pub dele-Yields :
      (id : ℕ)
      → 1 ≤ id
      → Ready s (request (Maildrop.dele id) ∷ says done_reply ∷ rest) c
      → Yields s (Client.dele id) c (ok tt) rest
  unfolding spelled Client.dele
  dele-Yields id valid = id_then s live rest id _ (ok tt) _ c valid (λ d.
      line_then s live rest _ (codes "+OK") [] _ (ok tt) d done_line
        (λ d1 h1. Yields-pure s _ d1 rest h1))

  pub rset-Yields :
      Ready s (request Maildrop.rset ∷ says done_reply ∷ rest) c
      → Yields s Client.rset c (ok tt) rest
  unfolding spelled Client.rset
  rset-Yields = done_then _

  pub noop-Yields :
      Ready s (request Maildrop.noop ∷ says done_reply ∷ rest) c
      → Yields s Client.noop c (ok tt) rest
  unfolding spelled Client.noop
  noop-Yields = done_then _
