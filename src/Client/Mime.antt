-- ===== src/Client/Mime.antt =====
-- `retr_parsed` and `top_parsed` of src/client.rs. The parser of the mail-parser crate is the
-- parameter `parser`.
use rust_adv_pop.Prelude.{ℕ, Option, ◌++◌}
use rust_adv_pop.Text.{Text, codes, decimal}
use rust_adv_pop.Error.{mime_parse, PopResult, ok_or}
use rust_adv_pop.Types.{Message}
use rust_adv_pop.Exec.{Exec, lift, ◌>>=◌}
use rust_adv_pop.Client.{Pop3Client, retr, top}

module _ {M : Type 0} (parser : Text → Option M) where
  parsed : ℕ → Message → PopResult M
  parsed id msg =
      ok_or
        (mime_parse (codes "message " ++ (decimal id ++ codes " could not be parsed as RFC 5322")))
        (parser msg.body)

  unfoldable pub retr_parsed : ℕ → Exec Pop3Client M
  unfolding parsed
  retr_parsed id = do msg ← retr id; lift (parsed id msg)

  unfoldable pub top_parsed : ℕ → ℕ → Exec Pop3Client M
  unfolding parsed
  top_parsed id line_count = do msg ← top id line_count; lift (parsed id msg)
