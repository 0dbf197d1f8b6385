-- ===== src/Examples.antt =====
-- The example programs of the repository: examples/basic.rs, examples/tls.rs and
-- examples/starttls.rs, as actions on a client that print lines.
use rust_adv_pop.Prelude.{Bool, true, false, none, some, Option, List, [], ◌∷◌, ◌++◌}
use rust_adv_pop.Text.{Text, codes, decimal}
use rust_adv_pop.Error.{PopResult, ok, err}
use rust_adv_pop.Types.{ListEntry}
use rust_adv_pop.Exec.{Exec, pure, ◌>>=◌, ◌>>◌}
use rust_adv_pop.Transport.{Dial}
use rust_adv_pop.Client
use rust_adv_pop.Client.{Pop3Client}

-- The client of `main`, and what has been printed.
pub record Console : Type 0 where
  pub client : Pop3Client
  pub printed : List Text

abbrev called : {A : Type 0} → Console → PopResult A × Pop3Client → PopResult A × Console
called s (r, c) = (r, record s { client = c })

abbrev call : {A : Type 0} → Exec Pop3Client A → Exec Console A
call m s = called s (m s.client)

abbrev println : Text → Exec Console (Unit {0})
println line s = (ok tt, record s { printed = s.printed ++ line ∷ [] })

-- A line about the client.
abbrev print_of : (Pop3Client → Text) → Exec Console (Unit {0})
print_of f s = println (f s.client) s

abbrev ended : PopResult (Unit {0}) × Console → PopResult (Unit {0}) × List Text
ended (r, s) = (r, s.printed)

-- `main`, from the attempt to connect on: its result, and what it prints.
abbrev main : PopResult Pop3Client → Exec Console (Unit {0}) → PopResult (Unit {0}) × List Text
main (err e) m = (err e, [])
main (ok c) m = ended (m (record { client = c; printed = [] }))

abbrev show_bool : Bool → Text
show_bool true = codes "true"
show_bool false = codes "false"

unfoldable pub print_entries : List ListEntry → Exec Console (Unit {0})
print_entries [] = pure tt
print_entries (e ∷ rest) = do
  println (
      codes "Message "
      ++ (decimal e.message_id ++ (codes ": " ++ (decimal e.size ++ codes " bytes"))))
  print_entries rest

unfoldable pub first : List ListEntry → Option ListEntry
first [] = none
first (e ∷ rest) = some e

-- The first message, if there is one.
unfoldable pub print_first : Option ListEntry → Exec Console (Unit {0})
print_first none = pure tt
print_first (some e) = do
  msg ← call (Client.retr e.message_id)
  println (codes "--- Message " ++ (decimal e.message_id ++ codes " ---"))
  println msg.body

unfoldable pub basic_main : Dial → PopResult (Unit {0}) × List Text
unfolding print_entries first print_first
basic_main d = main (Client.connect 30 d) (do
  print_of (λ c. codes "Greeting: " ++ Client.greeting c)
  call (Client.login (codes "username") (codes "password"))
  stat ← call Client.stat
  println (
      decimal stat.message_count
      ++ (codes " messages, " ++ (decimal stat.mailbox_size ++ codes " bytes total")))
  entries ← call (Client.list none)
  print_entries entries
  print_first (first entries)
  call Client.quit)

unfoldable tls_main : Dial → PopResult (Unit {0}) × List Text
unfolding print_entries
tls_main d = main (Client.connect_tls (codes "pop.gmail.com") 30 d) (do
  print_of (λ c. codes "Greeting: " ++ Client.greeting c)
  print_of (λ c. codes "Encrypted: " ++ show_bool (Client.is_encrypted c))
  call (Client.login (codes "user@gmail.com") (codes "app-password"))
  stat ← call Client.stat
  println (
      decimal stat.message_count
      ++ (codes " messages, " ++ (decimal stat.mailbox_size ++ codes " bytes")))
  entries ← call (Client.list none)
  print_entries entries
  call Client.quit)

unfoldable pub starttls_main : Dial → PopResult (Unit {0}) × List Text
starttls_main d = main (Client.connect 30 d) (do
  print_of (λ c. codes "Connected (encrypted: " ++ (show_bool (Client.is_encrypted c) ++ codes ")"))
  call (Client.stls (codes "pop.example.com"))
  print_of (λ c. codes "Upgraded  (encrypted: " ++ (show_bool (Client.is_encrypted c) ++ codes ")"))
  call (Client.login (codes "user") (codes "password"))
  stat ← call Client.stat
  println (
      decimal stat.message_count
      ++ (codes " messages, " ++ (decimal stat.mailbox_size ++ codes " bytes")))
  call Client.quit)
