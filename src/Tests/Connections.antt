-- ===== src/Tests/Connections.antt =====
-- Examples of the connection: multi-line bodies, and upgrades to TLS.
use rust_adv_pop.Prelude.{◌<◌, ◌≡◌, ◌⊎◌, refl, true, false, List, [], ◌∷◌, ◌++◌, arith}
use rust_adv_pop.Text.{Text, codes}
use rust_adv_pop.Error.{tls, ok, err}
use rust_adv_pop.Transport.{
  plain, rustls_tls, upgrading, rustls, rejected, ReadEvent, Transport, read_multiline,
  upgrade_in_place,
}
use rust_adv_pop.Transport.Multiline.{line_outcome, body_text, read_multiline-body}
use rust_adv_pop.Transport.Upgrade.{Upgraded, upgrade_in_place-ok, upgrade_in_place-err}
use rust_adv_pop.Tests.{said, server, link}

abbrev dotted : List Text
dotted = codes "a" ∷ codes ".b" ∷ []

-- The first read brings the whole body, and the answer behind it.
abbrev dotted_events : List ReadEvent
dotted_events =
    record { outcome = line_outcome (codes "a"); left = 13 }
    ∷ record { outcome = line_outcome (codes "..b"); left = 8 }
    ∷ record { outcome = line_outcome (codes "."); left = 5 }
    ∷ []

abbrev dotted_link : Transport
dotted_link = link plain (dotted_events ++ said "+OK" ∷ [])

read_multiline-body_example : read_multiline dotted_link ≡ (
  ok (body_text dotted),
  record dotted_link { buffered = 5; net = record dotted_link.net { reads = said "+OK" ∷ [] } },
)
read_multiline-body_example =
    read_multiline-body dotted dotted_events (said "+OK" ∷ []) dotted_link (λ e. cc) refl refl
      ((omega arith, tt), ((omega arith, (omega arith, tt)), tt))

abbrev greeted_link : Transport
greeted_link = link plain (said "+OK" ∷ [])

abbrev secured_link : Transport
secured_link = record greeted_link { stream = rustls_tls; encrypted = true; buffered = 0 }

secures : upgrade_in_place (codes "host") greeted_link ≡ (ok tt, secured_link)
unfolding upgrade_in_place
secures = refl

upgrade_in_place-ok_example : Upgraded greeted_link secured_link
upgrade_in_place-ok_example = upgrade_in_place-ok (codes "host") greeted_link secured_link secures

abbrev distrusted_link : Transport
distrusted_link = record greeted_link {
  net = record (server []) { handshake = λ hostname. rustls (rejected (codes "expired")) };
}

abbrev dead_link : Transport
dead_link = record distrusted_link { stream = upgrading; buffered = 0 }

distrusts :
    upgrade_in_place (codes "host") distrusted_link ≡ (err (tls (codes "expired")), dead_link)
unfolding upgrade_in_place
distrusts = refl

upgrade_in_place-err_example :
    (((0 < distrusted_link.buffered) ⊎ (distrusted_link.encrypted ≡ true))
      × (dead_link ≡ distrusted_link))
    ⊎ ((distrusted_link.buffered ≡ 0)
        × ((distrusted_link.encrypted ≡ false)
            × (dead_link ≡ record distrusted_link { stream = upgrading; buffered = 0 })))
upgrade_in_place-err_example =
    upgrade_in_place-err (codes "host") distrusted_link dead_link (tls (codes "expired")) distrusts
