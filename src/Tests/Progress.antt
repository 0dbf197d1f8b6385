-- ===== src/Tests/Progress.antt =====
-- An example of a reconnection that comes through at its second attempt.
use rust_adv_pop.Prelude.{[]}
use rust_adv_pop.Types.{connected}
use rust_adv_pop.Client
use rust_adv_pop.Client.{Pop3Client}
use rust_adv_pop.Builder
use rust_adv_pop.Reconnect.{attempts}
use rust_adv_pop.Reconnect.Retry.{plain_retry}
use rust_adv_pop.Tests.{client_on, client_or, digest}
use rust_adv_pop.Tests.Recovery.{stale, networks}

abbrev renewed : Pop3Client
renewed = client_or (client_on connected []) (attempts plain_retry digest networks stale 1)
