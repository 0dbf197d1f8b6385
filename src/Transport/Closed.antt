-- ===== src/Transport/Closed.antt =====
-- The mark of a closed connection of src/transport.rs, step by step.
use rust_adv_pop.Prelude.{◌≡◌, refl, true, List, [], ◌∷◌}
use rust_adv_pop.Exec.{Exec}
use rust_adv_pop.Exec.Keeps.{Keeps}
use rust_adv_pop.Transport.{
  InnerStream, plain, rustls_tls, openssl_tls, mock, upgrading, ReadEvent, ReadOutcome, received,
  elapsed, failed, Transport, receive, read_from, on_stream, write_all, flush, fault, behind,
}
use rust_adv_pop.Transport.Discipline.{Discipline}

abbrev pub IsClosed : Transport → Type 0
IsClosed t = t.is_closed ≡ true

receive-IsClosed : (o : ReadOutcome) → Keeps IsClosed (receive o)
unfolding receive
receive-IsClosed (received []) = record { at = λ t h. refl }
receive-IsClosed (received (c ∷ line)) = record { at = λ t h. h }
receive-IsClosed elapsed = record { at = λ t h. h }
receive-IsClosed (failed e) = record { at = λ t h. h }

read_from-IsClosed : (events : List ReadEvent) → Keeps IsClosed (read_from events)
unfolding read_from
read_from-IsClosed [] = record {
  at = λ t h. (receive-IsClosed (received [])).at (record t { buffered = 0 }) h;
}
read_from-IsClosed (e ∷ rest) = record {
  at = λ t h.
      (receive-IsClosed e.outcome).at
        (record t { buffered = e.left; net = record t.net { reads = rest } }) h;
}

flush-IsClosed : Keeps IsClosed flush
unfolding flush
flush-IsClosed = record { at = λ t h. flush_on t h t.stream }
  where
    flush_plain : Exec Transport (Unit {0})
    flush_plain u =
        (fault u.net.flushes, record u { net = record u.net { flushes = behind u.net.flushes } })

    flush_on :
        (t : Transport) → IsClosed t → (s : InnerStream) → IsClosed (on_stream s flush_plain t).1
    flush_on t h plain = h
    flush_on t h rustls_tls = h
    flush_on t h openssl_tls = h
    flush_on t h mock = h
    flush_on t h upgrading = h

pub IsClosed-discipline : Discipline IsClosed (λ text. Unit {0})
IsClosed-discipline = record {
  write = λ text q. record { at = λ t h. unfold write_all in h };
  flushed = flush-IsClosed;
  read = read_from-IsClosed;
  line_end = tt;
}
