-- ===== src/Transport/Quiet.antt =====
-- Connections of src/transport.rs on which no write and no flush fails, and reads, which do not look
-- at what was sent.
use rust_adv_pop.Prelude.{
  ◌≡◌, ◌≢◌, refl, ap, sym, ◌∙◌, List, [], ◌∷◌, ◌++◌, Bool, if◌then◌else◌, true, false, append_assoc,
  Option,
}
use rust_adv_pop.Text.{Text, crlf}
use rust_adv_pop.Error.{PopResult, ok, err, IoError}
use rust_adv_pop.Exec.Keeps.{Keeps}
use rust_adv_pop.Exec.{Exec, pure, lift, continue, ◌>>=◌, ◌>>◌}
use rust_adv_pop.Transport.{
  InnerStream, plain, rustls_tls, openssl_tls, mock, upgrading, ReadEvent, ReadOutcome, received,
  elapsed, failed, Sent, Net, Transport, on_stream, write_all, flush, send_command, read_from,
  read_line, receive, fault, behind, multiline_from, read_multiline, is_end, push_line,
}
use rust_adv_pop.Transport.Discipline.{Discipline, read_from-SameLink}
use rust_adv_pop.Transport.Multiline.{on_stream-live}

-- The stream is `s`, and no write or flush to come fails.
pub record Quiet (s : InnerStream) (t : Transport) : Type 0 where
  pub on : t.stream ≡ s
  pub no_write_fault : t.net.writes ≡ []
  pub no_flush_fault : t.net.flushes ≡ []

-- The same connection after more was sent.
abbrev pub with_sent : List Sent → Transport → Transport
with_sent l t = record t { sent = l }

-- The action neither looks at what was sent nor sends anything.
pub record Frames {A : Type 0} (m : Exec Transport A) : Type 0 where
  pub at : (t : Transport) (l : List Sent) → m (with_sent l t) ≡ ((m t).0, with_sent l (m t).1)

receive-Frames : (o : ReadOutcome) → Frames (receive o)
unfolding receive
receive-Frames (received []) = record { at = λ t l. refl }
receive-Frames (received (c ∷ s)) = record { at = λ t l. refl }
receive-Frames elapsed = record { at = λ t l. refl }
receive-Frames (failed e) = record { at = λ t l. refl }

read_from-Frames : (events : List ReadEvent) → Frames (read_from events)
unfolding read_from
read_from-Frames [] = record {
  at = λ t l. (receive-Frames (received [])).at (record t { buffered = 0 }) l;
}
read_from-Frames (e ∷ rest) = record {
  at = λ t l.
      (receive-Frames e.outcome).at
        (record t { buffered = e.left; net = record t.net { reads = rest } }) l;
}

pub Frames-pure : {A : Type 0} (a : A) → Frames (pure a)
Frames-pure a = record { at = λ t l. refl }

pub Frames-lift : {A : Type 0} (r : PopResult A) → Frames (lift r)
Frames-lift r = record { at = λ t l. refl }

module _ {A B : Type 0} where
  continue-Frames :
      (f : A → Exec Transport B) (r : PopResult A × Transport) (l : List Sent)
      → ((a : A) → Frames (f a))
      → continue (r.0, with_sent l r.1) f ≡ ((continue r f).0, with_sent l (continue r f).1)
  continue-Frames f (ok a, t) l k = (k a).at t l
  continue-Frames f (err e, t) l k = refl

  pub Frames-bind :
      (m : Exec Transport A) (f : A → Exec Transport B)
      → Frames m
      → ((a : A) → Frames (f a))
      → Frames (m >>= f)
  Frames-bind m f h k = record {
    at = λ t l.
        ap (λ (r : PopResult A × Transport). continue r f) (h.at t l) ∙ continue-Frames f (m t) l k;
  }

Frames-if :
    {A : Type 0} (b : Bool) (m n : Exec Transport A)
    → Frames m
    → Frames n
    → Frames (if b then m else n)
Frames-if true m n h k = h
Frames-if false m n h k = k

Frames-on_stream :
    {A : Type 0} (s : InnerStream) (m : Exec Transport A) → Frames m → Frames (on_stream s m)
unfolding on_stream
Frames-on_stream upgrading m h = record { at = λ t l. refl }
Frames-on_stream plain m h = h
Frames-on_stream rustls_tls m h = h
Frames-on_stream openssl_tls m h = h
Frames-on_stream mock m h = h

pub read_line-Frames : Frames read_line
unfolding read_line
read_line-Frames = record {
  at = λ t l. (Frames-on_stream t.stream _ (read_from-Frames t.net.reads)).at t l;
}

multiline_from-Frames :
    (events : List ReadEvent) (body : Text) → Frames (multiline_from events body)
unfolding multiline_from
multiline_from-Frames [] body = read_from-Frames []
multiline_from-Frames (e ∷ rest) body =
    Frames-bind (read_from (e ∷ rest)) _ (read_from-Frames (e ∷ rest)) λ line.
      Frames-if (is_end line) _ _ (Frames-pure body)
        (multiline_from-Frames rest (push_line body line))

pub read_multiline-Frames : Frames read_multiline
unfolding read_multiline
read_multiline-Frames = record {
  at = λ t l. (Frames-on_stream t.stream _ (multiline_from-Frames t.net.reads [])).at t l;
}

write_all-Quiet : (s : InnerStream) (text : Text) → Keeps (Quiet s) (write_all text)
unfolding write_all behind
write_all-Quiet s text = record {
  at = λ t h. record {
    on = h.on;
    no_write_fault = ap behind h.no_write_fault;
    no_flush_fault = h.no_flush_fault;
  };
}

flush_on-Quiet :
    (s r : InnerStream) (t : Transport) (m : Exec Transport (Unit {0}))
    → Quiet s t
    → Quiet s (m t).1
    → Quiet s (on_stream r m t).1
unfolding on_stream
flush_on-Quiet s upgrading t m h k = h
flush_on-Quiet s plain t m h k = k
flush_on-Quiet s rustls_tls t m h k = k
flush_on-Quiet s openssl_tls t m h k = k
flush_on-Quiet s mock t m h k = k

flush-Quiet : (s : InnerStream) → Keeps (Quiet s) flush
unfolding flush behind
flush-Quiet s = record {
  at = λ t h. flush_on-Quiet s t.stream t _ h (record {
    on = h.on;
    no_write_fault = h.no_write_fault;
    no_flush_fault = ap behind h.no_flush_fault;
  });
}

receive-net : (o : ReadOutcome) (t : Transport) → (receive o t).1.net ≡ t.net
unfolding receive
receive-net (received []) t = refl
receive-net (received (c ∷ s)) t = refl
receive-net elapsed t = refl
receive-net (failed e) t = refl

read_from-Quiet : (s : InnerStream) (events : List ReadEvent) → Keeps (Quiet s) (read_from events)
unfolding read_from
read_from-Quiet s [] = record {
  at = λ t h. record {
    on = (read_from-SameLink [] t).stream_eq ∙ h.on;
    no_write_fault =
        ap (λ (n : Net). n.writes) (receive-net (received []) (record t { buffered = 0 }))
        ∙ h.no_write_fault;
    no_flush_fault =
        ap (λ (n : Net). n.flushes) (receive-net (received []) (record t { buffered = 0 }))
        ∙ h.no_flush_fault;
  };
}
read_from-Quiet s (e ∷ rest) = record {
  at = λ t h.
      let u : Transport = record t { buffered = e.left; net = record t.net { reads = rest } } in
      record {
        on = (read_from-SameLink (e ∷ rest) t).stream_eq ∙ h.on;
        no_write_fault = ap (λ (n : Net). n.writes) (receive-net e.outcome u) ∙ h.no_write_fault;
        no_flush_fault = ap (λ (n : Net). n.flushes) (receive-net e.outcome u) ∙ h.no_flush_fault;
      };
}

pub Quiet-discipline : (s : InnerStream) → Discipline (Quiet s) (λ _. Unit {0})
Quiet-discipline s = record {
  write = λ text q. write_all-Quiet s text;
  flushed = flush-Quiet s;
  read = λ events. read_from-Quiet s events;
  line_end = tt;
}

-- A text that was handed to the stream `s`.
abbrev pub on_channel : InnerStream → Text → Sent
on_channel s text = record { channel = s; text = text }

abbrev the_ok : PopResult (Unit {0})
the_ok = ok tt

module _ (s : InnerStream) where
  pub write_all-sent :
      (text : Text) (t : Transport)
      → Quiet s t
      → write_all text t ≡ (ok tt, with_sent (t.sent ++ on_channel s text ∷ []) t)
  unfolding write_all fault behind
  write_all-sent text t h =
      ap
        (λ (w : List (Option IoError)). (
          fault w,
          record t {
            net = record t.net { writes = behind w };
            sent = t.sent ++ on_channel t.stream text ∷ [];
          },
        ))
        h.no_write_fault
      ∙ ap
          (λ (w : List (Option IoError)). (
            the_ok,
            record t {
              net = record t.net { writes = w };
              sent = t.sent ++ on_channel t.stream text ∷ [];
            },
          ))
          (sym h.no_write_fault)
      ∙ ap (λ (r : InnerStream). (the_ok, with_sent (t.sent ++ on_channel r text ∷ []) t)) h.on

  pub flush-kept : (t : Transport) → s ≢ upgrading → Quiet s t → flush t ≡ (ok tt, t)
  unfolding flush fault behind
  flush-kept t live h =
      ap (λ (m : Exec Transport (Unit {0})). m t)
        (on_stream-live t.stream _ (λ e. live (sym h.on ∙ e)))
      ∙ ap
          (λ (w : List (Option IoError)).
            (fault w, record t { net = record t.net { flushes = behind w } }))
          h.no_flush_fault
      ∙ ap
          (λ (w : List (Option IoError)). (the_ok, record t { net = record t.net { flushes = w } }))
          (sym h.no_flush_fault)

  pub with_sent-Quiet : (t : Transport) (l : List Sent) → Quiet s t → Quiet s (with_sent l t)
  with_sent-Quiet t l h = record {
    on = h.on;
    no_write_fault = h.no_write_fault;
    no_flush_fault = h.no_flush_fault;
  }

  -- On a quiet connection a command is sent, its line ending behind it.
  pub send_command-sent :
      (cmd : Text) (t : Transport)
      → s ≢ upgrading
      → Quiet s t
      → send_command cmd t
        ≡ (ok tt, with_sent (t.sent ++ on_channel s cmd ∷ on_channel s crlf ∷ []) t)
  unfolding send_command
  send_command-sent cmd t live h =
      let t1 : Transport = with_sent (t.sent ++ on_channel s cmd ∷ []) t in
      let t2 : Transport = with_sent (t1.sent ++ on_channel s crlf ∷ []) t in
      ap (λ (r : PopResult (Unit {0}) × Transport). continue r (λ _. write_all crlf >> flush))
        (write_all-sent cmd t h)
      ∙ ap (λ (r : PopResult (Unit {0}) × Transport). continue r (λ _. flush))
          (write_all-sent crlf t1 (with_sent-Quiet t t1.sent h))
      ∙ flush-kept t2 live (with_sent-Quiet t t2.sent h)
      ∙ ap (λ (l : List Sent). (the_ok, with_sent l t))
          (append_assoc t.sent (on_channel s cmd ∷ []) (on_channel s crlf ∷ []))
