-- ===== src/Transport/Discipline.antt =====
-- Invariants of a connection of src/transport.rs under writing, flushing and reading.
use rust_adv_pop.Prelude.{
  ◌≡◌, refl, ap, ◌∙◌, ◌⊎◌, inr, List, [], ◌∷◌, ◌++◌, append_assoc, All, All-append, Lacks,
}
use rust_adv_pop.Text.{Text, cr, lf, crlf}
use rust_adv_pop.Exec.{Exec}
use rust_adv_pop.Exec.Keeps.{Keeps, Keeps-bind, Keeps-if, Keeps-pure}
use rust_adv_pop.Transport.{
  InnerStream, plain, rustls_tls, openssl_tls, mock, upgrading, ReadEvent, ReadOutcome, received,
  elapsed, failed, Sent, Transport, on_stream, write_all, flush, send_command, read_from, read_line,
  receive, fault, behind, multiline_from, read_multiline, is_end, push_line,
}

-- `Q` is what is asked of a text that is written.
pub record Discipline (P : Transport → Type 0) (Q : Text → Type 0) : Type 0 where
  pub write : (text : Text) → Q text → Keeps P (write_all text)
  pub flushed : Keeps P flush
  pub read : (events : List ReadEvent) → Keeps P (read_from events)
  pub line_end : Q crlf

module _ {P : Transport → Type 0} {Q : Text → Type 0} (d : Discipline P Q) where
  pub send_command-Keeps : (cmd : Text) → Q cmd → Keeps P (send_command cmd)
  unfolding send_command
  send_command-Keeps cmd q =
      Keeps-bind _ _ (d.write cmd q)
        (λ _. Keeps-bind _ _ (d.write crlf d.line_end) (λ _. d.flushed))

on_stream-at :
    {A : Type 0} (P : Transport → Type 0) (s : InnerStream) (m : Exec Transport A) (t : Transport)
    → P t
    → P (m t).1
    → P (on_stream s m t).1
unfolding on_stream
on_stream-at P upgrading m t h k = h
on_stream-at P plain m t h k = k
on_stream-at P rustls_tls m t h k = k
on_stream-at P openssl_tls m t h k = k
on_stream-at P mock m t h k = k

module _ {P : Transport → Type 0} {Q : Text → Type 0} (d : Discipline P Q) where
  pub read_line-Keeps : Keeps P read_line
  unfolding read_line
  read_line-Keeps = record {
    at = λ t h. on_stream-at P t.stream (read_from t.net.reads) t h ((d.read t.net.reads).at t h);
  }

  multiline_from-Keeps :
      (events : List ReadEvent) (body : Text) → Keeps P (multiline_from events body)
  unfolding multiline_from
  multiline_from-Keeps [] body = d.read []
  multiline_from-Keeps (e ∷ rest) body =
      Keeps-bind (read_from (e ∷ rest)) _ (d.read (e ∷ rest)) λ line.
        Keeps-if (is_end line) _ _ (Keeps-pure body)
          (multiline_from-Keeps rest (push_line body line))

  pub read_multiline-Keeps : Keeps P read_multiline
  unfolding read_multiline
  read_multiline-Keeps = record {
    at = λ t h.
        on_stream-at P t.stream (multiline_from t.net.reads []) t h
          ((multiline_from-Keeps t.net.reads []).at t h);
  }

-- A read changes nothing of the stream, the encryption mark and what was sent.
pub record SameLink (t u : Transport) : Type 0 where
  pub stream_eq : u.stream ≡ t.stream
  pub encrypted_eq : u.encrypted ≡ t.encrypted
  pub sent_eq : u.sent ≡ t.sent

receive-SameLink : (o : ReadOutcome) (t : Transport) → SameLink t (receive o t).1
unfolding receive
receive-SameLink (received []) t = record { stream_eq = refl; encrypted_eq = refl; sent_eq = refl }
receive-SameLink (received (c ∷ s)) t = record {
  stream_eq = refl;
  encrypted_eq = refl;
  sent_eq = refl;
}
receive-SameLink elapsed t = record { stream_eq = refl; encrypted_eq = refl; sent_eq = refl }
receive-SameLink (failed e) t = record { stream_eq = refl; encrypted_eq = refl; sent_eq = refl }

pub read_from-SameLink :
    (events : List ReadEvent) (t : Transport) → SameLink t (read_from events t).1
unfolding read_from
read_from-SameLink [] t =
    let l = receive-SameLink (received []) (record t { buffered = 0 }) in
    record { stream_eq = l.stream_eq; encrypted_eq = l.encrypted_eq; sent_eq = l.sent_eq }
read_from-SameLink (e ∷ rest) t =
    let l =
      receive-SameLink e.outcome
        (record t { buffered = e.left; net = record t.net { reads = rest } }) in
    record { stream_eq = l.stream_eq; encrypted_eq = l.encrypted_eq; sent_eq = l.sent_eq }

-- One line at most: no carriage return and no newline but a line ending.
pub record IsLine (text : Text) : Type 0 where
  pub body : Text
  pub no_cr : Lacks cr body
  pub no_lf : Lacks lf body
  pub spelled : (text ≡ body) ⊎ (text ≡ body ++ crlf)

-- Every text that was handed to the writer is a line.
abbrev pub SentLines : Transport → Type 0
SentLines t = All (λ (s : Sent). IsLine s.text) t.sent

pub flush-SameLink : (t : Transport) → SameLink t (flush t).1
unfolding flush
flush-SameLink t = flush_on t.stream
  where
    flush_plain : Exec Transport (Unit {0})
    flush_plain u =
        (fault u.net.flushes, record u { net = record u.net { flushes = behind u.net.flushes } })

    flush_on : (s : InnerStream) → SameLink t (on_stream s flush_plain t).1
    flush_on upgrading = record { stream_eq = refl; encrypted_eq = refl; sent_eq = refl }
    flush_on plain = record { stream_eq = refl; encrypted_eq = refl; sent_eq = refl }
    flush_on rustls_tls = record { stream_eq = refl; encrypted_eq = refl; sent_eq = refl }
    flush_on openssl_tls = record { stream_eq = refl; encrypted_eq = refl; sent_eq = refl }
    flush_on mock = record { stream_eq = refl; encrypted_eq = refl; sent_eq = refl }

pub SentLines-discipline : Discipline SentLines IsLine
SentLines-discipline = record {
  write = λ text q. record { at = λ t h. unfold write_all in All-append _ t.sent _ h (q, tt) };
  flushed = record { at = λ t h. rw ((flush-SameLink t).sent_eq) h };
  read = λ events. record { at = λ t h. rw ((read_from-SameLink events t).sent_eq) h };
  line_end = record { body = []; no_cr = tt; no_lf = tt; spelled = inr refl };
}

-- The stream is still `s`, and all that was sent since `start` was handed to it.
pub record OverStream (s : InnerStream) (start : List Sent) (t : Transport) : Type 0 where
  pub on : t.stream ≡ s
  pub more : List Sent
  pub grown : t.sent ≡ start ++ more
  pub over : All (λ (x : Sent). x.channel ≡ s) more

OverStream-SameLink :
    (s : InnerStream) (start : List Sent) (t u : Transport)
    → SameLink t u
    → OverStream s start t
    → OverStream s start u
OverStream-SameLink s start t u l h = record {
  on = l.stream_eq ∙ h.on;
  more = h.more;
  grown = l.sent_eq ∙ h.grown;
  over = h.over;
}

write_all-OverStream :
    (s : InnerStream) (start : List Sent) (text : Text)
    → Keeps (OverStream s start) (write_all text)
unfolding write_all
write_all-OverStream s start text = record {
  at = λ t h. record {
    on = h.on;
    more = h.more ++ record { channel = t.stream; text = text } ∷ [];
    grown =
        ap (λ l. l ++ record { channel = t.stream; text = text } ∷ []) h.grown
        ∙ append_assoc start h.more (record { channel = t.stream; text = text } ∷ []);
    over = All-append _ h.more _ h.over (h.on, tt);
  };
}

pub OverStream-discipline :
    (s : InnerStream) (start : List Sent) → Discipline (OverStream s start) (λ _. Unit {0})
OverStream-discipline s start = record {
  write = λ text q. write_all-OverStream s start text;
  flushed = record { at = λ t h. OverStream-SameLink s start t _ (flush-SameLink t) h };
  read = λ events. record {
    at = λ t h. OverStream-SameLink s start t _ (read_from-SameLink events t) h;
  };
  line_end = tt;
}
