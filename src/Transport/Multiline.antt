-- ===== src/Transport/Multiline.antt =====
-- The loop of `read_multiline` of src/transport.rs, and dot-stuffed bodies.
use rust_adv_pop.Prelude.{
  ℕ, ◌≡◌, ◌≢◌, refl, ap, ◌∙◌, true, false, List, [], ◌∷◌, ◌++◌, append-nil, append_assoc, arith,
  ◌==◌, if◌then◌else◌, Bool-cases, inl, inr, All, Lacks,
}
use rust_adv_pop.Text.{Text, lf, crlf, text_eq, strip_prefix, chomp-append}
use rust_adv_pop.Error.{ok}
use rust_adv_pop.Exec.{Exec}
use rust_adv_pop.Transport.{
  InnerStream, plain, rustls_tls, openssl_tls, mock, upgrading, ReadEvent, ReadOutcome, received,
  Transport, on_stream, receive, read_from, multiline_from, read_multiline, is_end, unstuff,
  push_line,
}

-- What a server sends for a line of a body (RFC 1939): a dot at its front is doubled.
abbrev pub stuff : Text → Text
stuff [] = []
stuff (c ∷ line) = if c == b'.' then b'.' ∷ c ∷ line else c ∷ line

-- What the reads come to, whatever stays in the buffer behind each.
abbrev pub heard : List ReadEvent → List ReadOutcome
heard [] = []
heard (e ∷ rest) = e.outcome ∷ heard rest

-- The bytes in the buffer behind the reads, with so many in front of them.
abbrev pub still_buffered : ℕ → List ReadEvent → ℕ
still_buffered n [] = n
still_buffered n (e ∷ rest) = still_buffered e.left rest

-- The lines of a body and the terminator, as the client gets them.
abbrev pub line_outcome : Text → ReadOutcome
line_outcome line = received (line ++ crlf)

abbrev pub body_outcomes : List Text → List ReadOutcome
body_outcomes [] = line_outcome (b'.' ∷ []) ∷ []
body_outcomes (line ∷ rest) = line_outcome (stuff line) ∷ body_outcomes rest

-- A body in the form that the client returns.
abbrev pub body_text : List Text → Text
body_text [] = []
body_text (line ∷ rest) = line ++ (lf ∷ body_text rest)

stuff-Lacks : (line : Text) → Lacks lf line → Lacks lf (stuff line)
stuff-Lacks [] h = tt
stuff-Lacks (c ∷ line) h = elim (Bool-cases (c == b'.')) [
  | inl e ↦ rw e (omega arith, h)
  | inr e ↦ rw e h
]

unstuff-stuff : (line : Text) → unstuff (stuff line) ≡ line
unfolding unstuff strip_prefix
unstuff-stuff [] = refl
unstuff-stuff (c ∷ line) = ground arith

stuff-ne-end : (line : Text) → text_eq (stuff line) (b'.' ∷ []) ≡ false
unfolding text_eq
stuff-ne-end [] = refl
stuff-ne-end (c ∷ line) = ground arith

-- The transport with so many bytes buffered and these reads to come.
abbrev pub after : ℕ → List ReadEvent → Transport → Transport
after n rest t = record t { buffered = n; net = record t.net { reads = rest } }

receive-line :
    (line : Text) (t : Transport) → receive (line_outcome line) t ≡ (ok (line ++ crlf), t)
unfolding receive
receive-line [] t = refl
receive-line (c ∷ line) t = refl

pub read_from-line :
    (line : Text) (e : ReadEvent) (rest : List ReadEvent) (t : Transport)
    → e.outcome ≡ line_outcome line
    → read_from (e ∷ rest) t ≡ (ok (line ++ crlf), after e.left rest t)
unfolding read_from
read_from-line line e rest t h =
    ap (λ (o : ReadOutcome). receive o (after e.left rest t)) h
    ∙ receive-line line (after e.left rest t)

is_end-dot : is_end (b'.' ∷ crlf) ≡ true
unfolding is_end text_eq
is_end-dot = rw (chomp-append (b'.' ∷ []) (omega arith))

is_end-stuff : (line : Text) → Lacks lf line → is_end (stuff line ++ crlf) ≡ false
unfolding is_end
is_end-stuff line h = rw (chomp-append (stuff line) (stuff-Lacks line h)) (stuff-ne-end line)

push_line-stuff :
    (body line : Text)
    → Lacks lf line
    → push_line body (stuff line ++ crlf) ≡ body ++ (line ++ lf ∷ [])
unfolding push_line
push_line-stuff body line h =
    rw (chomp-append (stuff line) (stuff-Lacks line h), unstuff-stuff line)

append_line :
    (body line more : Text) → body ++ (line ++ lf ∷ []) ++ more ≡ body ++ (line ++ lf ∷ more)
append_line body line more = simp append_assoc

multiline_from-lines :
    (lines : List Text) (events rest : List ReadEvent) (body : Text) (t : Transport)
    → heard events ≡ body_outcomes lines
    → All (Lacks lf) lines
    → multiline_from (events ++ rest) body t
      ≡ (ok (body ++ body_text lines), after (still_buffered t.buffered events) rest t)
unfolding multiline_from
multiline_from-lines [] [] rest body t e h = cc
multiline_from-lines (line ∷ more) [] rest body t e h = cc
multiline_from-lines [] (x ∷ []) rest body t e h =
    rw (read_from-line (b'.' ∷ []) x rest t cc) (rw (is_end-dot, append-nil))
multiline_from-lines [] (x ∷ y ∷ events) rest body t e h = cc
multiline_from-lines (line ∷ more) (x ∷ events) rest body t e h =
    rw (read_from-line (stuff line) x (events ++ rest) t cc) (
      rw (is_end-stuff line h.0) (
        rw (push_line-stuff body line h.0) (
          multiline_from-lines more events rest (body ++ (line ++ lf ∷ [])) _ (cc) h.1
          ∙ ap (λ (b : Text). (ok b, after (still_buffered x.left events) rest t))
              (append_line body line (body_text more)))))

pub on_stream-live :
    {A : Type 0} (s : InnerStream) (m : Exec Transport A) → s ≢ upgrading → on_stream s m ≡ m
unfolding on_stream
on_stream-live plain m h = refl
on_stream-live rustls_tls m h = refl
on_stream-live openssl_tls m h = refl
on_stream-live mock m h = refl
on_stream-live upgrading m h = absurd (h refl)

-- On a connection that is not in the middle of an upgrade, the lines of a body that the server sends
-- with their dots stuffed are read back as they were, for lines without a newline and whatever stays
-- in the buffer behind each of them; the reads behind the terminator are left to the next command,
-- with what the read of the terminator has left in the buffer.
pub read_multiline-body :
    (lines : List Text) (events rest : List ReadEvent) (t : Transport)
    → t.stream ≢ upgrading
    → t.net.reads ≡ events ++ rest
    → heard events ≡ body_outcomes lines
    → All (Lacks lf) lines
    → read_multiline t ≡ (
      ok (body_text lines),
      record t { buffered = still_buffered t.buffered events; net = record t.net { reads = rest } },
    )
unfolding read_multiline
read_multiline-body lines events rest t live script sent clean =
    ap (λ (m : Exec Transport Text). m t)
      (on_stream-live t.stream (multiline_from t.net.reads []) live)
    ∙ ap (λ (l : List ReadEvent). multiline_from l [] t) script
    ∙ multiline_from-lines lines events rest [] t sent clean
