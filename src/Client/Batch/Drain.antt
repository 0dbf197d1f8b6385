-- ===== src/Client/Batch/Drain.antt =====
-- The responses of a batch of src/client.rs on a quiet connection, whichever way the commands go out.
use rust_adv_pop.Prelude.{
  ℕ, ◌≡◌, ◌≢◌, refl, ap, sym, subst, ◌∙◌, List, [], ◌∷◌, ◌++◌, append_assoc, append-nil, All, false,
}
use rust_adv_pop.Text.{Text, crlf}
use rust_adv_pop.Error.{PopResult, ok, err}
use rust_adv_pop.Exec.{Exec, continue}
use rust_adv_pop.Exec.Keeps.{Keeps}
use rust_adv_pop.Transport.{InnerStream, upgrading, Sent, Transport}
use rust_adv_pop.Transport.Quiet.{
  Quiet, with_sent, with_sent-Quiet, Frames, on_channel, write_all-sent, flush-kept,
}
use rust_adv_pop.Client.Batch.{
  Outcomes, Flow, going, is_io_level, record_response, write_commands, receive_all, after_send,
  run_window, run_windows,
}
use rust_adv_pop.Client.Batch.Windows.{flatten}

module _ {A : Type 0} (response : Exec Transport A) where
  -- One response for each id, one after the other.
  unfoldable pub drain : List ℕ → Transport → Outcomes A × Transport
  drain [] t = ([], t)
  drain (id ∷ rest) t = let (r, t') = response t in let (rs, t'') = drain rest t' in (r ∷ rs, t'')

  pub drain-append :
      (xs ys : List ℕ) (t : Transport)
      → drain (xs ++ ys) t
        ≡ ((drain xs t).0 ++ (drain ys (drain xs t).1).0, (drain ys (drain xs t).1).1)
  unfolding drain
  drain-append [] ys t = refl
  drain-append (id ∷ rest) ys t =
      ap (λ (r : Outcomes A × Transport). ((response t).0 ∷ r.0, r.1))
        (drain-append rest ys (response t).1)

  module _ (frames : Frames response) where
    pub drain-Frames :
        (ids : List ℕ) (t : Transport) (l : List Sent)
        → drain ids (with_sent l t) ≡ ((drain ids t).0, with_sent l (drain ids t).1)
    unfolding drain
    drain-Frames [] t l = refl
    drain-Frames (id ∷ rest) t l =
        ap (λ (r : PopResult A × Transport). (r.0 ∷ (drain rest r.1).0, (drain rest r.1).1))
          (frames.at t l)
        ∙ ap (λ (r : Outcomes A × Transport). ((response t).0 ∷ r.0, r.1))
            (drain-Frames rest (response t).1 l)

  module _ (s : InnerStream) (keeps : Keeps (Quiet s) response) where
    pub drain-Quiet : (ids : List ℕ) (t : Transport) → Quiet s t → Quiet s (drain ids t).1
    unfolding drain
    drain-Quiet [] t h = h
    drain-Quiet (id ∷ rest) t h = drain-Quiet rest (response t).1 (keeps.at t h)

-- The result does not end a batch.
abbrev pub IsSettled : {A : Type 0} → PopResult A → Type 0
IsSettled (ok a) = Unit
IsSettled (err e) = is_io_level e ≡ false

All-left : {A : Type 0} (P : A → Type 0) (xs ys : List A) → All P (xs ++ ys) → All P xs
All-left P [] ys h = tt
All-left P (x ∷ xs) ys (px, h) = (px, All-left P xs ys h)

All-right : {A : Type 0} (P : A → Type 0) (xs ys : List A) → All P (xs ++ ys) → All P ys
All-right P [] ys h = h
All-right P (x ∷ xs) ys (px, h) = All-right P xs ys h

record_settled :
    {A : Type 0} (total : ℕ) (r : PopResult A) (rs : Outcomes A)
    → IsSettled r
    → record_response total r rs ≡ going (rs ++ r ∷ [])
unfolding record_response
record_settled total (ok a) rs h = refl
record_settled total (err e) rs h = rw h

receive_all-drain :
    {A : Type 0} (command : ℕ → Text) (response : Exec Transport A) (total : ℕ) (ids : List ℕ)
    → (rs : Outcomes A) (t : Transport) → All IsSettled (drain response ids t).0
    → receive_all command response total ids (going rs) t
      ≡ (going (rs ++ (drain response ids t).0), (drain response ids t).1)
unfolding receive_all drain
receive_all-drain command response total [] rs t h =
    ap (λ (l : Outcomes _). (going l, t)) (sym (append-nil rs))
receive_all-drain command response total (id ∷ rest) rs t (one, more) =
    ap (λ (f : Flow _). receive_all command response total rest f (response t).1)
      (record_settled total (response t).0 rs one)
    ∙ receive_all-drain command response total rest (rs ++ (response t).0 ∷ []) (response t).1 more
    ∙ ap (λ (l : Outcomes _). (going l, (drain response rest (response t).1).1))
        (append_assoc rs ((response t).0 ∷ []) (drain response rest (response t).1).0)

-- The texts of a pipelined batch: each command with its line ending.
abbrev pub batched : InnerStream → (ℕ → Text) → List ℕ → List Sent
batched s command [] = []
batched s command (id ∷ rest) = on_channel s (command id ++ crlf) ∷ batched s command rest

batched-append :
    (s : InnerStream) (command : ℕ → Text) (xs ys : List ℕ)
    → batched s command (xs ++ ys) ≡ batched s command xs ++ batched s command ys
batched-append s command [] ys = refl
batched-append s command (x ∷ xs) ys =
    ap (λ l. on_channel s (command x ++ crlf) ∷ l) (batched-append s command xs ys)

-- The texts of the commands one at a time: each command, and then its line ending.
abbrev pub singles : InnerStream → (ℕ → Text) → List ℕ → List Sent
singles s command [] = []
singles s command (id ∷ rest) =
    on_channel s (command id) ∷ on_channel s crlf ∷ singles s command rest

module _ (s : InnerStream) (live : s ≢ upgrading) (command : ℕ → Text) where
  write_commands-sent :
      (ids : List ℕ) (t : Transport)
      → Quiet s t
      → write_commands command ids t ≡ (ok tt, with_sent (t.sent ++ batched s command ids) t)
  unfolding write_commands
  write_commands-sent [] t h =
      flush-kept s t live h
      ∙ ap (λ (l : List Sent). (ok tt, with_sent l t)) (sym (append-nil t.sent))
  write_commands-sent (id ∷ rest) t h =
      let l = t.sent ++ on_channel s (command id ++ crlf) ∷ [] in
      ap (λ (r : PopResult (Unit {0}) × Transport). continue r (λ _. write_commands command rest))
        (write_all-sent s (command id ++ crlf) t h)
      ∙ write_commands-sent rest (with_sent l t) (with_sent-Quiet s t l h)
      ∙ ap (λ (m : List Sent). (ok tt, with_sent m t))
          (append_assoc t.sent (on_channel s (command id ++ crlf) ∷ []) (batched s command rest))

  module _ {A : Type 0} (response : Exec Transport A) (frames : Frames response)
      (keeps : Keeps (Quiet s) response) where
    run_window-drain :
        (total : ℕ) (ids : List ℕ) (rs : Outcomes A) (t : Transport)
        → Quiet s t
        → All IsSettled (drain response ids t).0
        → run_window command response total ids (going rs) t ≡ (
          going (rs ++ (drain response ids t).0),
          with_sent (t.sent ++ batched s command ids) (drain response ids t).1,
        )
    unfolding run_window after_send
    run_window-drain total ids rs t h settled =
        let l = t.sent ++ batched s command ids in
        let moved = drain-Frames response frames ids t l in
        ap (λ (r : PopResult (Unit {0}) × Transport). after_send command response total ids rs r)
          (write_commands-sent ids t h)
        ∙ receive_all-drain command response total ids rs (with_sent l t)
            (subst (λ (d : Outcomes A × Transport). All IsSettled d.0) (sym moved) settled)
        ∙ ap (λ (d : Outcomes A × Transport). (going (rs ++ d.0), d.1)) moved

    pub run_windows-drain :
        (total : ℕ) (windows : List (List ℕ)) (rs : Outcomes A) (t : Transport)
        → Quiet s t
        → All IsSettled (drain response (flatten windows) t).0
        → run_windows command response total windows (going rs) t ≡ (
          going (rs ++ (drain response (flatten windows) t).0),
          with_sent
              (t.sent ++ batched s command (flatten windows))
              (drain response (flatten windows) t).1,
        )
    unfolding run_windows drain
    run_windows-drain total [] rs t h settled =
        ap (λ (l : Outcomes A). (going l, t)) (sym (append-nil rs))
        ∙ ap (λ (l : List Sent). (going (rs ++ []), with_sent l t)) (sym (append-nil t.sent))
    run_windows-drain total (ids ∷ rest) rs t h settled =
        let split = drain-append response ids (flatten rest) t in
        let first = drain response ids t in
        let second = drain response (flatten rest) first.1 in
        let both = subst (λ (d : Outcomes A × Transport). All IsSettled d.0) split settled in
        let l = t.sent ++ batched s command ids in
        let u : Transport = with_sent l first.1 in
        let moved = drain-Frames response frames (flatten rest) first.1 l in
        ap (λ (w : Flow A × Transport). run_windows command response total rest w.0 w.1)
          (run_window-drain total ids rs t h (All-left IsSettled first.0 second.0 both))
        ∙ run_windows-drain total rest (rs ++ first.0) u
            (with_sent-Quiet s first.1 l (drain-Quiet response s keeps ids t h))
            (subst (λ (d : Outcomes A × Transport). All IsSettled d.0) (sym moved)
              (All-right IsSettled first.0 second.0 both))
        ∙ ap
            (λ (d : Outcomes A × Transport). (
              going ((rs ++ first.0) ++ d.0),
              with_sent (l ++ batched s command (flatten rest)) d.1,
            ))
            moved
        ∙ ap
            (λ (o : Outcomes A).
              (going o, with_sent (l ++ batched s command (flatten rest)) second.1))
            (append_assoc rs first.0 second.0)
        ∙ ap (λ (m : List Sent). (going (rs ++ (first.0 ++ second.0)), with_sent m second.1))
            (append_assoc t.sent (batched s command ids) (batched s command (flatten rest))
              ∙ ap (λ (m : List Sent). t.sent ++ m)
                  (sym (batched-append s command ids (flatten rest))))
        ∙ ap
            (λ (d : Outcomes A × Transport). (
              going (rs ++ d.0),
              with_sent (t.sent ++ batched s command (ids ++ flatten rest)) d.1,
            ))
            (sym split)
