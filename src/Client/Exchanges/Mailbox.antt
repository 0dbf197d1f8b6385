-- ===== src/Client/Exchanges/Mailbox.antt =====
-- Invariants of the mailbox commands, batches and incremental sync of src/client.rs.
use rust_adv_pop.Prelude.{
  ℕ, Option, none, some, List, [], ◌∷◌, ◌++◌, arith, All-append, Lacks, Bool-cases, inl, inr,
}
use rust_adv_pop.Text.{Text, codes, cr, lf, decimal}
use rust_adv_pop.Error.{PopResult}
use rust_adv_pop.Types.{UidlEntry}
use rust_adv_pop.Exec.{Exec, pure, lift, ◌>>=◌, ◌>>◌}
use rust_adv_pop.Exec.Keeps.{Keeps, Keeps-pure, Keeps-lift, Keeps-bind}
use rust_adv_pop.Transport.{read_multiline}
use rust_adv_pop.Client.{
  Pop3Client, over, send_and_check, require_auth, validate_message_id, no_value, stat, list, uidl,
  retr, dele, rset, noop, top,
}
use rust_adv_pop.Client.Batch.{
  Outcomes, each, sequential, validate_all, run_batch, retr_many, dele_many,
}
use rust_adv_pop.Client.Sync.{unseen_uids, fetch_each, fetch_unseen, prune_seen}
use rust_adv_pop.Client.Exchanges.{Habit, still-Keeps, require_auth-still, decimal-Lacks}

each-at :
    {A : Type 0} {R : Pop3Client → Type 0} (op : ℕ → Exec Pop3Client A)
    → ((id : ℕ) → Keeps R (op id))
    → (ids : List ℕ) (c : Pop3Client) → R c
    → R (each op ids c).1
unfolding each
each-at op k [] c h = h
each-at op k (id ∷ rest) c h = each-at op k rest (op id c).1 ((k id).at c h)

sequential-Keeps :
    {A : Type 0} {R : Pop3Client → Type 0} (op : ℕ → Exec Pop3Client A)
    → ((id : ℕ) → Keeps R (op id))
    → (ids : List ℕ) → Keeps R (sequential op ids)
unfolding sequential
sequential-Keeps op k ids = record { at = λ c h. each-at op k ids c h }

run_batch-Keeps :
    {A : Type 0} {R : Pop3Client → Type 0} (slow fast : Exec Pop3Client (Outcomes A)) (ids : List ℕ)
    → Keeps R slow
    → Keeps R fast
    → Keeps R (run_batch slow fast ids)
run_batch-Keeps slow fast [] ks kf = record { at = λ c h. h }
run_batch-Keeps slow fast (id ∷ rest) ks kf = record {
  at = λ c h. elim (Bool-cases c.is_pipelining) [
    | inl e ↦ simp e (kf.at c h)
    | inr e ↦ simp e (ks.at c h)
  ];
}

-- A keyword and a number.
pub keyword-Lacks :
    (word : Text) (n : ℕ)
    → Lacks cr word × Lacks lf word
    → Lacks cr (word ++ decimal n) × Lacks lf (word ++ decimal n)
keyword-Lacks word n (no_cr, no_lf) =
    let (digits_cr, digits_lf) = decimal-Lacks n in
    (All-append _ word (decimal n) no_cr digits_cr, All-append _ word (decimal n) no_lf digits_lf)

module _ {R : Pop3Client → Type 0} (habit : Habit R) where
  -- A command behind the guard for authentication.
  pub guarded-Keeps : {A : Type 0} (m : Exec Pop3Client A) → Keeps R m → Keeps R (require_auth >> m)
  guarded-Keeps m k =
      Keeps-bind require_auth (λ _. m) (still-Keeps require_auth require_auth-still) (λ _. k)

  -- A command with an id, behind the check of the id.
  id-Keeps :
      {A : Type 0} (id : ℕ) (m : Exec Pop3Client A)
      → Keeps R m
      → Keeps R (require_auth >> (lift (validate_message_id id) >> m))
  id-Keeps id m k =
      guarded-Keeps _ (Keeps-bind (lift (validate_message_id id)) (λ _. m) (Keeps-lift _) (λ _. k))

  no_value-Keeps : {A : Type 0} (m : Exec Pop3Client A) → Keeps R m → Keeps R (no_value m)
  no_value-Keeps m k = Keeps-bind m (λ _. pure tt) k (λ _. Keeps-pure tt)

  -- A command, its multi-line response, and what is made of the body.
  multi-Keeps :
      {A : Type 0} (cmd : Text) (finish : Text → PopResult A)
      → Lacks cr cmd × Lacks lf cmd
      → Keeps R (send_and_check cmd >> (over read_multiline >>= λ body. lift (finish body)))
  multi-Keeps cmd finish clean =
      Keeps-bind (send_and_check cmd) _ (habit.command cmd clean)
        (λ _. Keeps-bind (over read_multiline) _ habit.body (λ body. Keeps-lift _))

  pub stat-Keeps : Keeps R stat
  unfolding stat
  stat-Keeps = guarded-Keeps _ (
      Keeps-bind _ _ (habit.command (codes "STAT") (omega arith, omega arith))
        (λ text. Keeps-lift _))

  pub list-Keeps : (id : Option ℕ) → Keeps R (list id)
  unfolding list
  list-Keeps none = guarded-Keeps _ (multi-Keeps (codes "LIST") _ (omega arith, omega arith))
  list-Keeps (some id) = id-Keeps id _ (
      Keeps-bind _ _ (habit.command _ (keyword-Lacks (codes "LIST ") id (omega arith, omega arith)))
        (λ text. Keeps-bind _ _ (Keeps-lift _) (λ entry. Keeps-pure _)))

  pub uidl-Keeps : (id : Option ℕ) → Keeps R (uidl id)
  unfolding uidl
  uidl-Keeps none = guarded-Keeps _ (multi-Keeps (codes "UIDL") _ (omega arith, omega arith))
  uidl-Keeps (some id) = id-Keeps id _ (
      Keeps-bind _ _ (habit.command _ (keyword-Lacks (codes "UIDL ") id (omega arith, omega arith)))
        (λ text. Keeps-bind _ _ (Keeps-lift _) (λ entry. Keeps-pure _)))

  pub retr-Keeps : (id : ℕ) → Keeps R (retr id)
  unfolding retr
  retr-Keeps id =
      id-Keeps id _ (multi-Keeps _ _ (keyword-Lacks (codes "RETR ") id (omega arith, omega arith)))

  pub dele-Keeps : (id : ℕ) → Keeps R (dele id)
  unfolding dele
  dele-Keeps id = id-Keeps id _ (
      no_value-Keeps _
        (habit.command _ (keyword-Lacks (codes "DELE ") id (omega arith, omega arith))))

  pub rset-Keeps : Keeps R rset
  unfolding rset
  rset-Keeps =
      guarded-Keeps _ (no_value-Keeps _ (habit.command (codes "RSET") (omega arith, omega arith)))

  pub noop-Keeps : Keeps R noop
  unfolding noop
  noop-Keeps =
      guarded-Keeps _ (no_value-Keeps _ (habit.command (codes "NOOP") (omega arith, omega arith)))

  pub top-Keeps : (id n : ℕ) → Keeps R (top id n)
  unfolding top
  top-Keeps id n =
      let (id_cr, id_lf) = decimal-Lacks id in
      let (n_cr, n_lf) = decimal-Lacks n in
      id-Keeps id _ (
        multi-Keeps _ _ (
          All-append _ (codes "TOP ") _ (omega arith)
              (All-append _ (decimal id) _ id_cr (omega arith, n_cr)),
          All-append _ (codes "TOP ") _ (omega arith)
              (All-append _ (decimal id) _ id_lf (omega arith, n_lf)),
        ))

  pub retr_many-Keeps : (ids : List ℕ) → Keeps R (retr_many ids)
  unfolding retr_many
  retr_many-Keeps ids = guarded-Keeps _ (
      Keeps-bind _ _ (Keeps-lift (validate_all ids))
        (λ _. run_batch-Keeps _ _ ids (sequential-Keeps retr retr-Keeps ids) (habit.retr_pipe ids)))

  pub dele_many-Keeps : (ids : List ℕ) → Keeps R (dele_many ids)
  unfolding dele_many
  dele_many-Keeps ids = guarded-Keeps _ (
      Keeps-bind _ _ (Keeps-lift (validate_all ids))
        (λ _. run_batch-Keeps _ _ ids (sequential-Keeps dele dele-Keeps ids) (habit.dele_pipe ids)))

  pub unseen_uids-Keeps : (seen : List Text) → Keeps R (unseen_uids seen)
  unfolding unseen_uids
  unseen_uids-Keeps seen = Keeps-bind _ _ (uidl-Keeps none) (λ entries. Keeps-pure _)

  fetch_each-Keeps : (entries : List UidlEntry) → Keeps R (fetch_each entries)
  unfolding fetch_each
  fetch_each-Keeps [] = Keeps-pure _
  fetch_each-Keeps (e ∷ rest) =
      Keeps-bind _ _ (retr-Keeps e.message_id)
        (λ msg. Keeps-bind _ _ (fetch_each-Keeps rest) (λ others. Keeps-pure _))

  pub fetch_unseen-Keeps : (seen : List Text) → Keeps R (fetch_unseen seen)
  unfolding fetch_unseen
  fetch_unseen-Keeps seen = Keeps-bind _ _ (unseen_uids-Keeps seen) fetch_each-Keeps

  pub prune_seen-Keeps : (seen : List Text) → Keeps R (prune_seen seen)
  unfolding prune_seen
  prune_seen-Keeps seen = Keeps-bind _ _ (uidl-Keeps none) (λ entries. Keeps-pure _)
