-- ===== src/Builder/Discreet.antt =====
-- Connections before and behind the upgrade that a builder of src/builder.rs asks for.
use rust_adv_pop.Prelude.{◌≡◌, refl, sym, subst, ◌⊎◌, inr, All, All-append}
use rust_adv_pop.Text.{Text, codes, crlf}
use rust_adv_pop.Exec.Keeps.{Keeps}
use rust_adv_pop.Transport.{plain, Sent, Transport, write_all}
use rust_adv_pop.Transport.Upgrade.{IsTls}
use rust_adv_pop.Transport.Discipline.{Discipline, SameLink, flush-SameLink, read_from-SameLink}
use rust_adv_pop.Client.Exchanges.{Habit}
use rust_adv_pop.Client.Batch.Links.{OnLink, link_habit}

-- In plain text there is only the STLS command and its line ending.
abbrev pub StlsOnly : Sent → Type 0
StlsOnly s = s.channel ≡ plain → (s.text ≡ codes "STLS") ⊎ (s.text ≡ crlf)

abbrev pub Discreet : Transport → Type 0
Discreet t = All StlsOnly t.sent

pub Discreet-discipline : Discipline Discreet (λ text. (text ≡ codes "STLS") ⊎ (text ≡ crlf))
Discreet-discipline = record {
  write = λ text q. record {
    at = λ t h. unfold write_all in All-append StlsOnly t.sent _ h ((λ _. q), tt);
  };
  flushed = record { at = λ t h. subst (All StlsOnly) (sym ((flush-SameLink t).sent_eq)) h };
  read = λ events. record {
    at = λ t h. subst (All StlsOnly) (sym ((read_from-SameLink events t).sent_eq)) h;
  };
  line_end = inr refl;
}

-- Behind the upgrade: the stream is TLS, and what was sent before was discreet.
pub record Secured (t : Transport) : Type 0 where
  pub over_tls : IsTls t.stream
  pub before : Discreet t

tls-StlsOnly :
    (t : Transport) (text : Text)
    → IsTls t.stream
    → StlsOnly (record { channel = t.stream; text = text })
tls-StlsOnly t text h = λ p. absurd (subst IsTls p h)

SameLink-Secured : (t u : Transport) → SameLink t u → Secured t → Secured u
SameLink-Secured t u l h = record {
  over_tls = subst IsTls (sym l.stream_eq) h.over_tls;
  before = subst (All StlsOnly) (sym l.sent_eq) h.before;
}

write-Secured : (text : Text) → Keeps Secured (write_all text)
unfolding write_all
write-Secured text = record {
  at = λ t h. record {
    over_tls = h.over_tls;
    before = All-append StlsOnly t.sent _ h.before (tls-StlsOnly t text h.over_tls, tt);
  };
}

Secured-discipline : Discipline Secured (λ text. Unit {0})
Secured-discipline = record {
  write = λ text q. write-Secured text;
  flushed = record { at = λ t h. SameLink-Secured t _ (flush-SameLink t) h };
  read = λ events. record { at = λ t h. SameLink-Secured t _ (read_from-SameLink events t) h };
  line_end = tt;
}

pub Secured-habit : Habit (OnLink Secured)
Secured-habit =
    link_habit Secured-discipline
      (record { line = λ body no_cr no_lf. tt; whole_line = λ body no_cr no_lf. tt })
