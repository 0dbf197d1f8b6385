-- ===== src/Types.antt =====
-- src/types.rs: the public data types.
use rust_adv_pop.Prelude.{ℕ, List}
use rust_adv_pop.Text.{Text}

pub data SessionState : Type 0 where
  connected authenticated disconnected : SessionState

-- `u32` and `u64` fields are numbers; their range is a theorem about the parsers.
pub record Stat : Type 0 where
  pub message_count : ℕ
  pub mailbox_size : ℕ

pub record ListEntry : Type 0 where
  pub message_id : ℕ
  pub size : ℕ

pub record UidlEntry : Type 0 where
  pub message_id : ℕ
  pub unique_id : Text

-- `data` of the source, which is a keyword here, is `body`.
pub record Message : Type 0 where
  pub body : Text

pub record Capability : Type 0 where
  pub name : Text
  pub arguments : List Text
