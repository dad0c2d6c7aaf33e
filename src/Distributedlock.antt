-- ===== src/Distributedlock.antt =====
-- distributedlock/distributedlock.go: the fields that the three kinds of lock share. Instants are
-- nanoseconds, and the zero `time.Time` is `none`. A lock's id is a number that stands for its UUID.
pub mod Lease
pub mod AutoExtend
pub mod Retry
pub mod Postgres
pub mod Redis
pub mod Local
pub mod Tests
use go_fw.Prelude.{ℕ, Option, none, Bool}

-- The field `autoExtenderCancel`: nil, or a function that cancels the context of the extender, and
-- whether it ran, with its cause.
pub data Cause : Type 0 where
  context_canceled lock_not_auto_extended : Cause
  extend_failed : ℕ → Cause

pub data Extender : Type 0 where
  off extending : Extender
  stopped : Cause → Extender

pub record BaseLock : Type 0 where
  pub resource : ℕ
  pub id : ℕ
  pub ttl : ℕ
  pub expiration : Option ℕ
  pub extended_count : ℕ
  pub auto_extender : Extender

-- `if l.autoExtenderCancel != nil`: the context is cancelled and the field set to nil. The field
-- keeps what the extender was stopped with; the source's nil is `off` or `stopped`.
abbrev pub stop_extender : Cause → Extender → Extender
stop_extender c off = off
stop_extender c extending = stopped c
stop_extender c (stopped d) = stopped d
