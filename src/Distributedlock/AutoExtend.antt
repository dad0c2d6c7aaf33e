-- ===== src/Distributedlock/AutoExtend.antt =====
-- `autoExtend` of distributedlock/distributedlock.go, and the goroutine that it starts, for any kind
-- of lock. A TTL does not change.
use go_fw.Prelude.{ℕ, ◌+◌, ◌/◌, Bool, true, false, Option, none, some, List, [], ◌∷◌}
use go_fw.Distributedlock.{
  BaseLock, extending, stop_extender, Cause, lock_not_auto_extended, extend_failed,
}

-- What `Extend` returned.
pub data Extended : Type 0 where
  extended : Bool → Extended
  failed : ℕ → Extended

-- The locks of a kind: what they share, what a call may be met with, and `Extend` at an instant in
-- nanoseconds.
pub record Kind : Type 1 where
  pub Shared : Type 0
  pub Fault : Type 0
  pub extend : Fault → ℕ → Shared → BaseLock → (Shared × BaseLock) × Extended

-- What `autoExtend` returns: the cause of its context's end, an error, or a context, with the
-- extender in the lock.
pub data Started : Type 0 where
  over : ℕ → Started
  not_locked : Started
  started : BaseLock → Started

abbrev pub start_locked : Option ℕ → BaseLock → Started
start_locked none l = not_locked
start_locked (some expiration) l = started (record l { auto_extender = extending })

abbrev pub auto_extend : Option ℕ → BaseLock → Started
auto_extend (some cause) l = over cause
auto_extend none l = start_locked l.expiration l

abbrev pub stop : Cause → BaseLock → BaseLock
stop c l = record l { auto_extender = stop_extender c l.auto_extender }

module _ (k : Kind) where
  open k use {Shared, Fault, extend}

  -- What the goroutine wakes up for: its context is done, or the timer of half the TTL fired, so
  -- many nanoseconds ago, and what its call of `Extend` is met with.
  pub data Wake : Type 0 where
    done : Wake
    elapsed : Fault → ℕ → Wake

  -- What follows an answer of `Extend`: the context is cancelled, or the loop goes on.
  abbrev pub after_extend :
      Extended → Shared → BaseLock → (Shared × BaseLock) × Bool → (Shared × BaseLock) × Bool
  after_extend (failed e) s l rest = ((s, stop (extend_failed e) l), false)
  after_extend (extended false) s l rest = ((s, stop lock_not_auto_extended l), false)
  after_extend (extended true) s l rest = rest

  -- The loop of the goroutine from the instant `now` on, and whether it goes on. The timer is set
  -- when a round begins.
  unfoldable pub extender : List Wake → ℕ → Shared → BaseLock → (Shared × BaseLock) × Bool
  extender [] now s l = ((s, l), true)
  extender (done ∷ ws) now s l = ((s, l), false)
  extender (elapsed fault late ∷ ws) now s l =
      let at = now + l.ttl / 2 + late in
      let ((after, m), answer) = extend fault at s l in
      after_extend answer after m (extender ws at after m)
