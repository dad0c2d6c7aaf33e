-- ===== src/Distributedlock/Retry.antt =====
-- The loop of `Lock` in distributedlock_postgres.go and in distributedlock_redis.go, which is one
-- code in both. The kind of the lock is a parameter, and so are the pauses between two calls of
-- `TryLock`: the number that `rand` gives, how the sleep ends, and what others do meanwhile. The
-- loop has a call for each pause and one more.
pub mod Waiting
use go_fw.Prelude.{
  ℕ, ◌+◌, ◌/◌, ◌==◌, Bool, true, false, Option, none, some, List, [], ◌∷◌, if◌then◌else◌,
}
use go_fw.Distributedlock.{BaseLock}

-- What the locks of a kind share, what a call may be met with, and `TryLock` at an instant: it
-- returns whether the lock is taken, and an error.
pub record Kind : Type 1 where
  pub Shared : Type 0
  pub Fault : Type 0
  pub try_lock : Fault → ℕ → Shared → BaseLock → (Shared × BaseLock) × (Bool × Option ℕ)

-- How the loop stands: it is asleep, it panics, or it returns an error or none.
pub data Locking : Type 0 where
  asleep panics : Locking
  returned : Option ℕ → Locking

-- The duration of a sleep.
abbrev pub jitter : ℕ → ℕ → ℕ
jitter ttl random = ttl / 10 + random

module _ (k : Kind) where
  open k use {Shared, Fault, try_lock}

  -- `fault` and `next` are what the next call is met with and its instant.
  pub record Pause : Type 0 where
    pub random : ℕ
    pub cut_short : Option ℕ
    pub others : Shared → Shared
    pub fault : Fault
    pub next : ℕ

  -- What the loop does with the results of `TryLock`, before it sleeps.
  abbrev pub conclude :
      (Shared × BaseLock) × (Bool × Option ℕ)
      → (Shared × BaseLock) × Locking
      → (Shared × BaseLock) × Locking
  conclude (x, (locked, some e)) rest = (x, returned (some e))
  conclude (x, (true, none)) rest = (x, returned none)
  conclude (x, (false, none)) rest = rest

  abbrev pub woken :
      Option ℕ → Shared × BaseLock → (Shared × BaseLock) × Locking → (Shared × BaseLock) × Locking
  woken (some e) x rest = (x, returned (some e))
  woken none x rest = rest

  -- `rand.Int63n` panics if it is given 0.
  abbrev pub slept :
      Pause → Shared × BaseLock → (Shared × BaseLock) × Locking → (Shared × BaseLock) × Locking
  slept p x rest =
      let after = woken p.cut_short x rest in if x.1.ttl / 10 == 0 then (x, panics) else after

  unfoldable pub lock : List Pause → Fault → ℕ → Shared → BaseLock → (Shared × BaseLock) × Locking
  lock [] fault at s l = let r = try_lock fault at s l in conclude r (r.0, asleep)
  lock (p ∷ ps) fault at s l =
      let r = try_lock fault at s l in
      let rest = lock ps p.fault p.next (p.others r.0.0) r.0.1 in conclude r (slept p r.0 rest)
