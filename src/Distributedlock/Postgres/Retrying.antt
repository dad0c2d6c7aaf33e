-- ===== src/Distributedlock/Postgres/Retrying.antt =====
-- A Postgres lock that is waited for.
use go_fw.Prelude.{
  ℕ, ◌+◌, ◌*◌, ◌/◌, ◌<◌, ◌≤◌, ◌≡◌, refl, inl, inr, Bool, Option, none, some, List, arith, length,
  Returns,
}
use go_fw.Distributedlock.{BaseLock}
use go_fw.Distributedlock.Retry.{Kind, returned, Pause, lock}
use go_fw.Distributedlock.Retry.Waiting.{Waits, AreQuiet, IsFreeBy, lock-Locks}
use go_fw.Distributedlock.Postgres.{Table, Faults, interval, Answer, answered, failed, try_lock}
use go_fw.Distributedlock.Postgres.Laws.{IsSmooth, IsFree, try_lock_correct}

abbrev pub results_of : Answer → Bool × Option ℕ
results_of (answered b) = (b, none)
results_of (failed b e) = (b, some e)

-- The locks of one table.
abbrev pub postgres_tries : Kind
postgres_tries = record {
  Shared = Table;
  Fault = Faults;
  try_lock = λ f at table l. let r = try_lock f at table l in (r.0, results_of r.1);
}

-- The row is the lock's and ends when the lock's TTL, rounded to microseconds, is over, and the lock
-- says so.
abbrev pub IsTaken : ℕ → BaseLock → Table → BaseLock → Type 0
IsTaken at l table m =
    (m ≡ record l { expiration = some (at + interval l.ttl) })
    × Returns (λ x. (x.instance_id ≡ l.id) × (x.expiration ≡ at + interval l.ttl))
        (table l.resource)

abbrev pub postgres_waits : Waits postgres_tries
postgres_waits = record {
  span = λ d. d;
  Fine = IsSmooth;
  IsFree = λ t j table. IsFree t (table j);
  IsTaken = IsTaken;
  spans = λ d r. omega arith;
  spans_part = λ ttl p. (omega (arith, p), omega (arith, p));
  tries = λ f at table l fine p. elim (try_lock_correct f at table l fine) [
    | inl (a, free, m, row) ↦ inl (rw a refl, (m, row))
    | inr (same, busy) ↦ inr (rw same refl, busy)
  ];
}

-- `Lock` ends and takes the resource: if its row is over by an instant, and nobody takes it again
-- meanwhile, then as many sleeps as the tenth of the TTL fits into the time until then are enough.
-- `Lock` returns no error, the row is the lock's until the TTL, rounded to microseconds, is over, and
-- the lock says so. No statement fails, no sleep is cut short or ends too early, and the TTL is ten
-- nanoseconds at least.
pub lock-IsTaken :
    (at until : ℕ) (pauses : List (Pause postgres_tries)) (f : Faults) (table : Table)
    (l : BaseLock)
    → 0 < l.ttl / 10
    → IsSmooth f
    → AreQuiet postgres_tries postgres_waits at l pauses
    → IsFreeBy postgres_tries postgres_waits until l table
    → until ≤ at + length pauses * (l.ttl / 10)
    → let r = lock postgres_tries pauses f at table l in
      (r.1 ≡ returned none) × ((t : ℕ) × (at ≤ t) × IsTaken t l r.0.0 r.0.1)
lock-IsTaken at until pauses f table l p smooth quiet free enough =
    lock-Locks postgres_tries postgres_waits at until pauses f table l p smooth quiet free enough
