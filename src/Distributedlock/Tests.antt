-- ===== src/Distributedlock/Tests.antt =====
-- The theorems on the locks at concrete ones.
use go_fw.Prelude.{ℕ, ◌≤◌, ◌≡◌, refl, arith, true, false, none, some, ltb, List}
use go_fw.Distributedlock.{BaseLock, off}
use go_fw.Distributedlock.Postgres.{Row, Table, Faults, ready, Answer, answered}
use go_fw.Distributedlock.Postgres
use go_fw.Distributedlock.Postgres.Holding.{World, here, next, tries, put, Reach-exclusive}
use go_fw.Distributedlock.Redis.{Key, Server, live, get_lock}
use go_fw.Distributedlock.Redis
use go_fw.Distributedlock.Lease.{IsHeld}
use go_fw.Distributedlock.Redis.Kept.{kind}
use go_fw.Distributedlock.Redis.Holding.{Reach-alone}
use go_fw.Distributedlock.Redis.Holding
use go_fw.Prelude.{[], ◌∷◌}
use go_fw.Distributedlock.Redis.Late.{late_pttl-IsHeld}
use go_fw.Distributedlock.Redis.Laws.{IsHeldFor}
use go_fw.Distributedlock.Retry.{Pause, lock, returned}
use go_fw.Distributedlock.Redis.Retrying.{redis_tries, lock-IsHeldFor}
use go_fw.Distributedlock.Postgres.Retrying.{postgres_tries, IsTaken, lock-IsTaken}
use go_fw.Distributedlock.Local.{LocalLock, IsConsistent, apply, done, apply-IsConsistent}
use go_fw.Distributedlock.Local

abbrev free_lock : BaseLock
free_lock = record {
  resource = 1;
  id = 7;
  ttl = 10000000;
  expiration = none;
  extended_count = 0;
  auto_extender = off;
}

abbrev smooth : Faults
smooth = record { setup = ready; select_err = none; write_err = none; commit_err = none }

abbrev empty_table : Table
empty_table = λ k. none

abbrev old_row : Row
old_row = record { instance_id = 3; expiration = 5; extended_count = 4 }

abbrev used_table : Table
used_table = λ k. some old_row

abbrev beginning : World
beginning = record { now = 0; table = empty_table; locks = λ i. record free_lock { id = i } }

abbrev taken : World
taken = put 7 (Postgres.try_lock_from smooth 0 none empty_table free_lock).0 beginning

Reach-exclusive_example : free_lock.id ≡ 7
unfolding Postgres.try_lock_from Postgres.written
Reach-exclusive_example =
    Reach-exclusive {w = beginning} {v = taken} 7 7 (λ i. (refl, refl))
      (next here (tries 7 0 smooth none refl (omega arith))) refl (omega arith) (omega arith)

abbrev empty_server : Server
empty_server = record { locks = λ k. none; counts = λ k i. none }

abbrev held_server : Server
held_server = record {
  locks = λ k. some (record { value = 7; until = some 12 });
  counts = λ k i. some (record { value = 2; until = some 12 });
}

abbrev first_world : Holding.World
first_world = record { now = 4; server = held_server; locks = λ i. record free_lock { id = i } }

abbrev at_twelve : Holding.World
at_twelve = record first_world { now = 12 }

abbrev second_world : Holding.World
second_world = Holding.put 7 (Redis.try_lock none 12 held_server free_lock).0 at_twelve

Reach-alone_example : free_lock.id ≡ 7
unfolding Redis.try_lock Redis.note_locked
Reach-alone_example =
    Reach-alone {w = first_world} {v = second_world} 7 7 (λ i. (refl, refl))
      (Holding.next (Holding.next Holding.here (Holding.passes 12 (omega arith)))
        (Holding.tries 7 none tt))
      refl (omega arith) (omega arith)

abbrev second_lock : BaseLock
second_lock = record free_lock { id = 8; ttl = 60000000 }

late_pttl-IsHeld_example :
    let (taken, set) = Redis.set_nx 0 free_lock none empty_server in
    let r = Redis.try_lock none 11 taken second_lock in
    (r.1 ≡ Redis.answered true)
    × IsHeld kind 21 r.0.1
    × IsHeld kind 21 (Redis.note_locked 20 r.0.0 set free_lock)
late_pttl-IsHeld_example =
    late_pttl-IsHeld 0 11 20 21 empty_server free_lock second_lock refl refl (omega arith)
      (omega arith) (omega arith) (omega arith)

abbrev local_lock : LocalLock
local_lock = record { base = free_lock; locked = false }

apply-IsConsistent_example : IsConsistent (apply (Local.tries false done) 5 local_lock)
apply-IsConsistent_example =
    apply-IsConsistent (Local.tries false done) 5 local_lock
      (record { expires = refl; uncounted = λ q. refl })

abbrev once_held : Server
once_held = record {
  locks = λ k. some (record { value = 7; until = some 10 });
  counts = λ k i. none;
}

abbrev held_lock : BaseLock
held_lock = record free_lock { expiration = some 10 }

-- Another lock holds the resource until 2.
abbrev other_server : Server
other_server = record {
  locks = λ k. some (record { value = 3; until = some 2 });
  counts = λ k i. none;
}

abbrev redis_pause : ℕ → Pause redis_tries
redis_pause t = record { random = 0; cut_short = none; others = λ s. s; fault = none; next = t }

lock-IsHeldFor_example :
    let pauses : List (Pause redis_tries) = redis_pause 1 ∷ redis_pause 2 ∷ [] in
    let r = lock redis_tries pauses none 0 other_server free_lock in
    (r.1 ≡ returned none) × ((t : ℕ) × (0 ≤ t) × IsHeldFor t free_lock r.0.0 r.0.1)
lock-IsHeldFor_example =
    lock-IsHeldFor 0 2 (redis_pause 1 ∷ redis_pause 2 ∷ []) other_server free_lock (omega arith)
      (refl, refl, λ t s free. free, omega arith, (refl, refl, λ t s free. free, omega arith, tt))
      (λ t u. let q : ltb t 2 ≡ false = ground (arith, u) in rw q refl) (omega arith)

abbrev short_lock : BaseLock
short_lock = record free_lock { ttl = 40 }

abbrev postgres_pause : ℕ → Pause postgres_tries
postgres_pause t = record {
  random = 1;
  cut_short = none;
  others = λ s. s;
  fault = smooth;
  next = t;
}

lock-IsTaken_example :
    let pauses : List (Pause postgres_tries) = postgres_pause 5 ∷ postgres_pause 12 ∷ [] in
    let r = lock postgres_tries pauses smooth 0 used_table short_lock in
    (r.1 ≡ returned none) × ((t : ℕ) × (0 ≤ t) × IsTaken t short_lock r.0.0 r.0.1)
lock-IsTaken_example =
    lock-IsTaken 0 6 (postgres_pause 5 ∷ postgres_pause 12 ∷ []) smooth used_table short_lock
      (omega arith) (refl, refl, refl, refl)
      (
        (refl, refl, refl, refl),
        refl,
        λ t s free. free,
        omega arith,
        ((refl, refl, refl, refl), refl, λ t s free. free, omega arith, tt),
      )
      (λ t u. u) (omega arith)
