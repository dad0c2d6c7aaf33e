-- ===== src/Distributedlock/Redis/Extending.antt =====
-- The goroutine that extends a Redis lock keeps it.
use go_fw.Prelude.{ℕ, ◌+◌, ◌/◌, ◌≤◌, ◌≡◌, Option, none, List, [], ◌∷◌}
use go_fw.Distributedlock.{BaseLock}
use go_fw.Distributedlock.AutoExtend.{Extended, extended, failed, Kind, Wake, elapsed}
use go_fw.Distributedlock.Redis.{Server, Fault, Answer, answered, milliseconds, extend}
use go_fw.Distributedlock.Redis

abbrev pub extended_of : Answer → Extended
extended_of (answered b) = extended b
extended_of (Redis.failed e) = failed e

-- The locks of one server; PTTL comes at the instant of the script. An instant in nanoseconds, in the
-- server's milliseconds.
abbrev pub redis_kind : Kind
redis_kind = record {
  Shared = Server;
  Fault = Option Fault;
  extend = λ fault at s l. let r = extend fault (milliseconds at) s l in (r.0, extended_of r.1);
}

-- Each timer is handled, with a call of `Extend` that does not fail, before half the TTL is over
-- again, less two milliseconds.
abbrev pub AreInTime : ℕ → List ℕ → Type 0
AreInTime ttl [] = Unit
AreInTime ttl (late ∷ lates) = (late + 2000000 ≤ ttl / 2) × AreInTime ttl lates

abbrev pub wakes : List ℕ → List (Wake redis_kind)
wakes [] = []
wakes (late ∷ lates) = elapsed none late ∷ wakes lates

-- The instant of the last call.
abbrev pub last : ℕ → ℕ → List ℕ → ℕ
last now ttl [] = now
last now ttl (late ∷ lates) = last (now + ttl / 2 + late) ttl lates

-- `Extend` changes none of these.
abbrev IsSame : BaseLock → BaseLock → Type 0
IsSame l m = (m.id ≡ l.id) × (m.resource ≡ l.resource) × (m.ttl ≡ l.ttl)
