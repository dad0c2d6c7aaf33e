-- ===== src/Distributedlock/Redis/Retrying.antt =====
-- A Redis lock that is waited for.
use go_fw.Prelude.{
  ℕ, ◌+◌, ◌*◌, ◌/◌, ◌<◌, ◌≤◌, ◌≡◌, ◌∙◌, refl, sym, inl, inr, none-some, Bool, false, Option, none,
  some, List, arith, length,
}
use go_fw.Distributedlock.{BaseLock}
use go_fw.Distributedlock.Retry.{Kind, returned, Pause, lock}
use go_fw.Distributedlock.Retry.Waiting.{Waits, AreQuiet, IsFreeBy, lock-Locks}
use go_fw.Distributedlock.Redis.{
  Server, Fault, Answer, answered, failed, milliseconds, live, try_lock,
}
use go_fw.Distributedlock.Redis.Laws.{IsHeldFor, try_lock-IsHeldFor}

abbrev pub results_of : Answer → Bool × Option ℕ
results_of (answered b) = (b, none)
results_of (failed e) = (false, some e)

-- The locks of one server; PTTL comes at the instant of the script.
abbrev pub redis_tries : Kind
redis_tries = record {
  Shared = Server;
  Fault = Option Fault;
  try_lock = λ err at s l. let r = try_lock err at s l in (r.0, results_of r.1);
}

abbrev pub redis_waits : Waits redis_tries
redis_waits = record {
  span = milliseconds;
  Fine = λ f. f ≡ none;
  IsFree = λ t j s. live t (s.locks j) ≡ none;
  IsTaken = IsHeldFor;
  spans = λ d r. omega arith;
  spans_part = λ ttl p. (omega (arith, p), omega (arith, p));
  tries = λ f at s l fine p. elim (try_lock-IsHeldFor at s l p) [
    | inl (free, a, held) ↦ rw (fine, a) (inl (refl, held))
    | inr (k, e, same) ↦ rw (fine, same) (inr (refl, λ free. none-some k (sym free ∙ e)))
  ];
}

-- `Lock` ends and takes the resource: if the key that is there is gone by an instant, and nobody
-- takes it again meanwhile, then as many sleeps as the tenth of the TTL fits into the time until
-- then are enough. `Lock` returns no error, the server's key of the resource is the lock's, and the
-- lock takes itself to be held until its TTL is over. No call fails, no sleep is cut short or ends
-- too early, and the tenth of the TTL is a millisecond at least.
pub lock-IsHeldFor :
    (at until : ℕ) (pauses : List (Pause redis_tries)) (s : Server) (l : BaseLock)
    → 0 < milliseconds (l.ttl / 10)
    → AreQuiet redis_tries redis_waits at l pauses
    → IsFreeBy redis_tries redis_waits until l s
    → until ≤ at + length pauses * milliseconds (l.ttl / 10)
    → let r = lock redis_tries pauses none at s l in
      (r.1 ≡ returned none) × ((t : ℕ) × (at ≤ t) × IsHeldFor t l r.0.0 r.0.1)
lock-IsHeldFor at until pauses s l p quiet free enough =
    lock-Locks redis_tries redis_waits at until pauses none s l p refl quiet free enough
