-- ===== src/Distributedlock/Redis/Late.antt =====
-- The PTTL of a Redis lock, which is a command of its own, when it comes late.
use go_fw.Prelude.{
  ℕ, ◌+◌, ◌<◌, ◌≤◌, ◌≡◌, refl, true, false, none, some, ltb, arith, update, update_self,
}
use go_fw.Distributedlock.{BaseLock}
use go_fw.Distributedlock.Lease.{IsHeld}
use go_fw.Distributedlock.Redis.{
  Server, answered, milliseconds, get_lock, own_key, set_nx, note_locked, try_lock,
}
use go_fw.Distributedlock.Redis.Kept.{kind}

-- The script of one lock has taken a free resource. Its TTL passes before its PTTL, and another
-- lock's `TryLock`, which answers true, comes between. The PTTL, which comes before the other's TTL
-- is over, then reads the other's expiration, and from then on until the other's TTL is over both
-- locks take themselves to be held.
pub late_pttl-IsHeld :
    (t0 t1 t2 t : ℕ) (s : Server) (a b : BaseLock)
    → a.resource ≡ b.resource
    → get_lock t0 s a ≡ none
    → t0 + milliseconds a.ttl ≤ t1
    → t1 ≤ t2
    → t2 ≤ t
    → t < t1 + milliseconds b.ttl
    → let (taken, set) = set_nx t0 a (get_lock t0 s a) s in
      let r = try_lock none t1 taken b in
      (r.1 ≡ answered true) × IsHeld kind t r.0.1 × IsHeld kind t (note_locked t2 r.0.0 set a)
unfolding try_lock note_locked
late_pttl-IsHeld t0 t1 t2 t s a b same free over le later until =
    let gone : ltb t1 (t0 + milliseconds a.ttl) ≡ false = ground arith in
    let now : ltb t1 (t1 + milliseconds b.ttl) ≡ true = ground arith in
    let then : ltb t2 (t1 + milliseconds b.ttl) ≡ true = ground arith in
    let taken = update s.locks b.resource (some (own_key t0 a)) in
    rw
      (
        free,
        same,
        update_self s.locks b.resource (some (own_key t0 a)),
        gone,
        update_self taken b.resource (some (own_key t1 b)),
        now,
        then,
      )
      (refl, until, until)
