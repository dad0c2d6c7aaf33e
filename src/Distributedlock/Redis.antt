-- ===== src/Distributedlock/Redis.antt =====
-- distributedlock/distributedlock_redis.go. The server has two kinds of keys: the resource's, with
-- the id of the lock that holds it, and one for each resource and lock, with the count of
-- extensions. A script runs on the server at one instant; PTTL is a command of its own and may come
-- later. Here instants are milliseconds and `at` is the server's clock, which the client shares.

pub mod Laws
pub mod Kept
pub mod Holding
pub mod Late
pub mod Extending
pub mod Retrying
use go_fw.Prelude.{
  ℕ, suc, ◌+◌, ◌*◌, ◌/◌, Bool, true, false, Option, none, some, ltb, ◌==◌, if◌then◌else◌, update,
}
use go_fw.Distributedlock.{BaseLock, Cause, stop_extender}

-- A value, and the instant from which the key is gone, if it goes.
pub record Key : Type 0 where
  pub value : ℕ
  pub until : Option ℕ

pub record Server : Type 0 where
  pub locks : ℕ → Option Key
  pub counts : ℕ → ℕ → Option Key

-- A script whose call fails: the error, and whether the server has run the script all the same.
pub record Fault : Type 0 where
  pub err : ℕ
  pub reached : Bool

-- The answer of a call, or the error that it returns.
pub data Answer : Type 0 where
  answered : Bool → Answer
  failed : ℕ → Answer

-- `ttl.Milliseconds()`
abbrev pub milliseconds : ℕ → ℕ
milliseconds ttl = ttl / 1000000

abbrev pub is_live : ℕ → Option ℕ → Bool
is_live at none = true
is_live at (some until) = ltb at until

-- A key as commands at the instant `at` find it.
abbrev pub live : ℕ → Option Key → Option Key
live at none = none
live at (some k) = if is_live at k.until then some k else none

abbrev pub get_lock : ℕ → Server → BaseLock → Option Key
get_lock at s l = live at (s.locks l.resource)

abbrev pub set_lock : BaseLock → Option Key → Server → Server
set_lock l k s = record s { locks = update s.locks l.resource k }

abbrev pub set_count : BaseLock → Option Key → Server → Server
set_count l k s = record s {
  counts = update s.counts l.resource (update (s.counts l.resource) l.id k);
}

-- The key that holds the lock for its TTL.
abbrev pub own_key : ℕ → BaseLock → Key
own_key at l = record { value = l.id; until = some (at + milliseconds l.ttl) }

-- setNXAndExtendedCountScript: the server, and whether the script returned 1.
abbrev pub set_nx : ℕ → BaseLock → Option Key → Server → Server × Bool
set_nx at l (some k) s = (s, false)
set_nx at l none s = (
  set_count l (some (record { value = 0; until = some (at + milliseconds l.ttl) }))
      (set_lock l (some (own_key at l)) s),
  true,
)

-- deleteKeysScript.
abbrev pub delete_keys : BaseLock → Option Key → Server → Server
delete_keys l none s = s
delete_keys l (some k) s = if k.value == l.id then set_count l none (set_lock l none s) else s

-- EXPIRE, which takes the milliseconds of the TTL for seconds, and INCR, which makes a key that is
-- gone anew, to stay.
abbrev pub incremented : ℕ → BaseLock → Option Key → Key
incremented at l none = record { value = 1; until = none }
incremented at l (some k) = record {
  value = suc k.value;
  until = some (at + milliseconds l.ttl * 1000);
}

-- extendSetsAndIncrExtendedCountScript: the server, and what the script returned.
abbrev pub extend_keys : ℕ → BaseLock → Option Key → Server → Server × ℕ
extend_keys at l none s = (s, 0)
extend_keys at l (some k) s =
    let c = incremented at l (live at (s.counts l.resource l.id)) in
    if k.value == l.id
    then (set_count l (some c) (set_lock l (some (own_key at l)) s), c.value)
    else (s, 0)

-- `time.Now().Add(pttl)` for a key as PTTL finds it: of one that is gone or stays, PTTL is a
-- negative number of nanoseconds, less than a millisecond.
abbrev pub read_expiration : ℕ → Option Key → ℕ
read_expiration at none = at
read_expiration at (some k) = until_or at k.until
  where
    until_or : ℕ → Option ℕ → ℕ
    until_or at none = at
    until_or at (some until) = until

-- What `TryLock` does with the script's answer, with a PTTL at the instant `at`.
unfoldable pub note_locked : ℕ → Server → Bool → BaseLock → BaseLock
note_locked at s false l = l
note_locked at s true l = record l {
  extended_count = 0;
  expiration = some (read_expiration at (get_lock at s l));
}

-- The server after a call that failed, where the script would leave `after`.
abbrev pub left_by : Fault → Server → Server → Server
left_by f after s = if f.reached then after else s

unfoldable pub try_lock : Option Fault → ℕ → Server → BaseLock → (Server × BaseLock) × Answer
unfolding note_locked
try_lock (some f) at s l = ((left_by f (set_nx at l (get_lock at s l) s).0 s, l), failed f.err)
try_lock none at s l =
    let (after, set) = set_nx at l (get_lock at s l) s in
    ((after, note_locked at after set l), answered set)

unfoldable pub unlock : Option Fault → ℕ → Server → BaseLock → (Server × BaseLock) × Option ℕ
unlock (some f) at s l = ((left_by f (delete_keys l (get_lock at s l) s) s, l), some f.err)
unlock none at s l = (
  (
    delete_keys l (get_lock at s l) s,
    record l {
      expiration = none;
      extended_count = 0;
      auto_extender = stop_extender Cause.context_canceled l.auto_extender;
    },
  ),
  none,
)

-- What `Extend` does with the script's answer.
unfoldable pub note_extended : ℕ → Server → ℕ → BaseLock → BaseLock × Bool
note_extended at s count l =
    if count == 0 then (record l { expiration = none; extended_count = 0 }, false) else (
      record l { extended_count = count; expiration = some (read_expiration at (get_lock at s l)) },
      true,
    )

unfoldable pub extend : Option Fault → ℕ → Server → BaseLock → (Server × BaseLock) × Answer
unfolding note_extended
extend (some f) at s l = ((left_by f (extend_keys at l (get_lock at s l) s).0 s, l), failed f.err)
extend none at s l =
    let (after, count) = extend_keys at l (get_lock at s l) s in
    let (m, set) = note_extended at after count l in ((after, m), answered set)
