-- ===== src/Distributedlock/Redis/Holding.antt =====
-- Who holds a Redis lock: the locks of many processes over one server, with their calls in any order.
use go_fw.Prelude.{ℕ, ◌≤◌, ◌≡◌, Option, none, update}
use go_fw.Distributedlock.{BaseLock}
use go_fw.Distributedlock.Lease.{
  IsSound, IsHeld, later-IsSound, put-IsSound, IsSound-exclusive, start-IsSound,
}
use go_fw.Distributedlock.Redis.{Server, Fault, try_lock, unlock, extend}
use go_fw.Distributedlock.Redis.Kept.{kind, IsUndone, try_lock-Kept, unlock-Kept, extend-Kept}

-- The clock, the server, and the locks of all processes by their ids.
pub record World : Type 0 where
  pub now : ℕ
  pub server : Server
  pub locks : ℕ → BaseLock

abbrev pub put : ℕ → Server × BaseLock → World → World
put i (server, l) w = record w { server = server; locks = update w.locks i l }

-- One step: time passes, or a lock is called, where PTTL comes at the instant of the script. A
-- call that fails has not run its script.
pub data Step (w : World) : World → Type 0 where
  passes : (t : ℕ) → w.now ≤ t → Step w (record w { now = t })
  tries :
      (i : ℕ) (fault : Option Fault)
      → IsUndone fault
      → Step w (put i (try_lock fault w.now w.server (w.locks i)).0 w)
  unlocks :
      (i : ℕ) (fault : Option Fault)
      → IsUndone fault
      → Step w (put i (unlock fault w.now w.server (w.locks i)).0 w)
  extends :
      (i : ℕ) (fault : Option Fault)
      → IsUndone fault
      → Step w (put i (extend fault w.now w.server (w.locks i)).0 w)

pub data Reach (w : World) : World → Type 0 where
  here : Reach w w
  next : {v u : World} → Reach w v → Step v u → Reach w u

abbrev AreSound : World → Type 0
AreSound w = IsSound kind w.now w.server.locks w.locks

Step-AreSound : {w v : World} → AreSound w → Step w v → AreSound v
Step-AreSound {w = w} s (passes t le) = later-IsSound kind w.now t w.server.locks w.locks le s
Step-AreSound {w = w} s (tries i fault undone) =
    put-IsSound kind w.now w.server.locks w.locks i _ s
      (try_lock-Kept w.now fault w.server (w.locks i) undone)
Step-AreSound {w = w} s (unlocks i fault undone) =
    put-IsSound kind w.now w.server.locks w.locks i _ s
      (unlock-Kept w.now fault w.server (w.locks i) undone)
Step-AreSound {w = w} s (extends i fault undone) =
    put-IsSound kind w.now w.server.locks w.locks i _ s
      (extend-Kept w.now fault w.server (w.locks i) undone)

Reach-AreSound : {w v : World} → AreSound w → Reach w v → AreSound v
Reach-AreSound s here = s
Reach-AreSound s (next r x) = Step-AreSound (Reach-AreSound s r) x

-- New locks, none held, each with its own id; the server may hold anything.
abbrev pub IsStart : World → Type 0
IsStart w = (i : ℕ) → ((w.locks i).id ≡ i) × ((w.locks i).expiration ≡ none)

-- Mutual exclusion: from locks none of which is held, with distinct ids, no course of calls leads
-- to two locks for one resource that both take themselves to be held, as long as the PTTL of a call
-- comes at the instant of its script, the server has not run the script of a call that fails, and
-- the processes share the clock of the server.
pub Reach-alone :
    {w v : World} (i j : ℕ)
    → IsStart w
    → Reach w v
    → (v.locks i).resource ≡ (v.locks j).resource
    → IsHeld kind v.now (v.locks i)
    → IsHeld kind v.now (v.locks j)
    → i ≡ j
Reach-alone {w = w} {v = v} i j start r same hi hj =
    IsSound-exclusive kind v.now v.server.locks v.locks i j
      (Reach-AreSound (start-IsSound kind w.now w.server.locks w.locks start) r) same hi hj
