-- ===== src/Distributedlock/Postgres/Holding.antt =====
-- Who holds a Postgres lock: the locks of many processes over one table, and the statements of their
-- calls in any order. A transaction may start long before its statements run.
use go_fw.Prelude.{ℕ, ◌≤◌, ◌≡◌, Option, none, update}
use go_fw.Distributedlock.{BaseLock}
use go_fw.Distributedlock.Lease.{
  IsSound, IsHeld, later-IsSound, put-IsSound, IsSound-exclusive, start-IsSound,
}
use go_fw.Distributedlock.Postgres.{Table, Faults, try_lock_from, unlock, extend}
use go_fw.Distributedlock.Postgres.Kept.{kind, try_lock_from-Kept, unlock-Kept, extend-Kept}

-- The clock, the table, and the locks of all processes by their ids.
pub record World : Type 0 where
  pub now : ℕ
  pub table : Table
  pub locks : ℕ → BaseLock

abbrev pub put : ℕ → Table × BaseLock → World → World
put i (table, l) w = record w { table = table; locks = update w.locks i l }

-- One step. A `TryLock` writes on what its SELECT returned, which may be anything by then. Its
-- transaction is committed or rolled back.
pub data Step (w : World) : World → Type 0 where
  passes : (t : ℕ) → w.now ≤ t → Step w (record w { now = t })
  tries :
      (i at : ℕ) (f : Faults) (current : Option ℕ)
      → f.commit_err ≡ none
      → at ≤ w.now
      → Step w (put i (try_lock_from f at current w.table (w.locks i)).0 w)
  unlocks :
      (i at : ℕ) (err : Option ℕ)
      → at ≤ w.now
      → Step w (put i (unlock err at w.table (w.locks i)).0 w)
  extends :
      (i at : ℕ) (err : Option ℕ)
      → at ≤ w.now
      → Step w (put i (extend err at w.table (w.locks i)).0 w)

pub data Reach (w : World) : World → Type 0 where
  here : Reach w w
  next : {v u : World} → Reach w v → Step v u → Reach w u

abbrev AreSound : World → Type 0
AreSound w = IsSound kind w.now w.table w.locks

Step-AreSound : {w v : World} → AreSound w → Step w v → AreSound v
Step-AreSound {w = w} s (passes t le) = later-IsSound kind w.now t w.table w.locks le s
Step-AreSound {w = w} s (tries i at f current committed le) =
    put-IsSound kind w.now w.table w.locks i _ s
      (try_lock_from-Kept w.now at f current w.table (w.locks i) committed le)
Step-AreSound {w = w} s (unlocks i at err le) =
    put-IsSound kind w.now w.table w.locks i _ s (unlock-Kept w.now at err w.table (w.locks i))
Step-AreSound {w = w} s (extends i at err le) =
    put-IsSound kind w.now w.table w.locks i _ s (extend-Kept w.now at err w.table (w.locks i))

Reach-AreSound : {w v : World} → AreSound w → Reach w v → AreSound v
Reach-AreSound s here = s
Reach-AreSound s (next r x) = Step-AreSound (Reach-AreSound s r) x

-- New locks, none held, each with its own id; the table may hold anything.
abbrev pub IsStart : World → Type 0
IsStart w = (i : ℕ) → ((w.locks i).id ≡ i) × ((w.locks i).expiration ≡ none)

-- Mutual exclusion: from locks none of which is held, with distinct ids, no course of calls, in
-- whatever order the statements of their transactions run, leads to two locks for one resource that
-- both take themselves to be held, as long as every transaction is committed or rolled back as its
-- call reports.
pub Reach-exclusive :
    {w v : World} (i j : ℕ)
    → IsStart w
    → Reach w v
    → (v.locks i).resource ≡ (v.locks j).resource
    → IsHeld kind v.now (v.locks i)
    → IsHeld kind v.now (v.locks j)
    → i ≡ j
Reach-exclusive {w = w} {v = v} i j start r same hi hj =
    IsSound-exclusive kind v.now v.table v.locks i j
      (Reach-AreSound (start-IsSound kind w.now w.table w.locks start) r) same hi hj
