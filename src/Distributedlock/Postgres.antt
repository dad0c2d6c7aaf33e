-- ===== src/Distributedlock/Postgres.antt =====
-- distributedlock/distributedlock_postgres.go. The table is a map from the resource to its row. `at`
-- is the instant that `now()` has in a statement, the start of its transaction. Instants are
-- nanoseconds. Each statement may fail instead, which rolls the transaction back.
pub mod Kept
pub mod Holding
pub mod Retrying
pub mod Laws
use go_fw.Prelude.{
  ℕ, suc, ◌+◌, ◌*◌, ◌/◌, Bool, true, false, ◌&&◌, Option, none, some, ltb, ◌==◌, if◌then◌else◌,
  update,
}
use go_fw.Distributedlock.{BaseLock, Cause, stop_extender}

pub record Row : Type 0 where
  pub instance_id : ℕ
  pub expiration : ℕ
  pub extended_count : ℕ

abbrev pub Table : Type 0
Table = ℕ → Option Row

-- The answer of a call, or the error that it returns, with the answer that comes with it.
pub data Answer : Type 0 where
  answered : Bool → Answer
  failed : Bool → ℕ → Answer

-- What `setupDB` comes to, and what the roll back after a lost race comes to.
pub data Setup : Type 0 where
  ready : Setup
  already_initialized : Option ℕ → Setup
  setup_failed : ℕ → Setup

-- The errors of the statements of `TryLock` and of its commit.
pub record Faults : Type 0 where
  pub setup : Setup
  pub select_err : Option ℕ
  pub write_err : Option ℕ
  pub commit_err : Option ℕ

abbrev pub setup_err : Setup → Option ℕ
setup_err ready = none
setup_err (already_initialized e) = e
setup_err (setup_failed e) = some e

-- `TryLock` returns at the first error.
abbrev pub first_err : Option ℕ → Option ℕ → Option ℕ
first_err (some e) later = some e
first_err none later = later

abbrev pub instance_of : Option Row → Option ℕ
instance_of none = none
instance_of (some r) = some r.instance_id

-- INTERVAL '1 second' * ttl.Seconds(): the server rounds an interval to whole
-- microseconds.
abbrev pub interval : ℕ → ℕ
interval ttl = (ttl + 500) / 1000 * 1000

-- The SELECT ... FOR UPDATE.
unfoldable pub select_instance : Table → BaseLock → Option ℕ
select_instance table l = instance_of (table l.resource)

-- The UPDATE of `TryLock` on the row it finds.
unfoldable pub take_over : ℕ → BaseLock → ℕ → Row → Option Row
take_over at l current r =
    if (r.instance_id == current) && ltb r.expiration at
    then some (record r { instance_id = l.id; expiration = at + interval l.ttl })
    else none

abbrev pub new_row : ℕ → BaseLock → Row
new_row at l = record { instance_id = l.id; expiration = at + interval l.ttl; extended_count = 0 }

-- The row that the UPDATE or, if no row was selected, the INSERT writes, if it writes one.
unfoldable pub written : ℕ → BaseLock → Option ℕ → Option Row → Option Row
unfolding take_over
written at l (some current) none = none
written at l (some current) (some r) = take_over at l current r
written at l none none = some (new_row at l)
written at l none (some r) = none

-- The end of `TryLock`. A commit that fails sets the error that is returned, beside the answer.
abbrev pub conclude : Option ℕ → Option Row → Table → BaseLock → (Table × BaseLock) × Answer
conclude none none table l = ((table, l), answered false)
conclude none (some r) table l =
    ((update table l.resource (some r), record l { expiration = some r.expiration }), answered true)
conclude (some e) none table l = ((table, l), failed false e)
conclude (some e) (some r) table l =
    ((table, record l { expiration = some r.expiration }), failed true e)

-- `TryLock` once the SELECT has returned `current`; another transaction may have written since.
unfoldable pub try_lock_from :
    Faults → ℕ → Option ℕ → Table → BaseLock → (Table × BaseLock) × Answer
unfolding written
try_lock_from f at current table l =
    elim (first_err (setup_err f.setup) (first_err f.select_err f.write_err)) [
      | some e ↦ ((table, l), failed false e)
      | none ↦ conclude f.commit_err (written at l current (table l.resource)) table l
    ]

unfoldable pub try_lock : Faults → ℕ → Table → BaseLock → (Table × BaseLock) × Answer
unfolding select_instance try_lock_from
try_lock f at table l = try_lock_from f at (select_instance table l) table l

abbrev pub is_owner : ℕ → BaseLock → Row → Bool
is_owner at l r = (r.instance_id == l.id) && ltb at r.expiration

-- The fields of the lock after `Unlock`.
abbrev pub reset : BaseLock → BaseLock
reset l = record l {
  expiration = none;
  extended_count = 0;
  auto_extender = stop_extender Cause.context_canceled l.auto_extender;
}

abbrev pub unlock_row : ℕ → BaseLock → Option Row → Table → Table
unlock_row at l none table = table
unlock_row at l (some r) table =
    if is_owner at l r then update table l.resource (some (record r { expiration = at })) else table

unfoldable pub unlock : Option ℕ → ℕ → Table → BaseLock → (Table × BaseLock) × Option ℕ
unlock (some e) at table l = ((table, l), some e)
unlock none at table l = ((unlock_row at l (table l.resource) table, reset l), none)

abbrev pub extend_row : ℕ → BaseLock → Option Row → Table → (Table × BaseLock) × Answer
extend_row at l none table =
    ((table, record l { expiration = none; extended_count = 0 }), answered false)
extend_row at l (some r) table =
    if is_owner at l r
    then (
      (
        update table l.resource (
            some (record r {
              expiration = at + interval l.ttl;
              extended_count = suc r.extended_count;
            })),
        record l { expiration = some (at + interval l.ttl); extended_count = suc r.extended_count },
      ),
      answered true,
    )
    else ((table, record l { expiration = none; extended_count = 0 }), answered false)

unfoldable pub extend : Option ℕ → ℕ → Table → BaseLock → (Table × BaseLock) × Answer
extend (some e) at table l = ((table, l), failed false e)
extend none at table l = extend_row at l (table l.resource) table
