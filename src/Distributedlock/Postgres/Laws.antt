-- ===== src/Distributedlock/Postgres/Laws.antt =====
-- What the calls of a Postgres lock return, and how they follow each other.
use go_fw.Prelude.{
  ℕ, suc, ◌+◌, ◌<◌, ◌≡◌, ◌⊎◌, inl, inr, refl, ap, true, false, Option, none, some, arith, Returns,
  update, update_self, Bool-cases, ltb, ◌==◌, ==_iff,
}
use go_fw.Distributedlock.{BaseLock}
use go_fw.Distributedlock.Postgres.{
  Row, Table, Faults, interval, Answer, answered, written, take_over, new_row, instance_of,
  conclude, setup_err, first_err, try_lock, try_lock_from, select_instance, unlock, extend,
}

-- No statement fails, and the commit does not.
abbrev pub IsSmooth : Faults → Type 0
IsSmooth f =
    (setup_err f.setup ≡ none)
    × (f.select_err ≡ none)
    × (f.write_err ≡ none)
    × (f.commit_err ≡ none)

-- The resource is free: it has no row or one that is over.
abbrev pub IsFree : ℕ → Option Row → Type 0
IsFree at none = Unit
IsFree at (some r) = r.expiration < at

-- What `TryLock` writes when nothing came in between.
written_cases :
    (at : ℕ) (l : BaseLock) (row : Option Row)
    → ((x : Row) × (written at l (instance_of row) row ≡ some x)
        × IsFree at row
        × (x.instance_id ≡ l.id)
        × (x.expiration ≡ at + interval l.ttl))
      ⊎ ((written at l (instance_of row) row ≡ none) × (¬ IsFree at row))
unfolding written take_over
written_cases at l none = inl (new_row at l, refl, tt, refl, refl)
written_cases at l (some r) =
    let same : (r.instance_id == r.instance_id) ≡ true = (==_iff _ _).1 refl in
    elim (Bool-cases (ltb r.expiration at)) [
      | inl e ↦ inl (
        record r { instance_id = l.id; expiration = at + interval l.ttl },
        rw (same, e),
        ground arith,
        refl,
        refl,
      )
      | inr e ↦ inr (rw (same, e), ground arith)
    ]

-- The outcome of a `TryLock` without errors.
abbrev pub Acquired : ℕ → Table → BaseLock → (Table × BaseLock) × Answer → Type 0
Acquired at table l ((after, m), a) =
    (a ≡ answered true)
    × IsFree at (table l.resource)
    × (m ≡ record l { expiration = some (at + interval l.ttl) })
    × Returns (λ x. (x.instance_id ≡ l.id) × (x.expiration ≡ at + interval l.ttl))
        (after l.resource)

first_err-none :
    (a b c : Option ℕ) → a ≡ none → b ≡ none → c ≡ none → first_err a (first_err b c) ≡ none
first_err-none a b c p q r = rw (p, q) r

-- `TryLock` without errors.
try_lock_lem :
    (f : Faults) (at : ℕ) (table : Table) (l : BaseLock)
    → IsSmooth f
    → try_lock f at table l
      ≡ conclude none (written at l (instance_of (table l.resource)) (table l.resource)) table l
unfolding try_lock try_lock_from select_instance
try_lock_lem f at table l (setup, selected, wrote, committed) =
    let q = first_err-none (setup_err f.setup) f.select_err f.write_err setup selected wrote in
    rw (try_lock_from, q)
      (ap
        (λ c. conclude c (written at l (instance_of (table l.resource)) (table l.resource)) table l)
        committed)

concludes :
    (at : ℕ) (table : Table) (l : BaseLock)
    → let r =
        conclude none (written at l (instance_of (table l.resource)) (table l.resource)) table l in
      Acquired at table l r
      ⊎ ((r ≡ ((table, l), answered false)) × (¬ IsFree at (table l.resource)))
concludes at table l = elim (written_cases at l (table l.resource)) [
  | inr (e, busy) ↦ inr (rw e refl, busy)
  | inl (x, e, free, mine, until) ↦
      inl
        (rw e (refl, free, rw until refl, rw (update_self table l.resource (some x)) (mine, until)))
]

-- `TryLock` with no error and no other transaction in between answers true exactly if the resource
-- is free: it has no row or one that is over. The row is then the lock's, until the TTL is over, and
-- the lock's expiration says so; otherwise nothing changes.
pub try_lock_correct :
    (f : Faults) (at : ℕ) (table : Table) (l : BaseLock)
    → IsSmooth f
    → let r = try_lock f at table l in
      Acquired at table l r
      ⊎ ((r ≡ ((table, l), answered false)) × (¬ IsFree at (table l.resource)))
try_lock_correct f at table l smooth = rw (try_lock_lem f at table l smooth) (concludes at table l)

-- `Unlock` by the lock that the row belongs to frees the resource: from the next instant on, any
-- lock may take it.
pub unlock-IsFree :
    (at after : ℕ) (table : Table) (l : BaseLock) (r : Row)
    → table l.resource ≡ some r
    → r.instance_id ≡ l.id
    → at < after
    → IsFree after ((unlock none at table l).0.0 l.resource)
unfolding unlock
unlock-IsFree at after table l r e mine le = elim (Bool-cases (ltb at r.expiration)) [
  | inl live ↦
      let own : (r.instance_id == l.id) ≡ true = (==_iff _ _).1 mine in
      rw (e, own, live) (rw (update_self table l.resource _) le)
  | inr over ↦
      let own : (r.instance_id == l.id) ≡ true = (==_iff _ _).1 mine in
      rw (e, own, over) (rw e (ground arith))
]

-- A lock that takes over a row that is over keeps that row's count: its first `Extend` then reports
-- one more than the count of the lock before it.
pub extend_counts_on :
    (f : Faults) (at later : ℕ) (table : Table) (l : BaseLock) (r : Row)
    → IsSmooth f
    → table l.resource ≡ some r
    → r.expiration < at
    → later < at + interval l.ttl
    → let (taken, m) = (try_lock f at table l).0 in
      let (after, answer) = extend none later taken m in
      (answer ≡ answered true) × (after.1.extended_count ≡ suc r.extended_count)
unfolding written take_over extend
extend_counts_on f at later table l r smooth e over live =
    let same : (r.instance_id == r.instance_id) ≡ true = (==_iff _ _).1 refl in
    let own : (l.id == l.id) ≡ true = (==_iff _ _).1 refl in
    let past : ltb r.expiration at ≡ true = ground arith in
    let ahead : ltb later (at + interval l.ttl) ≡ true = ground arith in
    let x : Row = record r { instance_id = l.id; expiration = at + interval l.ttl } in
    let m : BaseLock = record l { expiration = some (at + interval l.ttl) } in
    let took : try_lock f at table l ≡ ((update table l.resource (some x), m), answered true) =
      rw (try_lock_lem f at table l smooth, e, same, past) refl in
    rw took (rw (update_self table l.resource (some x), own, ahead) (refl, refl))
