-- ===== src/Distributedlock/Postgres/Kept.antt =====
-- What each call of a Postgres lock leaves to the lock and to the others on the same table.
use go_fw.Prelude.{
  ℕ, ◌≤◌, ◌≡◌, inl, inr, refl, Bool-cases, Option-cases, true, Option, none, some, arith,
}
use go_fw.Distributedlock.{BaseLock}
use go_fw.Distributedlock.Lease.{LeaseKind, Kept, idle-Kept, wrote-Kept}
use go_fw.Distributedlock.Postgres.{
  Row, Table, Faults, written, take_over, conclude, setup_err, first_err, try_lock_from, is_owner,
  unlock, extend,
}

-- The rows are those of the table; an expiration is the last instant at which the row counts.
abbrev pub kind : LeaseKind
kind = record {
  Row = Row;
  owner = λ r. r.instance_id;
  Lives = λ now r. now ≤ r.expiration;
  Pending = λ now e. now ≤ e;
  Bears = λ r id e. (r.instance_id ≡ id) × (r.expiration ≡ e);
  earlier = λ now t e le p. omega (arith, le, p);
  bears_owner = λ r id e b. b.0;
  bears_lives = λ r id e now b p. let q = b.1 in omega (arith, q, p);
}

-- `TryLock` writes its own id, over a row that is over or over none.
written_lem :
    (now at : ℕ) (l : BaseLock) (current : Option ℕ) (row : Option Row) (x : Row)
    → at ≤ now
    → written at l current row ≡ some x
    → (x.instance_id ≡ l.id) × ((y : Row) → row ≡ some y → ¬ (now ≤ y.expiration))
unfolding written take_over
written_lem now at l none none x le e = ground arith
written_lem now at l none (some r) x le e = ground arith
written_lem now at l (some c) none x le e = ground arith
written_lem now at l (some c) (some r) x le e = ground arith

concludes :
    (now at : ℕ) (l : BaseLock) (current : Option ℕ) (table : Table) (err : Option ℕ)
    → err ≡ none
    → at ≤ now
    → Kept kind now table l (conclude err (written at l current (table l.resource)) table l).0
concludes now at l current table (some e) committed le = absurd cc
concludes now at l current table none committed le =
    elim (Option-cases (written at l current (table l.resource))) [
      | inl e ↦ rw e (idle-Kept kind now table l l refl refl (inr refl))
      | inr (x, e) ↦
          let (mine, over) = written_lem now at l current (table l.resource) x le e in
          rw e (
            wrote-Kept kind now table l (record l { expiration = some x.expiration }) (some x) refl
              refl (λ h. (mine, refl)) (λ y p d. over y p))
    ]

pub try_lock_from-Kept :
    (now at : ℕ) (f : Faults) (current : Option ℕ) (table : Table) (l : BaseLock)
    → f.commit_err ≡ none
    → at ≤ now
    → Kept kind now table l (try_lock_from f at current table l).0
unfolding try_lock_from
try_lock_from-Kept now at f current table l committed le =
    elim (Option-cases (first_err (setup_err f.setup) (first_err f.select_err f.write_err))) [
      | inr (e, q) ↦ rw (try_lock_from, q) (idle-Kept kind now table l l refl refl (inr refl))
      | inl q ↦ rw (try_lock_from, q) (concludes now at l current table f.commit_err committed le)
    ]

owner_lem :
    (at : ℕ) (l : BaseLock) (row : Option Row) (r : Row)
    → is_owner at l r ≡ true
    → row ≡ some r
    → (r.instance_id ≡ l.id) × ((y : Row) → row ≡ some y → y.instance_id ≡ l.id)
owner_lem at l none r o e = absurd cc
owner_lem at l (some z) r o e = let i : r.instance_id ≡ l.id = ground arith in (i, λ y p. cc)

pub unlock-Kept :
    (now at : ℕ) (err : Option ℕ) (table : Table) (l : BaseLock)
    → Kept kind now table l (unlock err at table l).0
unfolding unlock
unlock-Kept now at (some e) table l = idle-Kept kind now table l l refl refl (inr refl)
unlock-Kept now at none table l = elim (Option-cases (table l.resource)) [
  | inl e ↦ rw e (idle-Kept kind now table l _ refl refl (inl refl))
  | inr (r, e) ↦ elim (Bool-cases (is_owner at l r)) [
    | inl o ↦
        rw (e, o)
          (wrote-Kept kind now table l _ _ refl refl tt
            (λ y p d. absurd (d ((owner_lem at l (table l.resource) r o e).1 y p))))
    | inr o ↦ rw (e, o) (idle-Kept kind now table l _ refl refl (inl refl))
  ]
]

pub extend-Kept :
    (now at : ℕ) (err : Option ℕ) (table : Table) (l : BaseLock)
    → Kept kind now table l (extend err at table l).0
unfolding extend
extend-Kept now at (some e) table l = idle-Kept kind now table l l refl refl (inr refl)
extend-Kept now at none table l = elim (Option-cases (table l.resource)) [
  | inl e ↦ rw e (idle-Kept kind now table l _ refl refl (inl refl))
  | inr (r, e) ↦ elim (Bool-cases (is_owner at l r)) [
    | inl o ↦
        let (mine, all) = owner_lem at l (table l.resource) r o e in
        rw (e, o)
          (wrote-Kept kind now table l _ _ refl refl (λ h. (mine, refl))
            (λ y p d. absurd (d (all y p))))
    | inr o ↦ rw (e, o) (idle-Kept kind now table l _ refl refl (inl refl))
  ]
]
