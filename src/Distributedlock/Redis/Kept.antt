-- ===== src/Distributedlock/Redis/Kept.antt =====
-- What each call of a Redis lock leaves to the lock and to the others on the same server, where the
-- PTTL of a call comes at the instant of its script.
use go_fw.Prelude.{
  ℕ, ◌<◌, ◌≡◌, inl, inr, refl, Bool-cases, Option-cases, true, false, Option, none, some, arith,
  update_self, Whenever, ◌==◌,
}
use go_fw.Distributedlock.{BaseLock}
use go_fw.Distributedlock.Lease.{LeaseKind, IsBorneOut, Kept, idle-Kept, wrote-Kept}
use go_fw.Distributedlock.Redis.{
  Key, Server, Fault, is_live, live, get_lock, own_key, incremented, read_expiration, try_lock,
  unlock, extend, note_locked, note_extended,
}

pub is_live_until : (now : ℕ) (o : Option ℕ) (e : ℕ) → o ≡ some e → now < e → is_live now o ≡ true
is_live_until now none e q p = refl
is_live_until now (some u) e q p = ground arith

-- The rows are the keys; an expiration is the instant from which the key is gone.
abbrev pub kind : LeaseKind
kind = record {
  Row = Key;
  owner = λ k. k.value;
  Lives = λ now k. is_live now k.until ≡ true;
  Pending = λ now e. now < e;
  Bears = λ k id e. (k.value ≡ id) × (k.until ≡ some e);
  earlier = λ now t e le p. omega (arith, le, p);
  bears_owner = λ k id e b. b.0;
  bears_lives = λ k id e now b p. is_live_until now k.until e b.1 p;
}

-- The key of the resource that a script of the lock finds live belongs to it.
own_lem :
    (now : ℕ) (l : BaseLock) (o : Option Key) (x y : Key)
    → live now o ≡ some x
    → (x.value == l.id) ≡ true
    → o ≡ some y
    → y.value ≡ l.id
own_lem now l none x y q i e = absurd cc
own_lem now l (some z) x y q i e = ground arith

none_lem :
    (now : ℕ) (o : Option Key) (y : Key)
    → live now o ≡ none
    → o ≡ some y
    → ¬ (is_live now y.until ≡ true)
none_lem now none y q e = absurd cc
none_lem now (some z) y q e = ground arith

counted_anew :
    (now : ℕ) (l : BaseLock) (c : Option Key) → ((incremented now l c).value == 0) ≡ false
counted_anew now l none = refl
counted_anew now l (some k) = ground arith

-- What PTTL finds at once of the key that the script has set.
read_lem :
    (now : ℕ) (l : BaseLock)
    → IsBorneOut kind now l.id
        (some (read_expiration now (live now (some (own_key now l)))))
        (some (own_key now l))
read_lem now l = elim (Bool-cases (is_live now (own_key now l).until)) [
  | inl e ↦ rw e (λ p. (refl, refl))
  | inr e ↦ rw e (λ p. absurd (omega (arith, p)))
]

-- A call that fails has not run its script.
abbrev pub IsUndone : Option Fault → Type 0
IsUndone = Whenever (λ f. f.reached ≡ false)

pub try_lock-Kept :
    (now : ℕ) (fault : Option Fault) (s : Server) (l : BaseLock)
    → IsUndone fault
    → let r = (try_lock fault now s l).0 in Kept kind now s.locks l (r.0.locks, r.1)
unfolding try_lock note_locked
try_lock-Kept now (some f) s l undone =
    rw undone (idle-Kept kind now s.locks l l refl refl (inr refl))
try_lock-Kept now none s l undone = elim (Option-cases (get_lock now s l)) [
  | inr (k, e) ↦ rw e (idle-Kept kind now s.locks l l refl refl (inr refl))
  | inl e ↦
      rw (e, update_self s.locks l.resource (some (own_key now l)))
        (wrote-Kept kind now s.locks l _ (some (own_key now l)) refl refl (read_lem now l)
          (λ y p d. none_lem now (s.locks l.resource) y e p))
]

pub unlock-Kept :
    (now : ℕ) (fault : Option Fault) (s : Server) (l : BaseLock)
    → IsUndone fault
    → let r = (unlock fault now s l).0 in Kept kind now s.locks l (r.0.locks, r.1)
unfolding unlock
unlock-Kept now (some f) s l undone =
    rw undone (idle-Kept kind now s.locks l l refl refl (inr refl))
unlock-Kept now none s l undone = elim (Option-cases (get_lock now s l)) [
  | inl e ↦ rw e (idle-Kept kind now s.locks l _ refl refl (inl refl))
  | inr (k, e) ↦ elim (Bool-cases (k.value == l.id)) [
    | inr o ↦ rw (e, o) (idle-Kept kind now s.locks l _ refl refl (inl refl))
    | inl o ↦
        rw (e, o)
          (wrote-Kept kind now s.locks l _ none refl refl tt
            (λ y p d. absurd (d (own_lem now l (s.locks l.resource) k y e o p))))
  ]
]

pub extend-Kept :
    (now : ℕ) (fault : Option Fault) (s : Server) (l : BaseLock)
    → IsUndone fault
    → let r = (extend fault now s l).0 in Kept kind now s.locks l (r.0.locks, r.1)
unfolding extend note_extended
extend-Kept now (some f) s l undone =
    rw undone (idle-Kept kind now s.locks l l refl refl (inr refl))
extend-Kept now none s l undone = elim (Option-cases (get_lock now s l)) [
  | inl e ↦ rw e (idle-Kept kind now s.locks l _ refl refl (inl refl))
  | inr (k, e) ↦ elim (Bool-cases (k.value == l.id)) [
    | inr o ↦ rw (e, o) (idle-Kept kind now s.locks l _ refl refl (inl refl))
    | inl o ↦
        let n = counted_anew now l (live now (s.counts l.resource l.id)) in
        rw (e, o, n, update_self s.locks l.resource (some (own_key now l)))
          (wrote-Kept kind now s.locks l _ (some (own_key now l)) refl refl (read_lem now l)
            (λ y p d. absurd (d (own_lem now l (s.locks l.resource) k y e o p))))
  ]
]
