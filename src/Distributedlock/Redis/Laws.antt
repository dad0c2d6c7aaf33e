-- ===== src/Distributedlock/Redis/Laws.antt =====
-- What the calls of a Redis lock return and leave on the server.
use go_fw.Prelude.{
  ℕ, ◌+◌, ◌<◌, ◌≡◌, ◌≢◌, ◌⊎◌, inl, inr, refl, Bool-cases, Option-cases, true, false, Option, none,
  some, arith, update_self, ltb, ◌==◌, Whenever,
}
use go_fw.Distributedlock.{BaseLock}
use go_fw.Distributedlock.Redis.{
  Key, Server, answered, milliseconds, live, get_lock, own_key, incremented, try_lock, unlock,
  extend, note_locked, note_extended,
}

-- The lock holds its resource at the instant `at`, until its TTL is over, and says so.
abbrev pub IsHeldFor : ℕ → BaseLock → Server → BaseLock → Type 0
IsHeldFor at l s m =
    (get_lock at s l ≡ some (own_key at l)) × (m.expiration ≡ some (at + milliseconds l.ttl))

-- `TryLock` without an error takes the resource if no key of it is live, and then holds it for the
-- TTL; if one is live it answers false and changes nothing.
pub try_lock-IsHeldFor :
    (at : ℕ) (s : Server) (l : BaseLock)
    → 0 < milliseconds l.ttl
    → let r = try_lock none at s l in
      ((get_lock at s l ≡ none) × (r.1 ≡ answered true) × IsHeldFor at l r.0.0 r.0.1)
      ⊎ ((k : Key) × (get_lock at s l ≡ some k) × (r ≡ ((s, l), answered false)))
unfolding try_lock note_locked
try_lock-IsHeldFor at s l p = elim (Option-cases (get_lock at s l)) [
  | inr (k, e) ↦ inr (k, e, rw e refl)
  | inl e ↦
      let q : ltb at (at + milliseconds l.ttl) ≡ true = ground arith in
      inl
        (e, rw e refl, rw (e, update_self s.locks l.resource (some (own_key at l)), q) (refl, refl))
]

-- The count that `Extend` finds, and makes one more.
abbrev pub count_of : Option Key → ℕ
count_of none = 0
count_of (some k) = k.value

counted : (at : ℕ) (l : BaseLock) (c : Option Key) → (incremented at l c).value ≡ 1 + count_of c
counted at l none = refl
counted at l (some k) = omega arith

-- The resource is another's at the instant `at`, or nobody's.
abbrev pub IsLost : ℕ → BaseLock → Server → Type 0
IsLost at l s = Whenever (λ k. k.value ≢ l.id) (get_lock at s l)

owned_or_lost :
    (l : BaseLock) (o : Option Key)
    → ((k : Key) × (o ≡ some k) × ((k.value == l.id) ≡ true))
      ⊎ (Whenever (λ k. k.value ≢ l.id) o
          × ((o ≡ none) ⊎ ((k : Key) × (o ≡ some k) × ((k.value == l.id) ≡ false))))
owned_or_lost l none = inr (tt, inl refl)
owned_or_lost l (some k) = elim (Bool-cases (k.value == l.id)) [
  | inl e ↦ inl (k, refl, e)
  | inr e ↦ inr (λ q. ground arith, inr (k, refl, e))
]

-- `Extend` without an error answers true if the live key of the resource is the lock's: it then
-- holds the resource for its TTL anew and counts one extension more. Otherwise it answers false,
-- forgets its expiration and count, and leaves the server as it is.
pub extend-IsHeldFor :
    (at : ℕ) (s : Server) (l : BaseLock)
    → 0 < milliseconds l.ttl
    → let r = extend none at s l in
      (((r.1 ≡ answered true) × IsHeldFor at l r.0.0 r.0.1)
        × (r.0.1.extended_count ≡ 1 + count_of (live at (s.counts l.resource l.id))))
      ⊎ (IsLost at l s
          × (r ≡ ((s, record l { expiration = none; extended_count = 0 }), answered false)))
unfolding extend note_extended
extend-IsHeldFor at s l p = elim (owned_or_lost l (get_lock at s l)) [
  | inl (k, e, own) ↦
      let q : ltb at (at + milliseconds l.ttl) ≡ true = ground arith in
      let c = live at (s.counts l.resource l.id) in
      let n : ((incremented at l c).value == 0) ≡ false = let v = counted at l c in ground arith in
      inl (
        rw (e, own, n, update_self s.locks l.resource (some (own_key at l)), q)
          ((refl, (refl, refl)), counted at l c))
  | inr (lost, inl e) ↦ inr (lost, rw e refl)
  | inr (lost, inr (k, e, other)) ↦ inr (lost, rw (e, other) refl)
]

-- `Unlock` without an error frees the resource if the live key is the lock's, and else leaves the
-- server as it is; the lock forgets its expiration in both cases.
pub unlock_correct :
    (at : ℕ) (s : Server) (l : BaseLock)
    → let r = unlock none at s l in
      (r.0.1.expiration ≡ none) × ((get_lock at r.0.0 l ≡ none) ⊎ (IsLost at l s × (r.0.0 ≡ s)))
unfolding unlock
unlock_correct at s l = elim (owned_or_lost l (get_lock at s l)) [
  | inl (k, e, own) ↦ (refl, inl (rw (e, own, update_self s.locks l.resource none) refl))
  | inr (lost, inl e) ↦ (refl, inr (lost, rw e refl))
  | inr (lost, inr (k, e, other)) ↦ (refl, inr (lost, rw (e, other) refl))
]
