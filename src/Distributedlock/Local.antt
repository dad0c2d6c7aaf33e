-- ===== src/Distributedlock/Local.antt =====
-- distributedlock/distributedlock_local.go. A lock is a file and a flag; what the system call flock
-- answers is an argument. The methods run one at a time, under the lock's mutex; `TryLock` gives up
-- if another method holds it. The goroutine that `doLock` starts is `watch`, a round of its loop.
use go_fw.Prelude.{
  ℕ, suc, ◌+◌, ◌≡◌, refl, Bool, true, false, not, Option, none, some, ltb, if◌then◌else◌,
}
use go_fw.Distributedlock.{BaseLock, Cause, stop_extender}

-- The answer of flock.
pub data Flock : Type 0 where
  done would_block : Flock
  flock_failed : ℕ → Flock

pub record LocalLock : Type 0 where
  pub base : BaseLock
  pub locked : Bool

-- The answer of a call, or the error that it returns.
pub data Answer : Type 0 where
  answered : Bool → Answer
  failed : ℕ → Answer

unfoldable pub do_lock : ℕ → LocalLock → LocalLock
do_lock now l = record {
  base = record l.base { expiration = some (now + l.base.ttl) };
  locked = true;
}

-- `Lock`; EWOULDBLOCK is an error as any other, since it asks flock to wait.
unfoldable pub lock : Flock → ℕ → LocalLock → LocalLock × Bool
unfolding do_lock
lock done now l = (do_lock now l, true)
lock would_block now l = (l, false)
lock (flock_failed e) now l = (l, false)

abbrev pub try_flock : Flock → ℕ → LocalLock → LocalLock × Answer
try_flock done now l = (do_lock now l, answered true)
try_flock would_block now l = (l, answered false)
try_flock (flock_failed e) now l = (l, failed e)

-- `busy` says that another method holds the mutex.
unfoldable pub try_lock : Bool → Flock → ℕ → LocalLock → LocalLock × Answer
try_lock busy flock now l =
    if busy
    then (l, answered false)
    else if l.locked
    then (l, answered false)
    else try_flock flock now l

abbrev pub cleared : LocalLock → LocalLock
cleared l = record {
  base = record l.base {
    expiration = none;
    extended_count = 0;
    auto_extender = stop_extender Cause.context_canceled l.base.auto_extender;
  };
  locked = false;
}

-- The lock after `Unlock`, and whether it returned no error.
unfoldable pub unlock : Flock → LocalLock → LocalLock × Bool
unlock done l = (cleared l, true)
unlock would_block l = (l, false)
unlock (flock_failed e) l = (l, false)

-- `now` is after the expiration; the zero time is before any other.
abbrev pub is_over : ℕ → Option ℕ → Bool
is_over now none = true
is_over now (some e) = ltb e now

unfoldable pub extend : ℕ → LocalLock → LocalLock × Bool
extend now l =
    if not l.locked then (l, false) else if is_over now l.base.expiration then (l, false) else (
      record l {
        base = record l.base {
          expiration = some (now + l.base.ttl);
          extended_count = suc l.base.extended_count;
        };
      },
      true,
    )

-- The expiration is after `now`.
abbrev pub is_ahead : ℕ → Option ℕ → Bool
is_ahead now none = false
is_ahead now (some e) = ltb now e

-- A round of the goroutine, and whether it goes on.
unfoldable pub watch : Flock → ℕ → LocalLock → LocalLock × Bool
unfolding unlock
watch flock now l =
    if not l.locked
    then (l, false)
    else if is_ahead now l.base.expiration
    then (l, true)
    else ((unlock flock l).0, true)

-- A call or a round.
pub data Op : Type 0 where
  locks : Flock → Op
  tries : Bool → Flock → Op
  unlocks : Flock → Op
  extends : Op
  watches : Flock → Op

abbrev pub apply : Op → ℕ → LocalLock → LocalLock
apply (locks flock) now l = (lock flock now l).0
apply (tries busy flock) now l = (try_lock busy flock now l).0
apply (unlocks flock) now l = (unlock flock l).0
apply extends now l = (extend now l).0
apply (watches flock) now l = (watch flock now l).0

abbrev pub is_set : Option ℕ → Bool
is_set none = false
is_set (some e) = true

-- The flag is set exactly if the expiration is, and an unlocked lock counts no extensions.
pub record IsConsistent (l : LocalLock) : Type 0 where
  pub expires : l.locked ≡ is_set l.base.expiration
  pub uncounted : l.locked ≡ false → l.base.extended_count ≡ 0

consistent : (l : LocalLock) (e : ℕ) → l.locked ≡ true → l.base.expiration ≡ some e → IsConsistent l
consistent l e locked set = record { expires = rw (locked, set) refl; uncounted = λ q. absurd cc }

cleared-IsConsistent : (l : LocalLock) → IsConsistent (cleared l)
cleared-IsConsistent l = record { expires = refl; uncounted = λ q. refl }

not-false : (b : Bool) → not b ≡ false → b ≡ true
not-false true q = refl
not-false false q = absurd cc

either :
    {A : Type 0} (b : Bool) (x y : LocalLock × A)
    → (b ≡ true → IsConsistent x.0)
    → (b ≡ false → IsConsistent y.0)
    → IsConsistent (if b then x else y).0
either true x y f g = f refl
either false x y f g = g refl

unlocks-IsConsistent : (f : Flock) (l : LocalLock) → IsConsistent l → IsConsistent (unlock f l).0
unfolding unlock
unlocks-IsConsistent done l c = cleared-IsConsistent l
unlocks-IsConsistent would_block l c = c
unlocks-IsConsistent (flock_failed e) l c = c

flocked-IsConsistent :
    (f : Flock) (now : ℕ) (l : LocalLock) → IsConsistent l → IsConsistent (try_flock f now l).0
unfolding do_lock
flocked-IsConsistent done now l c = consistent _ _ refl refl
flocked-IsConsistent would_block now l c = c
flocked-IsConsistent (flock_failed e) now l c = c

-- No call and no round of the goroutine, whatever flock answers, parts the flag from the expiration,
-- or leaves a count of extensions on an unlocked lock.
pub apply-IsConsistent :
    (op : Op) (now : ℕ) (l : LocalLock) → IsConsistent l → IsConsistent (apply op now l)
unfolding lock do_lock try_lock unlock extend watch
apply-IsConsistent (locks done) now l c = consistent _ _ refl refl
apply-IsConsistent (locks would_block) now l c = c
apply-IsConsistent (locks (flock_failed e)) now l c = c
apply-IsConsistent (tries busy flock) now l c =
    either busy _ _ (λ q. c)
      (λ q. either l.locked _ _ (λ k. c) (λ k. flocked-IsConsistent flock now l c))
apply-IsConsistent (unlocks flock) now l c = unlocks-IsConsistent flock l c
apply-IsConsistent extends now l c =
    either (not l.locked) _ _ (λ q. c)
      (λ q.
        either (is_over now l.base.expiration) _ _ (λ o. c)
          (λ o. consistent _ _ (not-false l.locked q) refl))
apply-IsConsistent (watches flock) now l c =
    either (not l.locked) _ _ (λ q. c)
      (λ q.
        either (is_ahead now l.base.expiration) _ _ (λ a. c) (λ a. unlocks-IsConsistent flock l c))
