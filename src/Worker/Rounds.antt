-- ===== src/Worker/Rounds.antt =====
-- The loop of a single worker: its lock, and when it ends.
use go_fw.Prelude.{
  ◌⊎◌, ◌↔◌, ◌||◌, if◌then◌else◌, ◌≡◌, refl, sym, subst, ◌∙◌, inl, inr, Bool, true, false, Option,
  none, some, List, [], ◌∷◌, ◌++◌,
}
use go_fw.Errors.{
  GoError, nil_error, plain, wrapping, joined, framework, Keys, is_code, as_code, panic,
}
use go_fw.Errors.Codes.{codes_agree}
use go_fw.Worker.{
  Ending, fine, failed, panics, Round, Action, locks, unlocks, runs, attempt, Next, again, returns,
  decide, go_on, single_worker_runner, lock_ending, then_unlock, extend_ending, after_error,
  wrapped, lock_not_auto_extended,
}

-- `Unlock` is due, or it is not. The worker runs only where it is, the lock is not taken again until
-- it was called, and it is called once for each lock that was taken.
abbrev pub IsGuarded : Bool → List Action → Type 0
IsGuarded held [] = held ≡ false
IsGuarded false (locks ∷ xs) = IsGuarded true xs
IsGuarded false (unlocks ∷ xs) = ⊥
IsGuarded false (runs ∷ xs) = ⊥
IsGuarded true (locks ∷ xs) = ⊥
IsGuarded true (unlocks ∷ xs) = IsGuarded false xs
IsGuarded true (runs ∷ xs) = IsGuarded true xs

append-IsGuarded :
    (held : Bool) (xs ys : List Action)
    → IsGuarded held xs
    → IsGuarded false ys
    → IsGuarded held (xs ++ ys)
append-IsGuarded held [] ys h k = subst (λ b. IsGuarded b ys) (sym h) k
append-IsGuarded false (locks ∷ xs) ys h k = append-IsGuarded true xs ys h k
append-IsGuarded false (unlocks ∷ xs) ys h k = elim h [ ]
append-IsGuarded false (runs ∷ xs) ys h k = elim h [ ]
append-IsGuarded true (locks ∷ xs) ys h k = elim h [ ]
append-IsGuarded true (unlocks ∷ xs) ys h k = append-IsGuarded false xs ys h k
append-IsGuarded true (runs ∷ xs) ys h k = append-IsGuarded true xs ys h k

ending-IsGuarded :
    (keys : Keys) (lock extend run unlock : Ending)
    → IsGuarded false
        (lock_ending keys lock (then_unlock keys unlock (extend_ending keys extend run))).0
ending-IsGuarded keys fine fine run unlock = refl
ending-IsGuarded keys fine (failed e) run unlock = refl
ending-IsGuarded keys fine (panics m) run unlock = refl
ending-IsGuarded keys (failed e) extend run unlock = refl
ending-IsGuarded keys (panics m) extend run unlock = refl

attempt-IsGuarded : (keys : Keys) (r : Round) → IsGuarded false (attempt keys r).0
unfolding attempt
attempt-IsGuarded keys r = ending-IsGuarded keys r.lock r.auto_extend r.run r.unlock

go_on-IsGuarded :
    (done : List Action) (n : Next) (rest : List Action × Option GoError)
    → IsGuarded false done
    → IsGuarded false rest.0
    → IsGuarded false (go_on done n rest).0
go_on-IsGuarded done again rest h k = append-IsGuarded false done rest.0 h k
go_on-IsGuarded done (returns e) rest h k = h

-- Whatever the calls of the lock and of the worker come to, failures and panics included, the worker
-- runs only after a `Lock` that succeeded, and each such `Lock` is followed by one call of `Unlock`,
-- after the worker and before the next `Lock` and the end. It does not say that `Unlock` succeeds,
-- nor that the lock is kept while the worker runs.
pub single_worker_runner-IsGuarded :
    (keys : Keys) (is_stopped : GoError → Bool) (rs : List Round)
    → IsGuarded false (single_worker_runner keys is_stopped rs).0
unfolding single_worker_runner
single_worker_runner-IsGuarded keys is_stopped [] = refl
single_worker_runner-IsGuarded keys is_stopped (r ∷ rs) =
    go_on-IsGuarded (attempt keys r).0 (decide keys is_stopped (attempt keys r).1)
      (single_worker_runner keys is_stopped rs) (attempt-IsGuarded keys r)
      (single_worker_runner-IsGuarded keys is_stopped rs)

-- The error of a round says that the lock was no longer extended, and neither that the handler stops
-- nor that something panicked.
abbrev pub IsLost : (GoError → Bool) → GoError → Type 0
IsLost is_stopped e =
    (is_stopped e ≡ false) × ((is_code e panic ≡ false) × (is_code e lock_not_auto_extended ≡ true))

abbrev pub AreLost : Keys → (GoError → Bool) → List Round → Type 0
AreLost keys is_stopped [] = Unit
AreLost keys is_stopped (r ∷ rs) = IsLost is_stopped (attempt keys r).1 × AreLost keys is_stopped rs

-- The tests of the loop as truths.
picked :
    (s p l : Bool) (x y : GoError)
    → ((if s || p then returns x else if l then again else returns y) ≡ again)
      ↔ ((s ≡ false) × ((p ≡ false) × (l ≡ true)))
picked true p l x y = (λ h. absurd cc, λ h. absurd cc)
picked false true l x y = (λ h. absurd cc, λ h. absurd cc)
picked false false true x y = (λ h. (refl, (refl, refl)), λ h. refl)
picked false false false x y = (λ h. absurd cc, λ h. absurd cc)

after_error-again :
    (keys : Keys) (is_stopped : GoError → Bool) (e : GoError)
    → (after_error keys (is_stopped e) e ≡ again) ↔ IsLost is_stopped e
after_error-again keys is_stopped e =
    let same : (as_code e lock_not_auto_extended none).0 ≡ is_code e lock_not_auto_extended =
      (codes_agree e lock_not_auto_extended none).1.0 in
    subst
      (λ b.
        (after_error keys (is_stopped e) e ≡ again)
        ↔ ((is_stopped e ≡ false) × ((is_code e panic ≡ false) × (b ≡ true))))
      same
      (picked (is_stopped e) (is_code e panic) (as_code e lock_not_auto_extended none).0 e
        (wrapped keys e))

-- The loop goes on after an error exactly if it is that of a lost extension.
decide-again :
    (keys : Keys) (is_stopped : GoError → Bool) (e : GoError)
    → (decide keys is_stopped e ≡ again) ↔ IsLost is_stopped e
unfolding decide is_code
decide-again keys is_stopped nil_error = (λ h. absurd cc, λ (a, (b, c)). absurd cc)
decide-again keys is_stopped (plain n) = after_error-again keys is_stopped (plain n)
decide-again keys is_stopped (wrapping e) = after_error-again keys is_stopped (wrapping e)
decide-again keys is_stopped (joined es) = after_error-again keys is_stopped (joined es)
decide-again keys is_stopped (framework e es) = after_error-again keys is_stopped (framework e es)

some-none : {A : Type 0} (x : A) → some x ≡ none → ⊥
some-none x e = cc

returns-again : (e : GoError) → returns e ≡ again → ⊥
returns-again e h = cc

Next-cases : (n : Next) → (n ≡ again) ⊎ ((e : GoError) × (n ≡ returns e))
Next-cases again = inl refl
Next-cases (returns e) = inr (e, refl)

-- The loop of a single worker has not returned after some rounds exactly if each of them ended with
-- the error of a lock that was no longer extended, and not with a panic or with the end of the
-- handler.
pub single_worker_runner-none :
    (keys : Keys) (is_stopped : GoError → Bool) (rs : List Round)
    → ((single_worker_runner keys is_stopped rs).1 ≡ none) ↔ AreLost keys is_stopped rs
unfolding single_worker_runner
single_worker_runner-none keys is_stopped [] = (λ h. tt, λ h. refl)
single_worker_runner-none keys is_stopped (r ∷ rs) =
    let e = (attempt keys r).1 in
    let rest = single_worker_runner keys is_stopped rs in
    let (f, g) = decide-again keys is_stopped e in
    let (h, k) = single_worker_runner-none keys is_stopped rs in
    elim (Next-cases (decide keys is_stopped e)) [
      | inl n ↦ (
        λ q. (f n, h (subst (λ x. (go_on (attempt keys r).0 x rest).1 ≡ none) n q)),
        λ (l, ls). subst (λ x. (go_on (attempt keys r).0 x rest).1 ≡ none) (sym n) (k ls),
      )
      | inr (e', n) ↦ (
        λ q. absurd (some-none e' (subst (λ x. (go_on (attempt keys r).0 x rest).1 ≡ none) n q)),
        λ (l, ls). absurd (returns-again e' (sym n ∙ g l)),
      )
    ]
