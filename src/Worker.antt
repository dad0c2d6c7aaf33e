-- ===== src/Worker.antt =====
-- worker/worker.go: the runners of long running workers, and `Run` over what they return. What the
-- lock and the worker do in a round is an argument, and so is errors.Is of the error that stops the
-- handler. Messages and stacks are numbers.
pub mod Rounds
pub mod Tests
use go_fw.Prelude.{
  ℕ, suc, ◌≡◌, Bool, true, false, ◌||◌, Option, none, some, List, [], ◌∷◌, ◌++◌, if◌then◌else◌,
}
use go_fw.Errors.{
  ErrCode, panic, unknown, bad_state, other_code, GoError, nil_error, plain, framework, Wrapped,
  end, also, Keys, newf, is_code, as_code,
}

-- The codes WORKER_ERROR and that of a lock that is no longer extended.
abbrev pub worker_error : ErrCode
worker_error = other_code 0

abbrev pub lock_not_auto_extended : ErrCode
lock_not_auto_extended = other_code 1

-- How a call of other code ends: without error, with one, or in a panic.
pub data Ending : Type 0 where
  fine : Ending
  failed : GoError → Ending
  panics : ℕ → Ending

-- What `Lock`, `AutoExtend`, the worker's own `Run` and `Unlock` do in a round of the loop.
pub record Round : Type 0 where
  pub lock : Ending
  pub auto_extend : Ending
  pub run : Ending
  pub unlock : Ending

-- What the round does: it has taken the lock, calls `Unlock`, or calls the worker's `Run`.
pub data Action : Type 0 where
  locks unlocks runs : Action

-- `DeferredPanicToError` of a call that had not set an error.
unfoldable pub panic_error : Keys → ℕ → GoError
unfolding newf
panic_error keys message = newf keys panic message end 0

-- A lock that fails to be taken has its error wrapped.
unfoldable pub lock_error : Keys → GoError → GoError
unfolding newf
lock_error keys e = newf keys unknown 0 (also e end) 0

abbrev pub run_ending : Keys → Ending → GoError
run_ending keys fine = nil_error
run_ending keys (failed e) = e
run_ending keys (panics m) = panic_error keys m

-- The body of the closure once the lock is taken: what it does, and its error.
abbrev pub extend_ending : Keys → Ending → Ending → List Action × GoError
extend_ending keys fine run = (runs ∷ [], run_ending keys run)
extend_ending keys (failed e) run = ([], e)
extend_ending keys (panics m) run = ([], panic_error keys m)

-- An error of the deferred `Unlock` is only logged; a panic in it replaces what there was.
abbrev pub after_unlock : Keys → Ending → GoError → GoError
after_unlock keys fine e = e
after_unlock keys (failed u) e = e
after_unlock keys (panics m) e = panic_error keys m

abbrev pub then_unlock : Keys → Ending → List Action × GoError → List Action × GoError
then_unlock keys unlock (done, e) = (done ++ (unlocks ∷ []), after_unlock keys unlock e)

abbrev pub after_lock : List Action × GoError → List Action × GoError
after_lock (done, e) = (locks ∷ done, e)

-- The deferred `Unlock` comes after a lock that was taken, and only then.
abbrev pub lock_ending : Keys → Ending → List Action × GoError → List Action × GoError
lock_ending keys fine rest = after_lock rest
lock_ending keys (failed e) rest = ([], lock_error keys e)
lock_ending keys (panics m) rest = ([], panic_error keys m)

-- The closure of the loop.
unfoldable pub attempt : Keys → Round → List Action × GoError
unfolding panic_error lock_error
attempt keys r =
    let body = extend_ending keys r.auto_extend r.run in
    lock_ending keys r.lock (then_unlock keys r.unlock body)

-- What the loop does next: go on, or return an error, where `nil_error` is none.
pub data Next : Type 0 where
  again : Next
  returns : GoError → Next

abbrev pub wrapped : Keys → GoError → GoError
wrapped keys e = newf keys worker_error 1 (also e end) 0

abbrev pub after_error : Keys → Bool → GoError → Next
after_error keys stopped e =
    if stopped || is_code e panic
    then returns e
    else if (as_code e lock_not_auto_extended none).0
    then again
    else returns (wrapped keys e)

unfoldable pub decide : Keys → (GoError → Bool) → GoError → Next
unfolding newf is_code as_code
decide keys is_stopped nil_error = returns nil_error
decide keys is_stopped e = after_error keys (is_stopped e) e

abbrev pub go_on : List Action → Next → List Action × Option GoError → List Action × Option GoError
go_on done again rest = (done ++ rest.0, rest.1)
go_on done (returns e) rest = (done, some e)

-- `singleWorkerRunner` over the rounds that come; `none` says that it goes on after them.
unfoldable pub single_worker_runner :
    Keys → (GoError → Bool) → List Round → List Action × Option GoError
unfolding attempt decide
single_worker_runner keys is_stopped [] = ([], none)
single_worker_runner keys is_stopped (r ∷ rs) =
    let (done, e) = attempt keys r in
    go_on done (decide keys is_stopped e) (single_worker_runner keys is_stopped rs)

abbrev pub multi_ending : Keys → GoError → GoError
multi_ending keys nil_error = nil_error
multi_ending keys e = newf keys worker_error 2 (also e end) 0

-- `multiWorkerRunner`
unfoldable pub multi_worker_runner : Keys → Ending → GoError
unfolding newf panic_error
multi_worker_runner keys run = multi_ending keys (run_ending keys run)

-- What a worker's goroutine sends: a worker may not end without an error.
unfoldable pub reported : Keys → (GoError → Bool) → GoError → GoError → GoError
unfolding newf
reported keys is_stopped stopped nil_error = newf keys worker_error 3 end 0
reported keys is_stopped stopped e = if is_stopped e then stopped else e

-- `Run` returns what the workers sent, joined, or that there are none.
unfoldable pub run_error : Keys → GoError → Wrapped → GoError
unfolding newf
run_error keys no_workers end = no_workers
run_error keys no_workers (also e es) = newf keys worker_error 4 (also e es) 0
