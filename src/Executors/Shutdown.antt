-- ===== src/Executors/Shutdown.antt =====
-- How the executor shuts down: the order of its statuses, when the loop returns, and the courses in
-- which it does not.
use go_fw.Prelude.{
  ◌≤◌, ◌≡◌, refl, inl, inr, Bool-cases, true, false, not, arith, ◌==◌, ltb, Whenever,
}
use go_fw.Prelude.Int.{ℤ}
use go_fw.Executors.Default.{
  Executor, Status, rank, shutting_down, terminated, is_canceled, is_terminated, queue_length,
  try_run_next_task,
}
use go_fw.Executors.Events.{
  Event, update_concurrency, update_queue_capacity, completed, handle, on_cancel,
}
use go_fw.Executors.Closed.{IsClosed, Ends}
use go_fw.Executors.Closed.Rounds.{Needs, handle-closed}

-- The loop runs, and the status has not gone back.
pub record IsOpen (s : Status) (e : Executor) : Type 0 where
  pub open_status : is_terminated e ≡ false
  pub forward : rank s ≤ rank e.status

-- The loop has returned: nothing is queued, and nothing runs.
pub record IsOver (e : Executor) : Type 0 where
  pub over : e.status ≡ terminated
  pub empty : queue_length e ≡ 0
  pub idle : e.running_count ≡ 0

IsOpen-closed : (s : Status) → IsClosed (IsOpen s) IsOver
IsOpen-closed s = record {
  timer = λ e t d p. record { open_status = p.open_status; forward = p.forward };
  queue = λ e l p. record { open_status = p.open_status; forward = p.forward };
  scheduled = λ e h q a p. record { open_status = p.open_status; forward = p.forward };
  tasks = λ e f p. record { open_status = p.open_status; forward = p.forward };
  start = λ e f id k p. record { open_status = p.open_status; forward = p.forward };
  shut = λ e k p. let a = p.open_status in let b = p.forward in ground arith;
  cancels = λ e k p. let a = p.open_status in let b = p.forward in ground arith;
  collect = λ e k p. let a = p.open_status in let b = p.forward in ground arith;
  ended = λ e k q r p. record { over = refl; empty = q; idle = r };
}

open-Needs :
    (ev : Event) (e : Executor)
    → is_terminated e ≡ false
    → Needs (IsOpen e.status) IsOver (IsOpen-closed e.status) ev e
open-Needs (update_concurrency limit now) e h = record { open_status = h; forward = omega arith }
open-Needs (completed now id) e h = record { open_status = h; forward = omega arith }
open-Needs (update_queue_capacity limit) e h = record { open_status = h; forward = omega arith }
open-Needs _ e h = tt

-- In each event of a loop that runs, the loop goes on exactly if the executor is not terminated
-- after it; then the status has moved forward or stayed. Where the loop returns, the queues are
-- empty and no task runs.
pub handle-Ends :
    (ev : Event) (e : Executor)
    → is_terminated e ≡ false
    → Whenever (Ends (IsOpen e.status) IsOver) (handle ev e)
handle-Ends ev e h =
    handle-closed _ _ (IsOpen-closed e.status) ev e
      (record { open_status = h; forward = omega arith }) (open-Needs ev e h)

-- A canceled executor with nothing queued and nothing running ends when it looks for a task.
pub idle_ends :
    (now : ℤ) (e : Executor)
    → is_terminated e ≡ false
    → is_canceled e ≡ true
    → queue_length e ≡ 0
    → e.running_count ≡ 0
    → try_run_next_task now e ≡ (record e { status = terminated }, false)
unfolding try_run_next_task
idle_ends now e t k q r =
    let q' : (queue_length e == 0) ≡ true = ground arith in
    let r' : ltb 0 e.running_count ≡ false = ground arith in rw (t, q', k, r')

-- `Cancel`: it replies true exactly if the executor was running, and an executor that is idle ends
-- at once.
pub on_cancel_correct :
    (now : ℤ) (e : Executor)
    → ((on_cancel now e).1 ≡ not (is_canceled e))
      × (is_canceled e ≡ true → (on_cancel now e).0 ≡ (e, true))
      × (is_canceled e ≡ false
          → queue_length e ≡ 0
          → e.running_count ≡ 0
          → (on_cancel now e).0 ≡ (record e { status = terminated }, false))
unfolding on_cancel
on_cancel_correct now e = (
  reply,
  λ k. rw k refl,
  λ k q r. rw k (idle_ends now (record e { status = shutting_down }) refl refl q r),
)
  where
    reply : (on_cancel now e).1 ≡ not (is_canceled e)
    reply = elim (Bool-cases (is_canceled e)) [ inl k ↦ rw k | inr k ↦ rw k ]
