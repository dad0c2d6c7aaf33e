-- ===== src/Executors/Races.antt =====
-- What the event loop does when a caller or a task goroutine changes a task between its events.
use go_fw.Prelude.{
  ℕ, ◌≡◌, refl, true, false, Option, none, [], ◌∷◌, ◌++◌, arith, Returns, update_self,
}
use go_fw.Prelude.Int.{ℤ}
use go_fw.Executors.Task.{
  Task, running, done, periodic, cancel_swap, set_done, configure_next_run, delayed, cancel,
}
use go_fw.Executors.Task.Lifecycle.{IsValid}
use go_fw.Executors.TaskList.{push_back}
use go_fw.Executors.Default.{Executor, set_task}
use go_fw.Executors.Events.{on_completed, settle_completed, requeue, or_canceled}

-- `Cancel` marks a running task in two writes: the status, and then the field `canceled`. If the
-- event of a periodic task's completed run comes between the two, the event loop panics, whatever
-- the state of the executor.
pub completed_between_writes_panics :
    (now : ℤ) (id : ℕ) (e : Executor) (t : Task)
    → t.status ≡ running
    → periodic t ≡ true
    → t.canceled ≡ false
    → on_completed now id (set_task id (cancel_swap t).0 e) ≡ none
unfolding on_completed settle_completed cancel_swap configure_next_run
completed_between_writes_panics now id e t s p c =
    rw (update_self e.tasks id (cancel_swap t).0) (ground arith)

-- If `Cancel` of a running task that runs once returns true, and the executor takes in the event of
-- the cancellation before the task's function returns with no error, then the task is done and
-- canceled with no error.
pub canceled_without_error :
    (t : Task) (value : Option ℕ)
    → IsValid t
    → t.status ≡ running
    → Returns
        (λ (u, b).
          (b ≡ true)
          × Returns
              (λ (d, _). (d.status ≡ done) × (d.canceled ≡ true) × (d.err ≡ none))
              (set_done value none (record u { err = or_canceled u.err })))
        (cancel t)
unfolding cancel set_done
canceled_without_error t value v s = ground arith

-- A periodic task that goes back to the ready queue keeps the element of its first stay there, or
-- none: it does not get that of the new stay.
pub requeued_unlinked :
    (now : ℤ) (id : ℕ) (e : Executor)
    → delayed now (e.tasks id) ≡ false
    → ((requeue now id e).queue.items ≡ e.queue.items ++ (e.queue.next_element, id) ∷ [])
      × ((requeue now id e).tasks ≡ e.tasks)
unfolding requeue push_back
requeued_unlinked now id e h = (rw h refl, rw h refl)
