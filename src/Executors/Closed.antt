-- ===== src/Executors/Closed.antt =====
-- A rule for properties of the executor: what the small changes keep, the events keep. Rounds has the
-- events.
pub mod Rounds
use go_fw.Prelude.{
  update, [], ℕ, zero, suc, ◌+◌, ◌-◌, ◌≡◌, inl, inr, Bool, Bool-cases, true, false, ◌&&◌, Option,
  none, some, List, ◌∷◌, arith, ◌==◌, ==_iff, ltb, leb, if◌then◌else◌, ◌++◌, Whenever,
}
use go_fw.Prelude.Int.{ℤ}
use go_fw.Queue.{Heap, Element, pop, peek, len}
use go_fw.Executors.Task.{
  Task, context_canceled, is_done, delayed, periodic, set_running, set_done, configure_next_run,
}
use go_fw.Executors.TaskList.{TaskList, length_list, init, task_ids}
use go_fw.Executors.Default.{
  Executor, rank, shutting_down, terminated, is_canceled, queue_length, can_start_new_task,
  configure_scheduler_timer, push_scheduled, schedule_task, enqueue_task, execute_task, start_if,
  try_execute_task, try_run_next_task, end_if_idle, run_front, set_task, shut_to_waiting,
}
use go_fw.Executors.Events.{
  on_timer, run_due, after_pop, on_submitted, requeue, with_task, reschedule, settle_completed,
  on_completed, drop_one, unlink, or_canceled, unschedule, on_task_canceled, run_while_room,
  on_update_concurrency, on_update_queue_capacity, on_cancel, on_cancel_now, without_reply, Event,
  context_done, timer_fired, submitted, completed, task_canceled, update_concurrency,
  update_queue_capacity, cancel_requested, cancel_now_requested, handle, ◌>>=◌,
}
use go_fw.Executors.Steps.{configure_scheduler_timer_lem, try_cases, try_next_cases}

-- `P` holds while the loop runs, `E` when it has ended.
pub record IsClosed (P E : Executor → Type 0) : Type 0 where
  pub timer :
      (e : Executor) (t : Option ℤ) (d : ℤ) → P e → P (record e { timer = t; timer_target = d })
  pub queue : (e : Executor) (l : TaskList) → P e → P (record e { queue = l })
  pub scheduled :
      (e : Executor) (h : Heap ℕ) (s a : ℕ)
      → P e
      → P (record e { scheduled_queue = h; sequence = s; next_address = a })
  pub tasks : (e : Executor) (f : ℕ → Task) → P e → P (record e { tasks = f })
  pub start :
      (e : Executor) (f : ℕ → Task) (id : ℕ)
      → can_start_new_task e ≡ true
      → P e
      → P (record e {
        tasks = f;
        running_count = e.running_count + 1;
        goroutines = id ∷ e.goroutines;
      })
  pub shut :
      (e : Executor)
      → is_canceled e ≡ true
      → P e
      → P (record e { status = shut_to_waiting e.status })
  pub cancels :
      (e : Executor) → is_canceled e ≡ false → P e → P (record e { status = shutting_down })
  pub collect :
      (e : Executor)
      → leb 2 (rank e.status) ≡ false
      → P e
      → P (record e { status = shut_to_waiting e.status })
  pub ended :
      (e : Executor)
      → is_canceled e ≡ true
      → queue_length e ≡ 0
      → e.running_count ≡ 0
      → P e
      → E (record e { status = terminated })

-- What holds of the result of an event.
abbrev pub Ends : (Executor → Type 0) → (Executor → Type 0) → Executor × Bool → Type 0
Ends P E (e, true) = P e
Ends P E (e, false) = E e

module _ (P E : Executor → Type 0) (c : IsClosed P E) where
  pub configure-closed : (e : Executor) → P e → P (configure_scheduler_timer e)
  configure-closed e p = let (t, d, q) = configure_scheduler_timer_lem e in rw q (c.timer e t d p)

  pub push-closed : (id : ℕ) (e : Executor) → P e → P (push_scheduled id e).0
  unfolding push_scheduled
  push-closed id e p = c.scheduled e _ _ _ p

  schedule-closed : (id : ℕ) (e : Executor) → P e → P (schedule_task id e)
  unfolding schedule_task
  schedule-closed id e p = configure-closed _ (c.tasks _ _ (push-closed id e p))

  enqueue-closed : (id : ℕ) (e : Executor) → P e → P (enqueue_task id e)
  unfolding enqueue_task
  enqueue-closed id e p = c.tasks _ _ (c.queue e _ p)

  start_if-closed :
      (id : ℕ) (e : Executor) (r : Task × Bool)
      → can_start_new_task e ≡ true
      → P e
      → P (start_if id r e)
  start_if-closed id e (t, true) room p = c.start e (update e.tasks id t) id room p
  start_if-closed id e (t, false) room p = p

  pub try_execute-closed : (now : ℤ) (id : ℕ) (e : Executor) → P e → P (try_execute_task now id e)
  try_execute-closed now id e p =
      try_cases P now id e (λ r. p) (λ r d. schedule-closed id e p) (λ r d f. enqueue-closed id e p)
        (λ r d room. start-closed room)
    where
      start-closed : can_start_new_task e ≡ true → P (execute_task now id e)
      start-closed room =
          unfold execute_task in start_if-closed id e (set_running now (e.tasks id)) room p

  pub run_front-closed : (now : ℤ) (l : List (ℕ × ℕ)) (e : Executor) → P e → P (run_front now l e)
  run_front-closed now [] e p = p
  run_front-closed now ((a, id) ∷ rest) e p =
      try_execute-closed now id _ (c.tasks _ _ (c.queue e _ p))

  end_if_idle-closed :
      (e : Executor) → queue_length e ≡ 0 → is_canceled e ≡ true → P e → Ends P E (end_if_idle e)
  end_if_idle-closed e q k p = elim (Bool-cases (ltb 0 e.running_count)) [
    | inl b ↦ rw b (c.shut e k p)
    | inr b ↦ rw b (c.ended e k q (ground arith) p)
  ]

  pub try_run_next-closed : (now : ℤ) (e : Executor) → P e → Ends P E (try_run_next_task now e)
  try_run_next-closed now e p =
      try_next_cases (Ends P E) now e (λ _. p)
        (λ t q k. end_if_idle-closed e ((==_iff _ _).0 q) k p)
        (λ t k. run_front-closed now e.queue.items e p)
