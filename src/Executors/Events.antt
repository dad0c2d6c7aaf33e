-- ===== src/Executors/Events.antt =====
-- The event loop of executors/executors_default.go: one function for each case of its `select`, and
-- the task goroutine. A reply is what the loop sends on the event's channel.
use go_fw.Prelude.{
  ℕ, zero, suc, ◌-◌, Bool, true, false, ◌&&◌, ◌||◌, not, Option, none, some, List, [], ◌∷◌, ◌++◌,
  ◌==◌, ltb, leb, if◌then◌else◌,
}
use go_fw.Prelude.Int.{ℤ}
use go_fw.Queue.{Element, Heap, pop, peek, remove, len}
use go_fw.Executors.Task.{
  Task, TaskErr, context_canceled, task_panic, is_done, delayed, periodic, set_done,
  configure_context, configure_next_run,
}
use go_fw.Executors.TaskList.{TaskList, length_list, task_ids, push_back, remove_element, init}
use go_fw.Executors.Default.{
  Executor, shutting_down, rank, is_canceled, set_task, can_start_new_task,
  configure_scheduler_timer, push_scheduled, try_execute_task, try_run_next_task, shut_to_waiting,
}

infixl 5 ◌>>=◌
abbrev pub ◌>>=◌ : {A B : Type 0} → Option A → (A → Option B) → Option B
none >>= f = none
some a >>= f = f a

-- The timer case. The receive leaves the timer unset.
abbrev pub after_pop : ℤ → Option (Element ℕ × Heap ℕ) → Executor → Option Executor
after_pop now none e = none
after_pop now (some (x, h)) e = some (
    try_execute_task now x.value (
      set_task x.value (record (e.tasks x.value) { s_queue_element = none })
        (record e { scheduled_queue = h })))

abbrev pub run_due : ℤ → Option (Element ℕ) → Executor → Option Executor
run_due now none e = none
run_due now (some x) e =
    if not (delayed now (e.tasks x.value)) then after_pop now (pop e.scheduled_queue) e else some e

unfoldable pub on_timer : ℤ → Executor → Option (Executor × Bool)
on_timer now e =
    let e0 : Executor = record e { timer = none } in
    if len e.scheduled_queue == 0
    then some (e0, true)
    else run_due now (peek e.scheduled_queue) e0 >>= λ e'. some (configure_scheduler_timer e', true)

unfoldable pub on_submitted : ℤ → ℕ → Executor → Option (Executor × Bool)
on_submitted now id e = some (try_execute_task now id e, true)

abbrev pub drop_one : ℕ → List ℕ → List ℕ
drop_one id [] = []
drop_one id (j ∷ r) = if j == id then r else j ∷ drop_one id r

-- The completed periodic task goes back to a queue. Neither field of the task that would point to
-- its element is set.
unfoldable pub requeue : ℤ → ℕ → Executor → Executor
requeue now id e =
    if delayed now (e.tasks id)
    then configure_scheduler_timer (push_scheduled id e).0
    else record e { queue = (push_back e.queue id).0 }

abbrev pub with_task : ℕ → Executor → Option (Task × Bool) → Option Executor
with_task id e none = none
with_task id e (some (t, _)) = some (set_task id t e)

abbrev pub reschedule : ℤ → ℕ → Executor → Option Task → Option Executor
reschedule now id e none = none
reschedule now id e (some t) = some (requeue now id (set_task id (configure_context t) e))

unfoldable pub settle_completed : ℤ → ℕ → Executor → Option Executor
settle_completed now id e =
    let t = e.tasks id in
    if is_done t.status
    then some e
    else if t.canceled
    then with_task id e (set_done none (some context_canceled) t)
    else if periodic t
    then reschedule now id e (configure_next_run now t)
    else some e

unfoldable pub on_completed : ℤ → ℕ → Executor → Option (Executor × Bool)
on_completed now id e =
    let e0 : Executor = record e {
      running_count = e.running_count - 1;
      goroutines = drop_one id e.goroutines;
    } in
    settle_completed now id e0 >>= λ e'. some (try_run_next_task now e')

abbrev pub or_canceled : Option TaskErr → Option TaskErr
or_canceled none = some context_canceled
or_canceled (some x) = some x

abbrev pub unlink : Option ℕ → TaskList → Option TaskList
unlink none l = some l
unlink (some a) l = remove_element l a

abbrev pub unschedule : Option (Element ℕ) → Heap ℕ → Option (Heap ℕ)
unschedule none h = some h
unschedule (some x) h = elim (remove h x) [ none ↦ none | some (h', _) ↦ some h' ]

unfoldable pub on_task_canceled : ℕ → Executor → Option (Executor × Bool)
on_task_canceled id e =
    let t = e.tasks id in
    let e0 = set_task id (record t { err = or_canceled t.err }) e in
    let rest = unlink t.queue_element e0.queue >>= λ l.
    unschedule t.s_queue_element e0.scheduled_queue >>= λ h.
    some (record e0 { queue = l; scheduled_queue = h }, true) in
    if length_list e.queue == 0 then some (e0, true) else rest

-- `for e.canStartNewTask() && e.queue.Len() > 0`; a round takes one task off the queue.
unfoldable pub run_while_room : ℕ → ℤ → Executor → Executor × Bool
run_while_room zero now e = (e, true)
run_while_room (suc fuel) now e =
    let (e', continues) = try_run_next_task now e in
    let rest = run_while_room fuel now e' in
    if can_start_new_task e && ltb 0 (length_list e.queue)
    then (if continues then rest else (e', false))
    else (e, true)

unfoldable pub on_update_concurrency : ℤ → ℤ → Executor → Executor × Bool
on_update_concurrency c now e =
    run_while_room (suc (length_list e.queue)) now (record e { concurrency = c })

unfoldable pub on_update_queue_capacity : ℤ → Executor → Executor × Bool
on_update_queue_capacity c e = (record e { queue_capacity = c }, true)

-- With the reply of `Cancel`.
unfoldable pub on_cancel : ℤ → Executor → (Executor × Bool) × Bool
on_cancel now e =
    if is_canceled e
    then ((e, true), false)
    else (try_run_next_task now (record e { status = shutting_down }), true)

-- `for e.scheduledQueue.Len() > 0 { … e.scheduledQueue.Pop().Value … }`
unfoldable pub pop_all : ℕ → Heap ℕ → Option (List ℕ × Heap ℕ)
pop_all zero h = some ([], h)
pop_all (suc fuel) h =
    let rest = pop h >>= λ (x, g). pop_all fuel g >>= λ (ids, g'). some (x.value ∷ ids, g') in
    if len h == 0 then some ([], h) else rest

-- With the reply of `CancelNow`: the tasks that the loop collected, or none if it closes the
-- channel without a reply.
unfoldable pub on_cancel_now : ℤ → Executor → Option ((Executor × Bool) × Option (List ℕ))
on_cancel_now now e =
    let collected = pop_all (suc (len e.scheduled_queue)) e.scheduled_queue >>= λ (ids, h). some (
      try_run_next_task now (record e {
        queue = init e.queue;
        scheduled_queue = h;
        status = shut_to_waiting e.status;
      }),
      some (task_ids e.queue ++ ids),
    ) in
    if leb 2 (rank e.status) then some ((e, true), none) else collected

-- What a task's function did: it panicked, or returned a value and an error.
pub data Run : Type 0 where
  panicked : Run
  returned : Option ℕ → Option TaskErr → Run

abbrev pub has_err : Option TaskErr → Bool
has_err none = false
has_err (some _) = true

-- The goroutine of `executeTask`, up to the send of its completed event.
unfoldable pub finish_run : Run → ℕ → Executor → Option Executor
finish_run panicked id e = with_task id e (set_done none (some task_panic) (e.tasks id))
finish_run (returned value err) id e =
    if has_err err || not (periodic (e.tasks id))
    then with_task id e (set_done value err (e.tasks id))
    else some e

-- What the loop can receive.
pub data Event : Type 0 where
  context_done : Event
  timer_fired : ℤ → Event
  submitted completed : ℤ → ℕ → Event
  task_canceled : ℕ → Event
  update_concurrency : ℤ → ℤ → Event
  update_queue_capacity : ℤ → Event
  cancel_requested cancel_now_requested : ℤ → Event

abbrev pub without_reply {ℓ} :
    {A : Type ℓ} → Option ((Executor × Bool) × A) → Option (Executor × Bool)
without_reply none = none
without_reply (some (r, _)) = some r

-- One round of the event loop. The case of the context starts a goroutine that calls `Cancel`.
unfoldable pub handle : Event → Executor → Option (Executor × Bool)
handle context_done e = some (e, true)
handle (timer_fired now) e = on_timer now e
handle (submitted now id) e = on_submitted now id e
handle (completed now id) e = on_completed now id e
handle (task_canceled id) e = on_task_canceled id e
handle (update_concurrency c now) e = some (on_update_concurrency c now e)
handle (update_queue_capacity c) e = some (on_update_queue_capacity c e)
handle (cancel_requested now) e = some (on_cancel now e).0
handle (cancel_now_requested now) e = without_reply (on_cancel_now now e)
