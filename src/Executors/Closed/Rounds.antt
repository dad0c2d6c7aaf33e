-- ===== src/Executors/Closed/Rounds.antt =====
-- The events of the loop keep what the small changes keep.
use go_fw.Prelude.{
  ℕ, zero, suc, ◌-◌, ◌≡◌, inl, inr, Bool, Bool-cases, true, false, ◌&&◌, Option, none, some, List,
  ◌==◌, ltb, leb, if◌then◌else◌, ◌++◌, Whenever,
}
use go_fw.Prelude.Int.{ℤ}
use go_fw.Queue.{Heap, Element, pop, peek, len}
use go_fw.Executors.Task.{
  Task, context_canceled, is_done, delayed, periodic, set_done, configure_next_run,
}
use go_fw.Executors.TaskList.{TaskList, length_list, init, task_ids}
use go_fw.Executors.Default.{
  Executor, rank, is_canceled, can_start_new_task, try_run_next_task, set_task, shut_to_waiting,
}
use go_fw.Executors.Events.{
  on_timer, run_due, after_pop, on_submitted, requeue, with_task, reschedule, settle_completed,
  on_completed, drop_one, unlink, or_canceled, unschedule, on_task_canceled, run_while_room,
  on_update_concurrency, on_update_queue_capacity, on_cancel, on_cancel_now, without_reply, Event,
  context_done, timer_fired, submitted, completed, task_canceled, update_concurrency,
  update_queue_capacity, cancel_requested, cancel_now_requested, handle, ◌>>=◌,
}
use go_fw.Executors.Closed.{
  IsClosed, Ends, configure-closed, push-closed, try_execute-closed, try_run_next-closed,
}

module _ (P E : Executor → Type 0) (c : IsClosed P E) where
  abbrev Kept : Option (Executor × Bool) → Type 0
  Kept r = Whenever (Ends P E) r

  >>=-closed :
      (m : Option Executor) (f : Executor → Option (Executor × Bool))
      → Whenever P m
      → ((e : Executor) → P e → Kept (f e))
      → Kept (m >>= f)
  >>=-closed none f h k = tt
  >>=-closed (some e) f h k = k e h

  after_pop-closed :
      (now : ℤ) (r : Option (Element ℕ × Heap ℕ)) (e : Executor)
      → P e
      → Whenever P (after_pop now r e)
  after_pop-closed now none e p = tt
  after_pop-closed now (some (x, h)) e p =
      try_execute-closed P E c now x.value _
        (c.tasks _ _ (c.scheduled e h e.sequence e.next_address p))

  run_due-closed :
      (now : ℤ) (r : Option (Element ℕ)) (e : Executor) → P e → Whenever P (run_due now r e)
  run_due-closed now none e p = tt
  run_due-closed now (some x) e p = elim (Bool-cases (delayed now (e.tasks x.value))) [
    | inl b ↦ rw b p
    | inr b ↦ rw b (after_pop-closed now (pop e.scheduled_queue) e p)
  ]

  pub on_timer-closed : (now : ℤ) (e : Executor) → P e → Kept (on_timer now e)
  unfolding on_timer
  on_timer-closed now e p =
      let p0 : P (record e { timer = none }) = c.timer e none e.timer_target p in
      elim (Bool-cases (len e.scheduled_queue == 0)) [
        | inl b ↦ rw b p0
        | inr b ↦ rw b (
            >>=-closed _ _ (run_due-closed now (peek e.scheduled_queue) _ p0)
              (λ e' p'. configure-closed P E c e' p'))
      ]

  requeue-closed : (now : ℤ) (id : ℕ) (e : Executor) → P e → P (requeue now id e)
  unfolding requeue
  requeue-closed now id e p = elim (Bool-cases (delayed now (e.tasks id))) [
    | inl b ↦ rw b (configure-closed P E c _ (push-closed P E c id e p))
    | inr b ↦ rw b (c.queue e _ p)
  ]

  with_task-closed :
      (id : ℕ) (e : Executor) (r : Option (Task × Bool)) → P e → Whenever P (with_task id e r)
  with_task-closed id e none p = tt
  with_task-closed id e (some (t, _)) p = c.tasks e _ p

  reschedule-closed :
      (now : ℤ) (id : ℕ) (e : Executor) (r : Option Task) → P e → Whenever P (reschedule now id e r)
  reschedule-closed now id e none p = tt
  reschedule-closed now id e (some t) p = requeue-closed now id _ (c.tasks e _ p)

  branches-closed :
      (e : Executor) (b k q : Bool) (x y : Option Executor)
      → P e
      → Whenever P x
      → Whenever P y
      → Whenever P (if b then some e else if k then x else if q then y else some e)
  branches-closed e true k q x y p hx hy = p
  branches-closed e false true q x y p hx hy = hx
  branches-closed e false false true x y p hx hy = hy
  branches-closed e false false false x y p hx hy = p

  pub settle-closed :
      (now : ℤ) (id : ℕ) (e : Executor) → P e → Whenever P (settle_completed now id e)
  unfolding settle_completed
  settle-closed now id e p =
      branches-closed e (is_done (e.tasks id).status) (e.tasks id).canceled (periodic (e.tasks id))
        (with_task id e (set_done none (some context_canceled) (e.tasks id)))
        (reschedule now id e (configure_next_run now (e.tasks id))) p (with_task-closed id e _ p)
        (reschedule-closed now id e _ p)

  -- The caller shows what the end of a run keeps.
  pub on_completed-closed :
      (now : ℤ) (id : ℕ) (e : Executor)
      → P (record e { running_count = e.running_count - 1; goroutines = drop_one id e.goroutines })
      → Kept (on_completed now id e)
  unfolding on_completed
  on_completed-closed now id e p =
      >>=-closed _ _ (settle-closed now id _ p) (λ e' p'. try_run_next-closed P E c now e' p')

  unscheduled-closed :
      (r : Option (Heap ℕ)) (e : Executor) (l : TaskList)
      → P e
      → Kept (r >>= λ h. some (record e { queue = l; scheduled_queue = h }, true))
  unscheduled-closed none e l p = tt
  unscheduled-closed (some h) e l p = c.scheduled _ h e.sequence e.next_address (c.queue e l p)

  unlinked-closed :
      (r : Option TaskList) (x : Option (Element ℕ)) (e : Executor)
      → P e
      → Kept (
          r >>= λ l. unschedule x e.scheduled_queue >>= λ h.
          some (record e { queue = l; scheduled_queue = h }, true))
  unlinked-closed none x e p = tt
  unlinked-closed (some l) x e p = unscheduled-closed (unschedule x e.scheduled_queue) e l p

  pub on_task_canceled-closed : (id : ℕ) (e : Executor) → P e → Kept (on_task_canceled id e)
  unfolding on_task_canceled
  on_task_canceled-closed id e p =
      let t = e.tasks id in
      let e0 = set_task id (record t { err = or_canceled t.err }) e in
      let p0 : P e0 = c.tasks e _ p in
      elim (Bool-cases (length_list e.queue == 0)) [
        | inl b ↦ rw b p0
        | inr b ↦ rw b (unlinked-closed (unlink t.queue_element e.queue) t.s_queue_element e0 p0)
      ]

  next-closed :
      (fuel : ℕ) (now : ℤ) (r : Executor × Bool)
      → Ends P E r
      → ((e : Executor) → P e → Ends P E (run_while_room fuel now e))
      → Ends P E (if r.1 then run_while_room fuel now r.0 else (r.0, false))
  next-closed fuel now (e, true) h k = k e h
  next-closed fuel now (e, false) h k = h

  pub run_while-closed :
      (fuel : ℕ) (now : ℤ) (e : Executor) → P e → Ends P E (run_while_room fuel now e)
  unfolding run_while_room
  run_while-closed zero now e p = p
  run_while-closed (suc fuel) now e p =
      elim (Bool-cases (can_start_new_task e && ltb 0 (length_list e.queue))) [
        | inr b ↦ rw b p
        | inl b ↦ rw b (
            next-closed fuel now (try_run_next_task now e) (try_run_next-closed P E c now e p)
              (λ e' p'. run_while-closed fuel now e' p'))
      ]

  pub on_update_concurrency-closed :
      (limit now : ℤ) (e : Executor)
      → P (record e { concurrency = limit })
      → Ends P E (on_update_concurrency limit now e)
  unfolding on_update_concurrency
  on_update_concurrency-closed limit now e p = run_while-closed _ now _ p

  pub on_cancel-closed : (now : ℤ) (e : Executor) → P e → Ends P E (on_cancel now e).0
  unfolding on_cancel
  on_cancel-closed now e p = elim (Bool-cases (is_canceled e)) [
    | inl b ↦ rw b p
    | inr b ↦ rw b (try_run_next-closed P E c now _ (c.cancels e b p))
  ]

  collected-closed :
      (now : ℤ) (e : Executor) (r : Option (List ℕ × Heap ℕ))
      → leb 2 (rank e.status) ≡ false
      → P e
      → Kept (
          without_reply (
            r >>= λ (ids, h). some (
              try_run_next_task now (record e {
                queue = init e.queue;
                scheduled_queue = h;
                status = shut_to_waiting e.status;
              }),
              some (task_ids e.queue ++ ids),
            )))
  collected-closed now e none b p = tt
  collected-closed now e (some (ids, h)) b p =
      try_run_next-closed P E c now _
        (c.collect _ b (c.scheduled _ h e.sequence e.next_address (c.queue e _ p)))

  pub on_cancel_now-closed :
      (now : ℤ) (e : Executor) → P e → Kept (without_reply (on_cancel_now now e))
  unfolding on_cancel_now
  on_cancel_now-closed now e p = elim (Bool-cases (leb 2 (rank e.status))) [
    | inl b ↦ rw b p
    | inr b ↦ rw b (collected-closed now e _ b p)
  ]

  -- What an event needs to keep `P`: a change of the limit, and the end of a run, are the caller's.
  abbrev pub Needs : Event → Executor → Type 0
  Needs (completed now id) e =
      P (record e { running_count = e.running_count - 1; goroutines = drop_one id e.goroutines })
  Needs (update_concurrency limit now) e = P (record e { concurrency = limit })
  Needs (update_queue_capacity capacity) e = P (record e { queue_capacity = capacity })
  Needs _ e = Unit

  pub handle-closed : (ev : Event) (e : Executor) → P e → Needs ev e → Kept (handle ev e)
  unfolding handle
  handle-closed context_done e p n = p
  handle-closed (timer_fired now) e p n = on_timer-closed now e p
  handle-closed (submitted now id) e p n =
      unfold on_submitted in try_execute-closed P E c now id e p
  handle-closed (completed now id) e p n = on_completed-closed now id e n
  handle-closed (task_canceled id) e p n = on_task_canceled-closed id e p
  handle-closed (update_concurrency limit now) e p n = on_update_concurrency-closed limit now e n
  handle-closed (update_queue_capacity capacity) e p n = unfold on_update_queue_capacity in n
  handle-closed (cancel_requested now) e p n = on_cancel-closed now e p
  handle-closed (cancel_now_requested now) e p n = on_cancel_now-closed now e p
